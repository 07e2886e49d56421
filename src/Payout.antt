-- ===== src/Payout.antt =====
-- The payout execution subsystem (shkeeper/services/payout_*.py).
pub mod States
pub mod Address
pub mod Row
pub mod Callback
pub mod Transition
pub mod Sidecar
pub mod Resolution
pub mod Reconciler
pub mod Rail
pub mod Submit
pub mod Outbox
pub mod Fixtures
pub mod Auth
