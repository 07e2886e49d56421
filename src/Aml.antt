-- ===== src/Aml.antt =====
-- The checks of deposits by an AML provider: shkeeper/services/aml_coverage.py, aml_policy.py,
-- aml_processing.py and aml_shkeeper_client.py, and the callbacks that wait for them (callback.py).
pub mod Coverage
pub mod Check
pub mod Client
pub mod Policy
pub mod Processing
pub mod Notify
pub mod Payload
pub mod Fixtures
