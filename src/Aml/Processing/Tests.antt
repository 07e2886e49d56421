-- ===== src/Aml/Processing/Tests.antt =====
-- The checks of a deposit at a concrete provider.
use shkeeper_io.Prelude.{ℕ, ◌≡◌, refl, some, [], ◌∷◌, All, arith}
use shkeeper_io.Payout.Sidecar.Status.{to_int}
use shkeeper_io.Prelude.Text.{upper}
use shkeeper_io.Errors.{ok}
use shkeeper_io.Aml.Coverage.{get_coverage_policy}
use shkeeper_io.Aml.Check.{AmlCheck, Transaction, approved, pending}
use shkeeper_io.Aml.Client.{result}
use shkeeper_io.Aml.Policy.{base_check, decimal_of, has_alerts, is_true, signals_dict}
use shkeeper_io.Aml.Policy.Decide.{
  decision_from_provider_result, judge, copied, by_signals, by_score,
}
use shkeeper_io.Aml.Processing.{
  process_pending_aml_checks, ensure_aml_for_transaction, with_defaults, pending_check, submitted,
  reschedule, apply_snapshot,
}
use shkeeper_io.Aml.Processing.Tracked.{
  AllTracked, TracksRow, pending_pass-AllTracked, ensure_aml-Tracks,
}
use shkeeper_io.Aml.Processing.Timeout.{ReachedRow, SettledRow, overdue_pass_settles}
use shkeeper_io.Aml.Processing.Life.{Steps, phase, run, asked, polled_at, run-Steps}
use shkeeper_io.Aml.Notify.{answered, send_callback}
use shkeeper_io.Aml.Notify.Gate.{IsGated, callback-IsGated}
use shkeeper_io.Aml.Fixtures.{context, library, deposit, clear, sidecar}

-- the check of the deposit before the sidecar is asked, at the time 1
abbrev open_check : AmlCheck ℕ
open_check = with_defaults (pending_check 1 deposit)

abbrev open_deposit : Transaction ℕ
open_deposit = record deposit { aml_check = some open_check }

abbrev clear_decision : AmlCheck ℕ
clear_decision = judge clear (copied deposit clear 0)

decided : decision_from_provider_result deposit clear ≡ ok clear_decision
unfolding decision_from_provider_result get_coverage_policy upper to_int
decided = refl

decided_approved : clear_decision.status ≡ approved
unfolding judge copied by_signals by_score decimal_of has_alerts is_true signals_dict
decided_approved = refl

tracked : AllTracked (open_deposit ∷ [])
unfolding with_defaults pending_check
tracked = (record { limited = λ h. refl; settled = λ h. absurd (cc) }, tt)

pending_pass-AllTracked_example :
    AllTracked (process_pending_aml_checks sidecar 2 (open_deposit ∷ []))
pending_pass-AllTracked_example = pending_pass-AllTracked sidecar 2 (open_deposit ∷ []) tracked

ensure_aml-Tracks_example :
    TracksRow (ensure_aml_for_transaction sidecar 1 (deposit ∷ []) deposit).aml_check
ensure_aml-Tracks_example = ensure_aml-Tracks sidecar 1 (deposit ∷ []) deposit tt

reached : All (λ (tx : Transaction ℕ). ReachedRow 9000000000 tx.aml_check) (open_deposit ∷ [])
unfolding with_defaults pending_check base_check
reached = ((omega arith, tt), tt)

overdue_pass_settles_example :
    All
      (λ (tx : Transaction ℕ). SettledRow tx.aml_check)
      (process_pending_aml_checks sidecar 9000000000 (open_deposit ∷ []))
overdue_pass_settles_example =
    overdue_pass_settles sidecar 9000000000 (open_deposit ∷ []) tracked reached

callback-IsGated_example :
    IsGated
      (λ tx. answered 202)
      deposit
      (ensure_aml_for_transaction sidecar 1 (deposit ∷ []) deposit)
      (send_callback sidecar (λ tx. answered 202) 0 1 (deposit ∷ []) deposit)
callback-IsGated_example = callback-IsGated sidecar (λ tx. answered 202) 0 1 (deposit ∷ []) deposit

open_status : open_check.status ≡ pending
unfolding with_defaults pending_check
open_status = refl

abbrev approved_check : AmlCheck ℕ
approved_check = reschedule 2 (apply_snapshot (submitted (result clear) open_check) clear_decision)

abbrev approved_deposit : Transaction ℕ
approved_deposit = record open_deposit { aml_check = some approved_check }

run-Steps_example :
    Steps
      (phase deposit.aml_check)
      (phase (run (asked sidecar 1 [] ∷ polled_at sidecar 2 ∷ []) deposit).aml_check)
run-Steps_example = run-Steps (asked sidecar 1 [] ∷ polled_at sidecar 2 ∷ []) deposit
