-- ===== src/Aml/Policy/Decide/Approves.antt =====
-- When an answer of the provider approves a deposit.
use shkeeper_io.Prelude.{
  ℕ, ◌≡◌, inl, inr, refl, Bool, true, false, Option, none, some, arith, Bool-cases, Option-cases,
  or-false, ◌||◌, if◌then◌else◌,
}
use shkeeper_io.Prelude.Json.{Fields, get, or_value, num}
use shkeeper_io.Errors.{ok}
use shkeeper_io.Context.{Context}
use shkeeper_io.Payout.Sidecar.Status.{to_int}
use shkeeper_io.Aml.Coverage.{get_coverage_policy, is_supported}
use shkeeper_io.Aml.Check.{Library, AmlCheck, Transaction, approved, checking, manual_review}
use shkeeper_io.Aml.Policy.{
  is_text, has_alerts, is_true, decimal_of, signals_dict, unsupported_check,
}
use shkeeper_io.Aml.Policy.Decide.{
  judge, is_undecided, by_signals, by_score, copied, decision_from_provider_result,
}

module _ ⦃ctx : Context⦄ ⦃lib : Library⦄ where
  -- what has to hold of an answer that approves a deposit
  pub record IsClear (fs : Fields) (score : lib.Number) : Type 0 where
    pub scored : decimal_of (or_value (get "score" fs) (get "risk_score" fs)) ≡ some score
    pub low : lib.at_most score lib.max_accept_score ≡ true
    pub quiet : has_alerts (signals_dict (get "signals" fs)) ≡ false
    pub direct : is_true (get "too_many_indirects" (signals_dict (get "signals" fs))) ≡ false
    pub complete : is_text "missing_risk_score" (get "error_code" fs) ≡ false
    pub in_time : is_text "timeout" (get "status" fs) ≡ false
    pub provider_in_time : is_text "timeout" (get "provider_status" fs) ≡ false
    pub not_failed : is_text "failed" (get "status" fs) ≡ false
    pub no_error : is_text "error" (get "provider_status" fs) ≡ false
    pub decided : is_undecided fs ≡ false

  by_score-clear :
      (signals : Fields) (score : lib.Number) (check : AmlCheck lib.Number)
      → (by_score signals score check).status ≡ approved
      → (lib.at_most score lib.max_accept_score ≡ true)
        × (has_alerts signals ≡ false)
        × (is_true (get "too_many_indirects" signals) ≡ false)
  unfolding by_score
  by_score-clear signals score check h = ground arith

  by_signals-clear :
      (signals : Fields) (score : Option lib.Number) (check : AmlCheck lib.Number)
      → (by_signals signals score check).status ≡ approved
      → (n : lib.Number) × (score ≡ some n)
        × (lib.at_most n lib.max_accept_score ≡ true)
        × (has_alerts signals ≡ false)
        × (is_true (get "too_many_indirects" signals) ≡ false)
  unfolding by_signals
  by_signals-clear signals none check h = absurd (ground arith)
  by_signals-clear signals (some n) check h =
      let (low, quiet, direct) = by_score-clear signals n check h in (n, refl, low, quiet, direct)

  last_branch :
      (a b c d : Bool) (x y z w v : AmlCheck lib.Number)
      → x.status ≡ manual_review
      → y.status ≡ manual_review
      → z.status ≡ manual_review
      → w.status ≡ checking
      → (if a then x else if b then y else if c then z else if d then w else v).status ≡ approved
      → (a ≡ false) × (b ≡ false) × (c ≡ false) × (d ≡ false) × (v.status ≡ approved)
  last_branch true b c d x y z w v p q r s h = absurd (ground arith)
  last_branch false true c d x y z w v p q r s h = absurd (ground arith)
  last_branch false false true d x y z w v p q r s h = absurd (ground arith)
  last_branch false false false true x y z w v p q r s h = absurd (ground arith)
  last_branch false false false false x y z w v p q r s h = (refl, refl, refl, refl, h)

  judge-clear :
      (fs : Fields) (check : AmlCheck lib.Number)
      → (judge fs check).status ≡ approved
      → ((is_text "timeout" (get "status" fs) || is_text "timeout" (get "provider_status" fs))
          ≡ false)
        × (is_text "missing_risk_score" check.error_code ≡ false)
        × ((is_text "failed" (get "status" fs) || is_text "error" (get "provider_status" fs))
            ≡ false)
        × (is_undecided fs ≡ false)
        × ((by_signals (signals_dict (get "signals" fs)) check.score check).status ≡ approved)
  unfolding judge
  judge-clear fs check h =
      last_branch _ _ _ (is_undecided fs) _ _ _ (record check { status = checking })
        (by_signals (signals_dict (get "signals" fs)) check.score check) refl refl refl refl h

  judge-copied-IsClear :
      (tx : Transaction lib.Number) (fs : Fields) (attempts : ℕ)
      → (judge fs (copied tx fs attempts)).status ≡ approved
      → (n : lib.Number) × IsClear fs n
  unfolding copied
  judge-copied-IsClear tx fs attempts h =
      let (late, complete, failed, decided, g) = judge-clear fs (copied tx fs attempts) h in
      let (n, scored, low, quiet, direct) =
        by_signals-clear (signals_dict (get "signals" fs)) (copied tx fs attempts).score
          (copied tx fs attempts) g in
      (
        n,
        record {
          scored = scored;
          low = low;
          quiet = quiet;
          direct = direct;
          complete = complete;
          in_time =
              (or-false (is_text "timeout" (get "status" fs))
                (is_text "timeout" (get "provider_status" fs)) late).0;
          provider_in_time =
              (or-false (is_text "timeout" (get "status" fs))
                (is_text "timeout" (get "provider_status" fs)) late).1;
          not_failed =
              (or-false (is_text "failed" (get "status" fs))
                (is_text "error" (get "provider_status" fs)) failed).0;
          no_error =
              (or-false (is_text "failed" (get "status" fs))
                (is_text "error" (get "provider_status" fs)) failed).1;
          decided = decided;
        },
      )

  -- An answer of the provider approves a deposit only where it has a score at most the accepted
  -- one, and reports no alerts, no excess of indirect links, no missing score, no timeout, no
  -- failure and no error, and is not undecided.
  pub approved-IsClear :
      (tx : Transaction lib.Number) (fs : Fields) (check : AmlCheck lib.Number)
      → decision_from_provider_result tx fs ≡ ok check
      → check.status ≡ approved
      → (n : lib.Number) × IsClear fs n
  unfolding decision_from_provider_result unsupported_check
  approved-IsClear tx fs check h a =
      elim (Bool-cases (is_supported (get_coverage_policy lib.provider tx.crypto))) [
        | inr p ↦ absurd (ground arith)
        | inl p ↦ elim (Option-cases (to_int (or_value (get "attempts" fs) (num 0)))) [
          | inl q ↦ absurd (ground arith)
          | inr (attempts, q) ↦ judge-copied-IsClear tx fs attempts (ground arith)
        ]
      ]
