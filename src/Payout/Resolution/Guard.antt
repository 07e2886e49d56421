-- ===== src/Payout/Resolution/Guard.antt =====
-- What an accepted resolution was checked for, and what it writes.
use shkeeper_io.Prelude.{
  ◌≡◌, ◌≢◌, refl, inl, inr, true, String, some, [], ◌∷◌, ◌++◌, arith, str_eq, eq_iff, Bool-cases,
  Option-cases,
}
use shkeeper_io.Prelude.Json.{Value, dict, Fields, get, truthy}
use shkeeper_io.Errors.{Result, ok, err, Result-cases}
use shkeeper_io.Context.{Context, Env, str}
use shkeeper_io.Payout.States.{ResolutionStatus, resolution_of_name}
use shkeeper_io.Payout.Row.{Execution, Event, Session}
use shkeeper_io.Payout.Callback.Told.{Announces}
use shkeeper_io.Payout.Transition.{event_required}
use shkeeper_io.Payout.Transition.Outcome.{
  Outcome, quiet, told, refused, transition-Outcome, moved-state, moved-resolution_evidence,
}
use shkeeper_io.Payout.Transition.History.{IsDraft, IsHistory, transition-IsHistory}
use shkeeper_io.Payout.Resolution.{
  require_object, require_evidence, resolution_status_of, Plan, check_resolution,
  manual_resolution_target_state, carry_out, record_manual_resolution, resolution_move,
  resolved_row, resolution_audit,
}
use shkeeper_io.Payout.Resolution.Evidence.{
  validate_manual_resolution_evidence, validate_common_resolution_evidence, validate_by_status,
}

require_object-dict : (v : Value) (fs : Fields) → require_object v ≡ ok fs → v ≡ dict fs
unfolding require_object
require_object-dict (dict gs) fs h = ground arith
require_object-dict _ fs h = absurd (ground arith)

require_evidence-dict :
    (v : Value) (fs : Fields)
    → require_evidence v ≡ ok fs
    → (v ≡ dict fs) × (truthy (dict fs) ≡ true)
unfolding require_evidence
require_evidence-dict (dict gs) fs h = elim (Bool-cases (truthy (dict gs))) [
  | inl p ↦ (ground arith, ground arith)
  | inr p ↦ absurd (ground arith)
]
require_evidence-dict _ fs h = absurd (ground arith)

resolution_status_of-named :
    ⦃ctx : Context⦄ (v : Value) (status : ResolutionStatus)
    → resolution_status_of v ≡ ok status
    → resolution_of_name (str v) ≡ some status
unfolding resolution_status_of
resolution_status_of-named v status h = elim (Option-cases (resolution_of_name (str v))) [
  | inl p ↦ absurd (ground arith)
  | inr (x, p) ↦ ground arith
]

module _ ⦃ctx : Context⦄ (e : Execution) (payload : Value) (operator_id : String) where
  -- A plan that passed is that of the payload and the operator, and has passed each check.
  pub record Checked (p : Plan) : Type 0 where
    pub operator : operator_id ≢ ""
    pub by_operator : p.operator_id ≡ operator_id
    pub fields : Fields
    pub object : payload ≡ dict fields
    pub named : resolution_of_name (str (get "resolution_status" fields)) ≡ some p.status
    pub given : get "evidence" fields ≡ dict p.evidence
    pub not_empty : truthy (dict p.evidence) ≡ true
    pub note : p.operator_note ≡ get "operator_note" fields
    pub common : validate_common_resolution_evidence e p.evidence ≡ ok tt
    pub by_status : validate_by_status e p.status p.evidence ≡ ok tt
    pub target : manual_resolution_target_state e.state p.status ≡ ok p.target

  pub check-Checked : (p : Plan) → check_resolution e payload operator_id ≡ ok p → Checked p
  unfolding check_resolution validate_manual_resolution_evidence
  check-Checked p h = elim (Bool-cases (str_eq operator_id "")) [
    | inl q ↦ absurd (ground arith)
    | inr q ↦ elim (Result-cases (require_object payload)) [
      | inr (x, r) ↦ absurd (ground arith)
      | inl (fields, r) ↦
          elim (Result-cases (resolution_status_of (get "resolution_status" fields))) [
            | inr (x, t) ↦ absurd (ground arith)
            | inl (status, t) ↦ elim (Result-cases (require_evidence (get "evidence" fields))) [
              | inr (x, v) ↦ absurd (ground arith)
              | inl (evidence, v) ↦ record {
                operator = λ (s : operator_id ≡ ""). cc ((eq_iff operator_id "").1 s);
                by_operator = ground arith;
                fields = fields;
                object = require_object-dict payload fields r;
                named =
                    ground
                      (arith, resolution_status_of-named (get "resolution_status" fields) status t);
                given = ground (arith, require_evidence-dict (get "evidence" fields) evidence v);
                not_empty =
                    ground (arith, require_evidence-dict (get "evidence" fields) evidence v);
                note = ground arith;
                common = ground arith;
                by_status = ground arith;
                target = ground arith;
              }
            ]
          ]
    ]
  ]

-- What a resolution that returns has done from `s`: the plan has passed every check, the state is
-- its target, its evidence is on the row, and one event and one audit row were added that carry the same new transition id.
pub record Settles ⦃ctx : Context⦄ (s : Session) (payload : Value) (operator_id : String)
    (t : Session) : Type 0 where
  pub plan : Plan
  pub checked : Checked s.execution payload operator_id plan
  pub state : t.execution.state ≡ plan.target
  pub recorded : t.execution.resolution_evidence ≡ dict plan.evidence
  pub event : Event
  pub events : t.events ≡ s.events ++ event ∷ []
  pub announced : Announces event t.execution (some s.execution.state) plan.target
  pub audits :
      t.audits ≡ s.audits ++ resolution_audit plan s.execution t.execution.state_transition_id ∷ []

module _ ⦃ctx : Context⦄ (env : Env) (s : Session) (payload : Value) (operator_id : String) where
  abbrev pub Effect : Result (Unit {0}) × Session → Type 0
  Effect (ok _, t) = Settles s payload operator_id t
  Effect (err x, t) = t ≡ s

  forced : (p : Plan) (e : Execution) → event_required (resolution_move p s.execution) e ≡ true
  unfolding resolution_move
  forced p e = ground arith

  Outcome-Effect :
      (p : Plan)
      → Checked s.execution payload operator_id p
      → {r : Result (Unit {0}) × Session}
      → Outcome env (resolution_move p s.execution) (resolved_row env p s.execution) s r
      → Effect r
  unfolding resolution_move resolved_row
  Outcome-Effect p c (quiet q) = cc (forced p (resolved_row env p s.execution))
  Outcome-Effect p c (told event q a) = record {
    plan = p;
    checked = c;
    state = moved-state env (resolution_move p s.execution) (resolved_row env p s.execution);
    recorded = moved-resolution_evidence env _ (resolved_row env p s.execution);
    event = event;
    events = refl;
    announced = a;
    audits = refl;
  }
  Outcome-Effect p c (refused x q) = refl

  carry_out-Effect :
      (plan : Result Plan)
      → check_resolution s.execution payload operator_id ≡ plan
      → Effect (carry_out plan env s)
  unfolding carry_out
  carry_out-Effect (err x) h = refl
  carry_out-Effect (ok p) h =
      Outcome-Effect p (check-Checked s.execution payload operator_id p h)
        (transition-Outcome env (resolution_move p s.execution) (resolved_row env p s.execution) s)

  -- A resolution that returns was made by a named operator, on the status, the note and the evidence
  -- of its payload, which passed every check; it reached its target, put the evidence on the row, and
  -- added one event and one audit row with the same transition id. One that raises changes nothing.
  pub resolution-Effect : Effect (record_manual_resolution env s payload operator_id)
  unfolding record_manual_resolution
  resolution-Effect = carry_out-Effect (check_resolution s.execution payload operator_id) refl

  -- the history is kept
  pub resolution-IsHistory :
      IsHistory s → IsHistory (record_manual_resolution env s payload operator_id).1
  unfolding record_manual_resolution carry_out
  resolution-IsHistory = carry (check_resolution s.execution payload operator_id)
    where
      draft : (p : Plan) → IsDraft (resolved_row env p s.execution) s
      draft p = unfold resolved_row in record { id = refl; state = refl; event_version = refl }

      carry : (plan : Result Plan) → IsHistory s → IsHistory (carry_out plan env s).1
      carry (err x) h = h
      carry (ok p) h =
          transition-IsHistory env (resolution_move p s.execution) (resolved_row env p s.execution)
            s (draft p) h
