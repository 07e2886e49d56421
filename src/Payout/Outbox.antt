-- ===== src/Payout/Outbox.antt =====
-- shkeeper/services/payout_callback_outbox.py, the part that delivers events. One dispatcher runs
-- at a time; the HTTP request is a parameter, its status code or an exception.
mod Tests
pub mod Order
pub mod Attempt
use Prim.Native.String.{◌++◌ as append}
use shkeeper_io.Prelude.{
  ℕ, zero, suc, ◌+◌, ◌-◌, ◌*◌, ◌/◌, ◌^◌, Bool, true, false, not, ◌&&◌, ◌||◌, String, Option, none,
  some, List, [], ◌∷◌, any, all, leb, ltb, ◌==◌, str_eq, map, if◌then◌else◌,
}
use shkeeper_io.Errors.{Error, Result, ok, err, ◌>>=◌, ◌>>◌}
use shkeeper_io.Prelude.Numerals.{show}
use shkeeper_io.Context.{Context, seconds}
use shkeeper_io.Payout.Row.{Event, DispatchStatus, pending, retry, dispatching, delivered, failed}
use shkeeper_io.Payout.Callback.{signing_key, require_endpoint_configured, signed_callback_metadata}

-- `dispatch_status in ACTIVE_UNDELIVERED`
abbrev pub is_active : DispatchStatus → Bool
is_active delivered = false
is_active failed = false
is_active _ = true

abbrev not_before : Option ℕ → ℕ → Bool
not_before none now = true
not_before (some t) now = leb t now

-- a comparison with a NULL column holds for no row
abbrev stale : Option ℕ → ℕ → ℕ → Bool
stale none now lease = false
stale (some t) now lease = leb (t + seconds lease) now

-- `_due_filter`
abbrev due : DispatchStatus → ℕ → ℕ → Event → Bool
due pending now lease e = not_before e.next_attempt_at now
due retry now lease e = not_before e.next_attempt_at now
due dispatching now lease e = stale e.last_attempt_at now lease
due _ now lease e = false

pub due_filter : ℕ → ℕ → Event → Bool
due_filter now lease e = due e.dispatch_status now lease e

-- `p` is an earlier event of the execution of `e`
abbrev pub precedes : Event → Event → Bool
precedes p e = p.execution_id == e.execution_id && ltb p.event_version e.event_version

-- `_has_undelivered_predecessor`
pub has_undelivered_predecessor : List Event → Event → Bool
has_undelivered_predecessor table e = any (λ p. precedes p e && is_active p.dispatch_status) table

-- the columns that `_claim_event` updates
pub claimed : ℕ → Event → Event
claimed now e = record e {
  dispatch_status = dispatching;
  attempt_count = e.attempt_count + 1;
  last_attempt_at = some now;
  next_attempt_at = none;
}

-- `_next_attempt_at`
pub delay_after : ℕ → ℕ
delay_after attempt_count =
    let delay = 60 * 2 ^ (attempt_count - 1) in if leb delay 3600 then delay else 3600

pub next_attempt_at : ℕ → ℕ → ℕ
next_attempt_at now attempt_count = now + seconds (delay_after attempt_count)

-- the `except` branch, with the text of the exception
pub failed_delivery : ℕ → ℕ → String → Event → Event
failed_delivery now max_attempts message e =
    let status = if leb max_attempts e.attempt_count then failed else retry in
    record e {
      last_error = some message;
      dispatch_status = status;
      next_attempt_at = some (next_attempt_at now e.attempt_count);
      apply_result = some status;
    }

-- the `else` branch
pub successful_delivery : ℕ → Event → Event
successful_delivery now e = record e {
  dispatch_status = delivered;
  applied_at = some now;
  apply_result = some delivered;
  next_attempt_at = none;
  last_error = none;
}

-- `200 <= status_code < 300`
abbrev pub is_success : ℕ → Bool
is_success code = leb 200 code && ltb code 300

-- what follows an answer
pub delivery_outcome : ℕ → ℕ → Result ℕ → Event → Event
delivery_outcome now max_attempts (err x) e = failed_delivery now max_attempts x.code e
delivery_outcome now max_attempts (ok code) e =
    if is_success code
    then successful_delivery now e
    else failed_delivery now max_attempts (append "Callback endpoint returned HTTP " (show code)) e

module _ ⦃ctx : Context⦄ where
  -- the metadata of `_refresh_delivery_signature`
  refreshed_metadata : ℕ → Event → Result (String × String × String)
  refreshed_metadata now e = do
    signing_key e.consumer
    endpoint ← require_endpoint_configured e.consumer e.callback_endpoint_id
    signed_callback_metadata e.consumer endpoint (ctx.dumps e.payload) now e.event_id

  signed_with : ℕ → String × String × String → Event → Event
  signed_with timestamp (key_id, base, signature) e = record e {
    signature_key_id = key_id;
    signature_base = base;
    signature = signature;
    signature_timestamp = timestamp;
  }

  attempt : ℕ → ℕ → ℕ → (Event → Result ℕ) → Result (String × String × String) → Event → Event
  attempt timestamp now max_attempts deliver (err x) e = failed_delivery now max_attempts x.code e
  attempt timestamp now max_attempts deliver (ok metadata) e =
      let signed = signed_with timestamp metadata e in
      delivery_outcome now max_attempts (deliver signed) signed

  -- one claimed event: a new signature, the request and its outcome. The time of the signature is
  -- `now` in whole seconds.
  pub deliver_event : ℕ → ℕ → (Event → Result ℕ) → Event → Event
  unfolding refreshed_metadata
  deliver_event now max_attempts deliver e =
      let timestamp = now / 1000000 in
      attempt timestamp now max_attempts deliver (refreshed_metadata timestamp e) e

  pub dispatch_event_row : ℕ → ℕ → ℕ → (Event → Result ℕ) → List Event → String → Event → Event
  dispatch_event_row now lease max_attempts deliver table id e =
      if str_eq e.event_id id && due_filter now lease e && not (has_undelivered_predecessor table e)
      then deliver_event now max_attempts deliver (claimed now e)
      else e

  -- one turn of the loop of `dispatch_due_events`, for the event with this id
  pub dispatch_event : ℕ → ℕ → ℕ → (Event → Result ℕ) → String → List Event → List Event
  dispatch_event now lease max_attempts deliver id table =
      map (dispatch_event_row now lease max_attempts deliver table id) table

  -- the ids of the query: at most `batch_size` events that are due, in the order of the table
  due_ids : ℕ → ℕ → ℕ → List Event → List String
  due_ids now lease zero table = []
  due_ids now lease (suc batch_size) [] = []
  due_ids now lease (suc batch_size) (e ∷ table) =
      let taken = due_ids now lease batch_size table in
      let left = due_ids now lease (suc batch_size) table in
      if due_filter now lease e then e.event_id ∷ taken else left

  dispatch_ids : ℕ → ℕ → ℕ → (Event → Result ℕ) → List String → List Event → List Event
  dispatch_ids now lease max_attempts deliver [] table = table
  dispatch_ids now lease max_attempts deliver (id ∷ ids) table =
      dispatch_ids now lease max_attempts deliver ids
        (dispatch_event now lease max_attempts deliver id table)

  -- `dispatch_due_events`: the table of events after it
  pub dispatch_due_events : ℕ → ℕ → ℕ → ℕ → (Event → Result ℕ) → List Event → List Event
  dispatch_due_events batch_size now lease max_attempts deliver table =
      dispatch_ids now lease max_attempts deliver (due_ids now lease batch_size table) table
