-- ===== src/Payout/Sidecar/Tests.antt =====
-- A report of the sidecar on a concrete row.
use shkeeper_io.Prelude.{some}
use shkeeper_io.Prelude.Json.{num, text, Fields, end, field}
use shkeeper_io.Payout.States.{enqueued}
use shkeeper_io.Payout.Row.{Session}
use shkeeper_io.Payout.Sidecar.{apply_sidecar_status}
use shkeeper_io.Payout.Sidecar.Branches.{NotBehind, sidecar_version_monotone}
use shkeeper_io.Payout.Fixtures.{context, env, session_in}

abbrev status : Fields
status = field "consumer" (text "shop") (
    field "execution_id" (num 1) (
      field "external_id" (text "order-1") (
        field "sidecar_state" (text "BROADCASTED") (
          field "sidecar_state_version" (num 4) (
            field "sidecar_state_transition_id" (text "s-4")
              (field "sidecar_state_updated_at" (text "2026-01-01T00:00:00") end))))))

abbrev known : Session
known = record (session_in enqueued) {
  execution = record ((session_in enqueued).execution) { sidecar_state_version = some 3 };
}

sidecar_version_monotone_example :
    NotBehind (some 3) (apply_sidecar_status env known status).1.execution.sidecar_state_version
sidecar_version_monotone_example = sidecar_version_monotone env known status
