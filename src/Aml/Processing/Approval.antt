-- ===== src/Aml/Processing/Approval.antt =====
-- An open check is approved by an answer of the sidecar alone.
use shkeeper_io.Prelude.{◌≡◌, ◌⊎◌, some}
use shkeeper_io.Prelude.Json.{Fields}
use shkeeper_io.Errors.{Result, ok, err}
use shkeeper_io.Context.{Context}
use shkeeper_io.Aml.Check.{Library, approved}
use shkeeper_io.Aml.Client.{request_result}
use shkeeper_io.Aml.Policy.Decide.Approves.{IsClear}
use shkeeper_io.Aml.Processing.{Sidecar, Row, Check, polled, result_of, payload_for_sidecar}

module _ ⦃ctx : Context⦄ ⦃lib : Library⦄ where
  -- the two answers that a step may have read: to the submission, or to the poll
  abbrev pub answered_post : Sidecar → Row → Check → Fields
  answered_post sidecar tx c = result_of (request_result (sidecar.post (payload_for_sidecar tx c)))

  -- the check was approved by this answer
  abbrev ApprovedBy : Fields → Result Check → Type 0
  ApprovedBy fs (ok c) = c.status ≡ approved → (n : lib.Number) × IsClear fs n
  ApprovedBy fs (err e) = Unit

  -- a check was approved by the answer to its submission, or to the poll for it
  abbrev pub ByAnswer : Sidecar → Row → Check → Result Check → Type 0
  ByAnswer sidecar tx c (ok d) =
      d.status ≡ approved
      → (fs : Fields) × (n : lib.Number) × ((fs ≡ answered_post sidecar tx c)
          ⊎ (fs ≡ polled sidecar c))
        × IsClear fs n
  ByAnswer sidecar tx c (err e) = Unit

  -- a step that approves a row's check
  Approves : Sidecar → Row → Check → Result Row → Type 0
  Approves sidecar tx c (ok row) =
      (d : Check)
      → row.aml_check ≡ some d
      → d.status ≡ approved
      → (fs : Fields) × (n : lib.Number) × ((fs ≡ answered_post sidecar tx c)
          ⊎ (fs ≡ polled sidecar c))
        × IsClear fs n
  Approves sidecar tx c (err e) = Unit
