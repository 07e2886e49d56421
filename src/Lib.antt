-- ===== src/Lib.antt =====
-- SHKeeper is a cryptocurrency payment processor. This library is about the money that it sends and
-- about the checks on what it receives. In a payout execution a consumer submits a payout, a
-- reconciler hands it to the sidecar of its chain, the sidecar reports how it goes, operators resolve
-- what is in doubt, and each change of state is told to the consumer by a signed callback from an
-- outbox. The older payouts go to a coin's driver in one call. A deposit is checked by an AML
-- provider before the shop is told of it and before it is swept.
--
-- The parts, and how they meet:
--   * Payout/Submit.antt and Payout/Submit/Contract.antt: `submit` and `status` of
--     shkeeper/services/payout_execution_service.py, with shkeeper/services/payout_contract.py.
--     It makes the row and its first event. `submit` takes two tables: the one in which it looks for
--     the row, and the one into which it inserts, so that another request may come between.
--   * Payout/Transition.antt: `PayoutExecutionService.transition`, the only way in which a row changes
--     its state; with the event that is committed with it.
--   * Payout/Callback.antt and Payout/Outbox.antt: shkeeper/services/payout_callback_outbox.py, the
--     writing and the delivery of events.
--   * Payout/Sidecar.antt and Payout/Sidecar/Status.antt: `apply_sidecar_status`.
--   * Payout/Resolution.antt and Payout/Resolution/Evidence.antt: `record_manual_resolution`.
--   * Payout/Reconciler.antt and Payout/Reconciler/Lease.antt:
--     shkeeper/services/payout_execution_reconciler.py, one dispatch and the lease around it.
--     Payout/Reconciler/Lease/Lifetime.antt puts dispatches, reports and resolutions in sequence.
--   * Payout/Rail.antt: shkeeper/services/payout_rail_catalog.py and the rail scope of a key
--     (shkeeper/services/payout_execution_auth.py); Payout/Address.antt:
--     shkeeper/services/payout_address_validation.py.
--   * Sweep.antt: shkeeper/services/sweep_guard_policy.py and shkeeper/services/sweep_eligibility.py,
--     whether the deposits on an address may be swept.
--   * Sweep/Resolve.antt: shkeeper/services/sweep_resolution.py, an operator's resolution of a deposit
--     that a check left in manual review.
--   * Payout/Auth.antt: `verify_request_signature` of shkeeper/services/payout_execution_auth.py.
--     Webhook.antt: shkeeper/services/webhook_hmac.py.
--   * Aml/Coverage.antt, Aml/Policy.antt, Aml/Policy/Decide.antt, Aml/Client.antt and
--     Aml/Processing.antt: shkeeper/services/aml_coverage.py, aml_policy.py, aml_shkeeper_client.py
--     and aml_processing.py. Aml/Check.antt has their tables and what they call of `decimal`,
--     `datetime` and `json`. Aml/Notify.antt: the payment notifications of shkeeper/callback.py,
--     which wait for a check; Aml/Payload.antt: what a notification says of the check.
--     Aml/Processing/Life.antt puts the steps of a check in sequence.
--   * Legacy/Service.antt and Legacy/Service/Multiple.antt:
--     shkeeper/services/payout_service.py, one payout and a list of them. Legacy/Notifier.antt and
--     Legacy/Polls.antt: the payout notifier and the payout polls of shkeeper/callback.py, with
--     `Payout.update_from_task` of shkeeper/models.py.
--   * Invoice.antt, Invoice/Rate.antt and Invoice/Receive.antt: invoices and transactions of
--     shkeeper/models.py, and how `walletnotify` of shkeeper/api_v1.py receives an output.
--   * Payout/States.antt and Payout/Row.antt: the enumerations and tables of shkeeper/models.py.
--   * Prelude.antt, Errors.antt and Context.antt: shared names, texts and their digits, JSON values,
--     exceptions as results, and the libraries that the services call (hashlib, hmac, json, urllib,
--     base64, decimal, ISO dates), which are parameters with no laws.
--
-- A `Session` is one execution as it is committed, with its events and audit rows. A function that
-- commits takes a session and returns the next one; one that raises returns the session before,
-- since the code rolls back. The clock and `uuid.uuid4()` are read from an `Env`. The sidecar client
-- and the HTTP request of a callback are functions from the row to an answer.
--
-- An operation on a table that looks before it inserts takes two tables, what it saw and what it
-- inserts into, so that another request may come between. A loop that commits row by row keeps the
-- rows before an exception.
--
-- Bounds: amounts of payout executions are natural numbers of millionths, times of microseconds;
-- the amounts of AML checks and invoices are of a type that is a parameter with its operations.
-- Numbers in JSON are non-negative integers, and floats by their text. `show` and `to_bytes` run on
-- fuel, one more than the number, which has fewer digits than that. Every other loop is a recursion
-- on a list or a text.
--
-- Not modelled: the texts of errors, and of payment notifications but for their AML part; text
-- beyond ASCII in `strip`, `upper` and `lower`; that a float equals the integer of its value;
-- decimals that are no number in AML scores; the unique constraint on the execution id of a sidecar,
-- which lies across executions; the JSON answers of the API; a worker that is stopped between two
-- commits, and two dispatchers at a time; the making of invoices; HTTP views, coin drivers, exchange
-- rates and metrics.
pub mod Prelude
pub mod Errors
pub mod Context
pub mod Payout
pub mod Sweep
pub mod Webhook
pub mod Aml
pub mod Legacy
pub mod Invoice
