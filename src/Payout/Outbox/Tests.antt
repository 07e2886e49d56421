-- ===== src/Payout/Outbox/Tests.antt =====
-- A run of the dispatcher over two events.
use shkeeper_io.Prelude.{ℕ, ◌≡◌, refl, true, List, [], ◌∷◌}
use shkeeper_io.Errors.{Result, ok}
use shkeeper_io.Payout.States.{created, preflighted}
use shkeeper_io.Payout.Row.{Event}
use shkeeper_io.Payout.Outbox.{claimed, deliver_event, dispatch_due_events}
use shkeeper_io.Payout.Outbox.Attempt.{IsAttempted, deliver_event-IsAttempted}
use shkeeper_io.Payout.Outbox.Order.{in_order, dispatch-in_order}
use shkeeper_io.Payout.Fixtures.{context, event_of}

abbrev first_event : Event
first_event = event_of created

abbrev outbox : List Event
outbox = first_event ∷ record (event_of preflighted) { event_id = "e-1"; event_version = 2 } ∷ []

abbrev refuses : Event → Result ℕ
refuses e = ok 500

starts_in_order : in_order outbox ≡ true
unfolding in_order
starts_in_order = refl

dispatch-in_order_example : in_order (dispatch_due_events 50 10 120 3 refuses outbox) ≡ true
dispatch-in_order_example = dispatch-in_order 10 120 3 refuses 50 outbox starts_in_order

deliver_event-IsAttempted_example :
    IsAttempted 10 3 first_event (deliver_event 10 3 refuses (claimed 10 first_event))
deliver_event-IsAttempted_example = deliver_event-IsAttempted 10 3 first_event refuses
