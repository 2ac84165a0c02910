-- ===== src/Tests/Notifications.antt =====
-- A notification that Teams refuses twice and then takes.
use cloud_ward.Prelude.{◌≡◌, ◌*◌, String, some, true, none, [], ◌∷◌, List, ℕ, arith}
use cloud_ward.Errors.{kubernetes_api_error}
use cloud_ward.Store.Records.{pending}
use cloud_ward.Notifications.Outbox.{
  NotificationMessage, queue, Notification, Outbox, Reply, reached, refused, deliver_each,
}
use cloud_ward.Notifications.Again.{queue-again}
use cloud_ward.Notifications.Bounded.{IsBounded, count, deliver_each-IsBounded}

abbrev escalation : Notification
escalation = record {
  id = 3;
  incident_id = some 7;
  channel = "teams";
  status = pending;
  destination_reference = "configured";
  event_type = "incident_escalated";
  dedupe_key = 55;
  attempts = 0;
  max_attempts = 2;
  last_error = none;
  next_attempt_at = none;
  delivered_at = none;
}

abbrev waiting : Outbox
waiting = record { notifications = escalation ∷ []; audit = []; sends = []; next_id = 4 }

abbrev replies : List (ℕ × Reply × ℕ)
replies =
    (3, refused kubernetes_api_error 502, 10)
    ∷ (3, refused kubernetes_api_error 502, 20)
    ∷ (3, reached "teams", 30)
    ∷ []

waiting-IsBounded : IsBounded waiting
unfolding count
waiting-IsBounded = ((omega arith, omega arith), tt)

deliver_each-IsBounded_example : IsBounded (deliver_each replies waiting)
deliver_each-IsBounded_example = deliver_each-IsBounded replies waiting waiting-IsBounded

abbrev escalated_message : NotificationMessage
escalated_message = record { incident_id = some 7; current_state = "ESCALATED" }

abbrev some_digest : String → NotificationMessage → String → ℕ
some_digest event_type message channel = elim message.incident_id [ none ↦ 0 | some id ↦ id * 10 ]

queue-again_example :
    let r =
      queue some_digest
        (λ channel. "configured")
        (some true)
        5
        "incident_escalated"
        escalated_message
        ("dashboard" ∷ "teams" ∷ [])
        waiting in
    queue some_digest
      (λ channel. "configured")
      (some true)
      5
      "incident_escalated"
      escalated_message
      ("dashboard" ∷ "teams" ∷ [])
      r.1
    ≡ r
queue-again_example =
    queue-again some_digest (λ channel. "configured") (some true) 5 "incident_escalated"
      escalated_message ("dashboard" ∷ "teams" ∷ []) waiting
