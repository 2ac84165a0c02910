-- ===== src/Notifications/Outbox.antt =====
-- backend/app/notifications/service.py: `NotificationService`. What a channel replies and the time of
-- a delivery are its arguments; the payload of a message is left out.
use cloud_ward.Prelude.{
  ℕ, ◌+◌, ◌*◌, ◌==◌, ◌&&◌, min, zero, suc, String, Bool, true, false, Option, none, some, List, [],
  ◌∷◌, str_eq, has_text, find, update_where, leb, if◌then◌else◌,
}
use cloud_ward.Errors.{
  ErrorCode, Result, ok, err, cloud_ward_error, notification_not_found,
  notification_retries_exhausted, notifier_unknown,
}
use cloud_ward.Store.Records.{RecordStatus, pending, running, succeeded, failed}

pub record Notification : Type 0 where
  pub id : ℕ
  pub incident_id : Option ℕ
  pub channel : String
  pub status : RecordStatus
  pub destination_reference : String
  pub event_type : String
  pub dedupe_key : ℕ
  pub attempts : ℕ
  pub max_attempts : ℕ
  pub last_error : Option ErrorCode
  pub next_attempt_at : Option ℕ
  pub delivered_at : Option ℕ

-- backend/app/notifications/notifiers.py: `NotificationMessage`, as far as `queue` reads it. The state
-- is a text: a message may be about no incident.
pub record NotificationMessage : Type 0 where
  pub incident_id : Option ℕ
  pub current_state : String

-- The reply of a notifier: the destination that it has reached, or its CloudWardError.
pub data Reply : Type 0 where
  reached : String → Reply
  refused : ErrorCode → ℕ → Reply

-- The table, the newest row first; the audit rows, by their event and notification; and the calls
-- of a notifier, by the notification.
pub record Outbox : Type 0 where
  pub notifications : List Notification
  pub audit : List (String × ℕ)
  pub sends : List ℕ
  pub next_id : ℕ

abbrev pub has_notification_id : ℕ → Notification → Bool
has_notification_id id n = n.id == id

-- Writing back the row that was changed in hand.
unfoldable pub save_notification : Notification → Outbox → Outbox
save_notification n o = record o {
  notifications = update_where (has_notification_id n.id) (λ _. n) o.notifications;
}

abbrev pub add_audit : String → ℕ → Outbox → Outbox
add_audit event id o = record o { audit = (event, id) ∷ o.audit }

-- `2 ** n`
unfoldable pub power_of_two : ℕ → ℕ
power_of_two zero = 1
power_of_two (suc n) = 2 * power_of_two n

-- `_notifier`, as a test of the channel.
abbrev pub is_registered : String → Bool
is_registered channel = has_text channel ("dashboard" ∷ "teams" ∷ "github_issue" ∷ [])

abbrev pub failure_event : String → String
failure_event channel =
    if str_eq channel "teams" then "TEAMS_NOTIFICATION_FAILED" else "NOTIFICATION_FAILED"

abbrev pub success_event : String → String
success_event channel =
    if str_eq channel "teams" then "TEAMS_NOTIFICATION_SENT" else "NOTIFICATION_SENT"

-- The row while it is delivered.
abbrev pub started : Notification → Notification
started n = record n { status = running; attempts = n.attempts + 1 }

-- The row after a failure of its notifier; the next attempt waits for up to 300 seconds.
unfoldable pub postponed : ErrorCode → ℕ → Notification → Notification
postponed code time n = record n {
  status = if leb n.max_attempts n.attempts then failed else pending;
  last_error = some code;
  next_attempt_at = some (time + min (power_of_two n.attempts) 300);
}

abbrev pub delivered : String → ℕ → Notification → Notification
delivered destination time n = record n {
  status = succeeded;
  destination_reference = destination;
  last_error = none;
  next_attempt_at = none;
  delivered_at = some time;
}

-- The call of the notifier has been made.
unfoldable pub after_reply : Notification → Reply → ℕ → Outbox → Result Notification × Outbox
after_reply n (reached destination) time o =
    let m = delivered destination time n in
    (ok m, add_audit (success_event n.channel) n.id (save_notification m o))
after_reply n (refused code status) time o =
    let m = postponed code time n in
    (
      err (cloud_ward_error code status),
      add_audit (failure_event n.channel) n.id (save_notification m o),
    )

-- The attempt on a row that may be delivered. An unknown channel raises after the attempt is
-- counted and before a notifier is called.
unfoldable pub attempt_delivery : Notification → Reply → ℕ → Outbox → Result Notification × Outbox
attempt_delivery n reply time o =
    let m = started n in
    let p = save_notification m o in
    if is_registered n.channel
    then after_reply m reply time (record p { sends = n.id ∷ p.sends })
    else (err (cloud_ward_error notifier_unknown 422), p)

abbrev pub is_succeeded : RecordStatus → Bool
is_succeeded succeeded = true
is_succeeded _ = false

abbrev pub deliver_found : Option Notification → Reply → ℕ → Outbox → Result Notification × Outbox
deliver_found none reply time o = (err (cloud_ward_error notification_not_found 404), o)
deliver_found (some n) reply time o =
    if is_succeeded n.status
    then (ok n, o)
    else if leb n.max_attempts n.attempts
    then (err (cloud_ward_error notification_retries_exhausted 409), o)
    else attempt_delivery n reply time o

-- `deliver`
unfoldable pub deliver : ℕ → Reply → ℕ → Outbox → Result Notification × Outbox
deliver id reply time o = deliver_found (find (has_notification_id id) o.notifications) reply time o

-- Any calls of `deliver`, each with its reply and its time; an error ends only its own call.
unfoldable pub deliver_each : List (ℕ × Reply × ℕ) → Outbox → Outbox
deliver_each [] o = o
deliver_each ((id, reply, time) ∷ rest) o = deliver_each rest (deliver id reply time o).1

-- Whether a publisher takes the task: `none` without a publisher, `some false` if it raises.
abbrev pub publish : Option Bool → ℕ → Outbox → Outbox
publish (some false) id o = add_audit "NOTIFICATION_DISPATCH_DEFERRED" id o
publish _ id o = o

abbrev pub has_dedupe_key : String → ℕ → Notification → Bool
has_dedupe_key channel key n = str_eq n.channel channel && n.dedupe_key == key

-- The hash behind the keys, and the reference of a channel's destination.
module _ (digest : String → NotificationMessage → String → ℕ) (reference : String → String)
    (publisher : Option Bool) (max_attempts : ℕ) where
  abbrev pub new_notification : ℕ → String → NotificationMessage → String → Notification
  new_notification id event_type message channel = record {
    id = id;
    incident_id = message.incident_id;
    channel = channel;
    status = pending;
    destination_reference = reference channel;
    event_type = event_type;
    dedupe_key = digest event_type message channel;
    attempts = 0;
    max_attempts = max_attempts;
    last_error = none;
    next_attempt_at = none;
    delivered_at = none;
  }

  abbrev pub queue_unless :
      Option Notification → String → NotificationMessage → String → Outbox → Notification × Outbox
  queue_unless (some existing) event_type message channel o = (existing, o)
  queue_unless none event_type message channel o =
      let n = new_notification o.next_id event_type message channel in
      (
        n,
        publish publisher n.id (
            add_audit "NOTIFICATION_QUEUED" n.id
              (record o { notifications = n ∷ o.notifications; next_id = o.next_id + 1 })),
      )

  unfoldable pub queue_one : String → NotificationMessage → String → Outbox → Notification × Outbox
  queue_one event_type message channel o =
      let key = digest event_type message channel in
      queue_unless (find (has_dedupe_key channel key) o.notifications) event_type message channel o

  -- `queue`
  unfoldable pub queue :
      String → NotificationMessage → List String → Outbox → List Notification × Outbox
  queue event_type message [] o = ([], o)
  queue event_type message (channel ∷ rest) o =
      let (n, p) = queue_one event_type message channel o in
      let (ns, q) = queue event_type message rest p in (n ∷ ns, q)
