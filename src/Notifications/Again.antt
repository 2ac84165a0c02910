-- ===== src/Notifications/Again.antt =====
-- Queueing the same event again.
use cloud_ward.Prelude.{
  ℕ, ◌≡◌, ◌==◌, ◌&&◌, refl, sym, subst, ◌∙◌, inl, inr, Bool-cases, ==_iff, String, Bool, true,
  false, Option, none, some, List, [], ◌∷◌, str_eq, eq_iff, find, arith,
}
use cloud_ward.Notifications.Outbox.{
  Notification, NotificationMessage, Outbox, publish, has_dedupe_key, queue_unless, queue_one,
  queue,
}

publish-notifications :
    (reply : Option Bool) (id : ℕ) (o : Outbox)
    → (publish reply id o).notifications ≡ o.notifications
publish-notifications none id o = refl
publish-notifications (some true) id o = refl
publish-notifications (some false) id o = refl

key-known :
    (channel : String) (key : ℕ) (m : Notification)
    → has_dedupe_key channel key m ≡ true
    → (m.channel ≡ channel) × (m.dedupe_key ≡ key)
key-known channel key m hit = ground (arith, eq_iff m.channel channel, ==_iff m.dedupe_key key)

key-own : (channel : String) (key : ℕ) → (str_eq channel channel && key == key) ≡ true
key-own channel key = rw ((eq_iff channel channel).1 refl, (==_iff key key).1 refl) refl

-- A row in front that has another key hides nothing.
find-behind :
    (channel other : String) (key other_key : ℕ) (m n : Notification) (ns : List Notification)
    → m.channel ≡ other
    → m.dedupe_key ≡ other_key
    → find (has_dedupe_key channel key) ns ≡ some n
    → find (has_dedupe_key other other_key) ns ≡ none
    → find (has_dedupe_key channel key) (m ∷ ns) ≡ some n
unfolding find
find-behind channel other key other_key m n ns at_other with_key h k =
    elim (Bool-cases (has_dedupe_key channel key m)) [
      | inl hit ↦
          let (c, d) = key-known channel key m hit in
          let same : find (has_dedupe_key other other_key) ns ≡ some n =
            subst (λ c. find (has_dedupe_key c other_key) ns ≡ some n) (sym c ∙ at_other)
              (subst (λ d. find (has_dedupe_key channel d) ns ≡ some n) (sym d ∙ with_key) h) in
          cc
      | inr miss ↦ rw miss h
    ]

module _ (digest : String → NotificationMessage → String → ℕ) (reference : String → String)
    (publisher : Option Bool) (max_attempts : ℕ) where
  abbrev again_one : String → NotificationMessage → String → Outbox → Notification × Outbox
  again_one event_type message channel o =
      queue_one digest reference publisher max_attempts event_type message channel o

  -- A row with a key stays the first one with it, when another event is queued.
  unless-keeps :
      (channel : String) (key : ℕ) (n : Notification) (found : Option Notification)
      (event_type : String) (message : NotificationMessage) (other : String) (o : Outbox)
      → find (has_dedupe_key channel key) o.notifications ≡ some n
      → find (has_dedupe_key other (digest event_type message other)) o.notifications ≡ found
      → let r =
          queue_unless digest reference publisher max_attempts found event_type message other o in
        find (has_dedupe_key channel key) r.1.notifications ≡ some n
  unless-keeps channel key n (some existing) event_type message other o h k = h
  unless-keeps channel key n none event_type message other o h k =
      rw (publish-notifications publisher o.next_id _) (
        find-behind channel other key (digest event_type message other) _ n o.notifications refl
          refl h k)

  queue-keeps :
      (channel : String) (key : ℕ) (n : Notification) (event_type : String)
      (message : NotificationMessage) (channels : List String) (o : Outbox)
      → find (has_dedupe_key channel key) o.notifications ≡ some n
      → find
          (has_dedupe_key channel key)
          (queue digest reference publisher max_attempts event_type message channels
            o).1.notifications
        ≡ some n
  unfolding queue queue_one
  queue-keeps channel key n event_type message [] o h = h
  queue-keeps channel key n event_type message (other ∷ rest) o h =
      queue-keeps channel key n event_type message rest _
        (unless-keeps channel key n _ event_type message other o h refl)

  -- What was queued is found.
  unless-found :
      (found : Option Notification) (event_type : String) (message : NotificationMessage)
      (channel : String) (o : Outbox)
      → find (has_dedupe_key channel (digest event_type message channel)) o.notifications ≡ found
      → let r =
          queue_unless digest reference publisher max_attempts found event_type message channel o in
        find (has_dedupe_key channel (digest event_type message channel)) r.1.notifications
        ≡ some r.0
  unfolding find
  unless-found (some existing) event_type message channel o h = h
  unless-found none event_type message channel o h =
      rw (publish-notifications publisher o.next_id _)
        (rw (key-own channel (digest event_type message channel)) refl)

  one-found :
      (event_type : String) (message : NotificationMessage) (channel : String) (o : Outbox)
      → let r = again_one event_type message channel o in
        find (has_dedupe_key channel (digest event_type message channel)) r.1.notifications
        ≡ some r.0
  unfolding queue_one
  one-found event_type message channel o = unless-found _ event_type message channel o refl

  queued_known :
      (event_type : String) (message : NotificationMessage) (channel : String) (n : Notification)
      (o : Outbox)
      → find (has_dedupe_key channel (digest event_type message channel)) o.notifications ≡ some n
      → again_one event_type message channel o ≡ (n, o)
  unfolding queue_one
  queued_known event_type message channel n o h = rw h refl

  -- An event that is queued again for the same incident, state and channels finds every row that
  -- the first call has returned: it returns the same rows, adds none, and writes nothing.
  pub queue-again :
      (event_type : String) (message : NotificationMessage) (channels : List String) (o : Outbox)
      → let r = queue digest reference publisher max_attempts event_type message channels o in
        queue digest reference publisher max_attempts event_type message channels r.1 ≡ r
  unfolding queue
  queue-again event_type message [] o = refl
  queue-again event_type message (channel ∷ rest) o =
      let p = again_one event_type message channel o in
      let q = queue digest reference publisher max_attempts event_type message rest p.1 in
      let known =
        queue-keeps channel (digest event_type message channel) p.0 event_type message rest p.1
          (one-found event_type message channel o) in
      rw
        (
          queued_known event_type message channel p.0 q.1 known,
          queue-again event_type message rest p.1,
        )
        refl
