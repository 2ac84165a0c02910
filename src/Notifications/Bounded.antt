-- ===== src/Notifications/Bounded.antt =====
-- How often a notification is sent.
use cloud_ward.Prelude.{
  ℕ, ◌+◌, ◌≡◌, ◌≤◌, ◌==◌, refl, subst, ◌<◌, inl, inr, Bool-cases, Bool, false, Option, none, some,
  List, [], ◌∷◌, leb, find, update_where, arith, if◌then◌else◌,
}
use cloud_ward.Notifications.Outbox.{
  Notification, Reply, reached, refused, Outbox, has_notification_id, save_notification,
  is_registered, started, postponed, delivered, after_reply, attempt_delivery, is_succeeded,
  deliver_found, deliver, deliver_each,
}

-- The calls of a notifier for a notification.
unfoldable pub count : ℕ → List ℕ → ℕ
count id [] = 0
count id (n ∷ ns) = (if n == id then 1 else 0) + count id ns

-- A row has counted its sends, and has not used more attempts than it has.
abbrev pub IsCounted : List ℕ → Notification → Type 0
IsCounted sends n = (count n.id sends ≤ n.attempts) × (n.attempts ≤ n.max_attempts)

abbrev pub AreCounted : List ℕ → List Notification → Type 0
AreCounted sends [] = Unit
AreCounted sends (n ∷ ns) = IsCounted sends n × AreCounted sends ns

abbrev IsCountedIn : List ℕ → Option Notification → Type 0
IsCountedIn sends none = Unit
IsCountedIn sends (some n) = IsCounted sends n

find-AreCounted :
    (p : Notification → Bool) (n : Notification) (sends : List ℕ) (ns : List Notification)
    → AreCounted sends ns
    → find p ns ≡ some n
    → IsCounted sends n
unfolding find
find-AreCounted p n sends [] h k = cc
find-AreCounted p n sends (m ∷ ns) h k = elim (Bool-cases (p m)) [
  | inl hit ↦ subst (λ o. IsCountedIn sends o) (rw hit at k) h.0
  | inr miss ↦ find-AreCounted p n sends ns h.1 (rw miss at k)
]

-- Writing back a row that has counted its sends, where no other one was sent.
update_where-AreCounted :
    (m : Notification) (before after : List ℕ) (ns : List Notification)
    → IsCounted after m
    → ((id : ℕ) → (id == m.id) ≡ false → count id after ≡ count id before)
    → AreCounted before ns
    → AreCounted after (update_where (has_notification_id m.id) (λ _. m) ns)
unfolding update_where
update_where-AreCounted m before after [] h same k = tt
update_where-AreCounted m before after (n ∷ ns) h same (counted, k) =
    let rest = update_where-AreCounted m before after ns h same k in
    elim (Bool-cases (n.id == m.id)) [
      | inl hit ↦ rw hit (h, rest)
      | inr miss ↦ rw miss ((omega (arith, same n.id miss, counted.0), counted.1), rest)
    ]

count_other :
    (id sent : ℕ) (sends : List ℕ) → (id == sent) ≡ false → count id (sent ∷ sends) ≡ count id sends
unfolding count
count_other id sent sends h = ground arith

count_same : (id : ℕ) (sends : List ℕ) → count id (id ∷ sends) ≡ count id sends + 1
unfolding count
count_same id sends = ground arith

-- The outbox has counted all that was sent.
abbrev pub IsBounded : Outbox → Type 0
IsBounded o = AreCounted o.sends o.notifications

after_reply-IsBounded :
    (n : Notification) (reply : Reply) (time : ℕ) (o : Outbox)
    → IsCounted o.sends n
    → IsBounded o
    → IsBounded (after_reply n reply time o).1
unfolding after_reply save_notification postponed
after_reply-IsBounded n (reached destination) time o counted h =
    update_where-AreCounted (delivered destination time n) o.sends o.sends o.notifications counted
      (λ _ _. refl) h
after_reply-IsBounded n (refused code status) time o counted h =
    update_where-AreCounted (postponed code time n) o.sends o.sends o.notifications counted
      (λ _ _. refl) h

attempt_delivery-IsBounded :
    (n : Notification) (reply : Reply) (time : ℕ) (o : Outbox)
    → n.attempts < n.max_attempts
    → IsCounted o.sends n
    → IsBounded o
    → IsBounded (attempt_delivery n reply time o).1
unfolding attempt_delivery save_notification
attempt_delivery-IsBounded n reply time o below counted h =
    let once : IsCounted (n.id ∷ o.sends) (started n) =
      (omega (arith, counted.0, count_same n.id o.sends), omega (arith, below)) in
    elim (Bool-cases (is_registered n.channel)) [
      | inl known ↦ rw known (
          after_reply-IsBounded (started n) reply time _ once (
            update_where-AreCounted (started n) o.sends (n.id ∷ o.sends) o.notifications once
              (λ id other. count_other id n.id o.sends other) h))
      | inr unknown ↦ rw unknown (
          update_where-AreCounted (started n) o.sends o.sends o.notifications
            (omega (arith, counted.0), omega (arith, below)) (λ _ _. refl) h)
    ]

deliver_found-IsBounded :
    (found : Option Notification) (reply : Reply) (time : ℕ) (o : Outbox)
    → IsCountedIn o.sends found
    → IsBounded o
    → IsBounded (deliver_found found reply time o).1
deliver_found-IsBounded none reply time o counted h = h
deliver_found-IsBounded (some n) reply time o counted h =
    elim (Bool-cases (is_succeeded n.status)) [
      | inl done ↦ rw done h
      | inr open_ ↦ elim (Bool-cases (leb n.max_attempts n.attempts)) [
        | inl exhausted ↦ rw (open_, exhausted) h
        | inr remain ↦
            rw (open_, remain)
              (attempt_delivery-IsBounded n reply time o (ground (arith, remain)) counted h)
      ]
    ]

found-IsCountedIn :
    (id : ℕ) (sends : List ℕ) (ns : List Notification) (found : Option Notification)
    → find (has_notification_id id) ns ≡ found
    → AreCounted sends ns
    → IsCountedIn sends found
found-IsCountedIn id sends ns none h k = tt
found-IsCountedIn id sends ns (some n) h k = find-AreCounted (has_notification_id id) n sends ns k h

-- If each notification of the outbox was sent at most as often as it has counted attempts, and has
-- counted at most its maximum, then this is so after any calls of `deliver`, whatever the channels
-- reply: no notification is ever sent more than its maximum of attempts, over all retries.
pub deliver_each-IsBounded :
    (deliveries : List (ℕ × Reply × ℕ)) (o : Outbox)
    → IsBounded o
    → IsBounded (deliver_each deliveries o)
unfolding deliver_each deliver
deliver_each-IsBounded [] o h = h
deliver_each-IsBounded ((id, reply, time) ∷ rest) o h = deliver_each-IsBounded rest _ (
    deliver_found-IsBounded _ reply time o (found-IsCountedIn id o.sends o.notifications _ refl h)
      h)
