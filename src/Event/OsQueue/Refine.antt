-- ===== src/Event/OsQueue/Refine.antt =====
-- The ring is a queue of at most 31 events that forgets the oldest when it is full.
use whoa.Base.{
  ℕ, zero, suc, ◌+◌, ◌-◌, ◌%◌, ◌<◌, ◌≡◌, refl, ap, ◌∙◌, arith, List, [], ◌∷◌, ◌++◌, length, drop,
  get_or, set, length-set, get_or-set_self, ◌≢◌, Option, none, some, if◌then◌else◌, ◌==◌,
  Bool-cases, inl, inr,
}
use whoa.Event.Types.{OsEvent}
use whoa.Event.OsQueue.{OsQueue, zero_event, os_queue_get, os_queue_put}
use whoa.Event.OsQueue.Pending.{
  window, count, pending, IsValid, window-set_outside, window-suc, length-window,
}

-- What putting an event into a full queue does to the ones that wait.
pub bounded_push : OsEvent → List OsEvent → List OsEvent
bounded_push e xs = (if length xs == 31 then drop 1 xs else xs) ++ (e ∷ [])

window-put :
    (events : List OsEvent) (at n i : ℕ) (e : OsEvent)
    → length events ≡ 32
    → at < 32
    → n < 32
    → i ≡ (at + n) % 32
    → window (set events i e) at (suc n) ≡ window events at n ++ (e ∷ [])
window-put events at n i e hl ha hn hi =
    window-suc (set events i e) at n ha
    ∙ rw (
      window-set_outside events at n i e ha (omega arith) (omega arith),
      ← hi,
      get_or-set_self events i e zero_event (omega arith),
    )

head-os_queue_put :
    (e : OsEvent) (q : OsQueue) → IsValid q → (os_queue_put e q).head ≡ (q.head + 1) % 32
unfolding os_queue_put
head-os_queue_put e q v = ground arith

tail-os_queue_put :
    (e : OsEvent) (q : OsQueue)
    → IsValid q
    → (os_queue_put e q).tail ≡ (if count q == 31 then (q.tail + 1) % 32 else q.tail)
unfolding os_queue_put
tail-os_queue_put e q v = ground arith

events-os_queue_put :
    (e : OsEvent) (q : OsQueue) → (os_queue_put e q).events ≡ set q.events q.head e
unfolding os_queue_put
events-os_queue_put e q = refl

length-pending : (q : OsQueue) → length (pending q) ≡ count q
unfolding pending
length-pending q = length-window q.events q.tail (count q)

pending-31 :
    (q : OsQueue) → count q ≡ 31 → drop 1 (pending q) ≡ window q.events ((q.tail + 1) % 32) 30
unfolding pending window
pending-31 q e = rw e

pending_append :
    (e : OsEvent) (q : OsQueue)
    → window q.events q.tail (count q) ++ (e ∷ []) ≡ pending q ++ (e ∷ [])
unfolding pending
pending_append e q = refl

-- Putting an event keeps the places in the ring.
pub os_queue_put-IsValid : (e : OsEvent) (q : OsQueue) → IsValid q → IsValid (os_queue_put e q)
os_queue_put-IsValid e q v = record {
  storage = ap length (events-os_queue_put e q) ∙ length-set q.events q.head e ∙ v.storage;
  head_in = omega (arith, head-os_queue_put e q v);
  tail_in = ground (arith, tail-os_queue_put e q v);
}

pending-put :
    (e : OsEvent) (q : OsQueue) (at n : ℕ)
    → IsValid q
    → (os_queue_put e q).tail ≡ at
    → at < 32
    → n < 32
    → ((q.head + 1) % 32 + 32 - at) % 32 ≡ suc n
    → q.head ≡ (at + n) % 32
    → pending (os_queue_put e q) ≡ window q.events at n ++ (e ∷ [])
unfolding pending
pending-put e q at n v ht ha hn hc hh =
    rw (events-os_queue_put e q, head-os_queue_put e q v, ht, hc)
      (window-put q.events at n q.head e v.storage ha hn hh)

-- It adds the event at the end, and drops the oldest exactly when 31 are waiting.
pub pending-os_queue_put :
    (e : OsEvent) (q : OsQueue)
    → IsValid q
    → pending (os_queue_put e q) ≡ bounded_push e (pending q)
unfolding bounded_push
pending-os_queue_put e q v = elim (Bool-cases (count q == 31)) [
  | inl full ↦
      rw (length-pending q, full)
        (pending-put e q ((q.tail + 1) % 32) 30 v (tail-os_queue_put e q v ∙ rw full refl)
            (omega arith) (omega arith) (ground arith) (ground arith)
          ∙ rw (pending-31 q (ground arith)) refl)
  | inr room ↦
      rw (length-pending q, room)
        (pending-put e q q.tail (count q) v (tail-os_queue_put e q v ∙ rw room refl) v.tail_in
            (omega arith) (ground arith) (ground arith)
          ∙ pending_append e q)
]

window_pos :
    (events : List OsEvent) (at n : ℕ)
    → n ≢ 0
    → window events at n ≡ get_or events at zero_event ∷ window events ((at + 1) % 32) (n - 1)
unfolding window
window_pos events at zero h = absurd (h refl)
window_pos events at (suc n) h =
    ap (λ k. get_or events at zero_event ∷ window events ((at + 1) % 32) k) (omega arith)

-- The queue without its oldest event.
after_get : OsQueue → OsQueue
after_get q = record q { tail = (q.tail + 1) % 32 }

pending_nonempty :
    (q : OsQueue)
    → IsValid q
    → count q ≢ 0
    → pending q ≡ get_or q.events q.tail zero_event ∷ pending (after_get q)
unfolding pending after_get
pending_nonempty q v h =
    window_pos q.events q.tail (count q) h
    ∙ ap (λ k. get_or q.events q.tail zero_event ∷ window q.events ((q.tail + 1) % 32) k)
        (omega arith)

pub pending_none : (q : OsQueue) → count q ≡ 0 → pending q ≡ []
unfolding pending window
pending_none q h = rw h

-- What `os_queue_get` returns on a ring that holds these events.
abbrev pub Takes : List OsEvent → Option (OsEvent × OsQueue) → Type 0
Takes [] r = r ≡ none
Takes (e ∷ es) r = (q : OsQueue) × (r ≡ some (e, q)) × (pending q ≡ es) × IsValid q

-- Nothing is taken from an empty ring; otherwise the oldest event is, the others stay in order, and
-- the places stay in the ring.
pub os_queue_get-Takes : (q : OsQueue) → IsValid q → Takes (pending q) (os_queue_get q)
unfolding os_queue_get after_get
os_queue_get-Takes q v = elim (Bool-cases (count q == 0)) [
  | inl none_left ↦ rw (pending_none q (ground arith)) (ground arith)
  | inr some_left ↦
      rw (pending_nonempty q v (ground arith)) (after_get q, ground arith, refl, omega arith)
]
