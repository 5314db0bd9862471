-- ===== src/Event/OsQueue/Pending.antt =====
-- The events that a ring holds, oldest first.
use whoa.Base.{
  ℕ, zero, suc, ◌+◌, ◌-◌, ◌%◌, ◌<◌, ◌≤◌, ◌≡◌, refl, ap, ◌∙◌, arith, List, [], ◌∷◌, ◌++◌, length,
  get_or, set, get_or-set_ne, ◌≢◌,
}
use whoa.Event.Types.{OsEvent}
use whoa.Event.OsQueue.{OsQueue, zero_event}

-- The n events from place `at` on, round the ring.
unfoldable pub window : List OsEvent → ℕ → ℕ → List OsEvent
window events at zero = []
window events at (suc n) = get_or events at zero_event ∷ window events ((at + 1) % 32) n

abbrev pub count : OsQueue → ℕ
count q = (q.head + 32 - q.tail) % 32

unfoldable pub pending : OsQueue → List OsEvent
unfolding window
pending q = window q.events q.tail (count q)

-- The places are in the ring.
pub record IsValid (q : OsQueue) : Type 0 where
  pub storage : length q.events ≡ 32
  pub head_in : q.head < 32
  pub tail_in : q.tail < 32

-- A write outside of a window leaves it.
pub window-set_outside :
    (events : List OsEvent) (at n i : ℕ) (e : OsEvent)
    → at < 32
    → i < 32
    → n ≤ (i + 32 - at) % 32
    → window (set events i e) at n ≡ window events at n
unfolding window
window-set_outside events at zero i e ha hi out = refl
window-set_outside events at (suc n) i e ha hi out =
    let apart : i ≢ at = λ same. absurd (omega arith) in
    rw (
      get_or-set_ne events i at e zero_event apart,
      window-set_outside events ((at + 1) % 32) n i e (omega arith) hi (omega arith),
    )

-- A window grows at its end.
pub window-suc :
    (events : List OsEvent) (at n : ℕ)
    → at < 32
    → window events at (suc n)
      ≡ window events at n ++ (get_or events ((at + n) % 32) zero_event ∷ [])
unfolding window
window-suc events at zero ha = ap (λ i. get_or events i zero_event ∷ []) (omega arith)
window-suc events at (suc n) ha = ap (◌∷◌ (get_or events at zero_event)) (
    window-suc events ((at + 1) % 32) n (omega arith)
    ∙ ap (λ i. window events ((at + 1) % 32) n ++ (get_or events i zero_event ∷ [])) (omega arith))

pub length-window : (events : List OsEvent) (at n : ℕ) → length (window events at n) ≡ n
unfolding window
length-window events at zero = refl
length-window events at (suc n) = ap suc (length-window events ((at + 1) % 32) n)
