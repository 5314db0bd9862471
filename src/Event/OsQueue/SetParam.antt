-- ===== src/Event/OsQueue/SetParam.antt =====
-- OsQueueSetParam writes one parameter of every waiting event.
use whoa.Base.{
  ℕ, zero, suc, ◌+◌, ◌-◌, ◌%◌, ◌<◌, ◌≤◌, ◌≡◌, refl, ◌∙◌, arith, length, get_or, set, length-set,
  get_or-set_self, get_or-set_ne, ◌≢◌, map, some, if◌then◌else◌, ◌==◌, ltb, true, false,
}
use whoa.Base.Int.{ℤ}
use whoa.Event.OsQueue.{OsQueue, zero_event, set_param_from, os_queue_set_param, with_param}
use whoa.Event.OsQueue.Pending.{window, count, pending, IsValid, window-set_outside}

-- The queue with parameter `index` of the event at `at` written.
abbrev written : ℕ → ℤ → ℕ → OsQueue → OsQueue
written index v at q = record q {
  events = set q.events at (with_param index v (get_or q.events at zero_event));
}

-- The state of a run of `set_param_from` from `at`, with n events to go.
record SetFrom (index : ℕ) (v : ℤ) (at n : ℕ) (q q' : OsQueue) : Type 0 where
  head : q'.head ≡ q.head
  tail : q'.tail ≡ q.tail
  storage : length q'.events ≡ 32
  done : window q'.events at n ≡ map (with_param index v) (window q.events at n)
  kept :
      (j : ℕ)
      → j < 32
      → n ≤ (j + 32 - at) % 32
      → get_or q'.events j zero_event ≡ get_or q.events j zero_event

set_param_step :
    (fuel index : ℕ) (v : ℤ) (at : ℕ) (q : OsQueue)
    → at < 32
    → at ≢ q.head
    → index < 4
    → set_param_from (suc fuel) index v at q
      ≡ set_param_from fuel index v ((at + 1) % 32) (written index v at q)
unfolding set_param_from
set_param_step fuel index v at q ha ne hi =
    let next : (if at == 31 then 0 else at + 1) ≡ (at + 1) % 32 = ground arith in
    let further : (at == q.head) ≡ false = ground arith in
    let inside : ltb index 4 ≡ true = ground arith in
    rw (set_param_from, further, inside, next) refl

SetFrom-suc :
    (index : ℕ) (v : ℤ) (at n : ℕ) (q q' : OsQueue)
    → IsValid q
    → at < 32
    → n < 31
    → SetFrom index v ((at + 1) % 32) n (written index v at q) q'
    → SetFrom index v at (suc n) q q'
unfolding window
SetFrom-suc index v at n q q' valid ha hn f =
    let e = with_param index v (get_or q.events at zero_event) in
    record {
      head = f.head;
      tail = f.tail;
      storage = f.storage;
      done = rw (
        f.kept at ha (omega arith),
        get_or-set_self q.events at e zero_event (omega (arith, valid.storage)),
        f.done,
        window-set_outside q.events ((at + 1) % 32) n at e (omega arith) ha (omega arith),
      );
      kept = λ j hj out.
          f.kept j hj (omega arith) ∙ get_or-set_ne q.events at j e zero_event (omega arith);
    }

set_param_from-SetFrom :
    (fuel index : ℕ) (v : ℤ) (at n : ℕ) (q : OsQueue)
    → IsValid q
    → at < 32
    → (q.head + 32 - at) % 32 ≡ n
    → n < fuel
    → index < 4
    → (q' : OsQueue) × (set_param_from fuel index v at q ≡ some q') × SetFrom index v at n q q'
unfolding set_param_from window
set_param_from-SetFrom zero index v at n q valid ha hn hf hi = absurd (omega arith)
set_param_from-SetFrom (suc fuel) index v at zero q valid ha hn hf hi = (
  q,
  ground arith,
  record {
    head = refl;
    tail = refl;
    storage = valid.storage;
    done = refl;
    kept = λ j hj out. refl;
  },
)
set_param_from-SetFrom (suc fuel) index v at (suc n) q valid ha hn hf hi =
    let (q', run, f) =
      set_param_from-SetFrom fuel index v ((at + 1) % 32) n (written index v at q)
        (record {
          storage = length-set q.events at _ ∙ valid.storage;
          head_in = valid.head_in;
          tail_in = valid.tail_in;
        })
        (omega arith) (omega arith) (omega arith) hi in
    (
      q',
      set_param_step fuel index v at q ha (omega arith) hi ∙ run,
      SetFrom-suc index v at n q q' valid ha (omega arith) f,
    )

-- On a ring whose places are in range, and for one of the four parameters, the loop ends within its
-- 32 rounds; it writes the parameter of each waiting event, and neither the number nor the order of them changes.
pub os_queue_set_param_lem :
    (index : ℕ) (v : ℤ) (q : OsQueue)
    → IsValid q
    → index < 4
    → (q' : OsQueue) × (os_queue_set_param index v q ≡ some q')
      × IsValid q'
      × (pending q' ≡ map (with_param index v) (pending q))
unfolding os_queue_set_param pending
os_queue_set_param_lem index v q valid hi =
    let (q', run, f) =
      set_param_from-SetFrom 32 index v q.tail (count q) q valid valid.tail_in refl (omega arith)
        hi in
    (
      q',
      run,
      record {
        storage = f.storage;
        head_in = omega (arith, f.head, valid.head_in);
        tail_in = omega (arith, f.tail, valid.tail_in);
      },
      rw (f.head, f.tail) f.done,
    )
