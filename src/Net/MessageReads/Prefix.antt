-- ===== src/Net/MessageReads/Prefix.antt =====
-- The part of a message that has arrived, and what one round of the loop makes of it.
use whoa.Base.{
  drop-append, ℕ, ◌-◌, ◌^◌, ◌<◌, ◌≤◌, ◌≡◌, refl, ap, ◌∙◌, sym, arith, List, [], ◌∷◌, ◌++◌, none,
  some, length, take, drop, length-append, append_assoc, leb, ltb, Bool-cases, Option-cases, inl,
  inr, ◌⊎◌, All, false,
}
use whoa.Net.SendNode.{size_header}
use whoa.Net.MessageReads.{Cipher, Reader, Frame, frame, bytes_to_read, deliver, receive, grow}
use whoa.Net.MessageReads.Frames.{frame-size_header, size_header_small, size_header_large}
use whoa.Net.MessageReads.Bounds.{
  IsByte, All-append, All-prefix, frame-append, frame-FrameOk, header_grows,
}
use whoa.Net.MessageReads.Rounds.{round}
use whoa.Net.MessageReads.Buffer.{CipherLaws}

-- A message as it goes over the wire.
abbrev pub on_wire : List ℕ → List ℕ
on_wire p = size_header (length p) ++ p

-- What the format can carry; the reading loop stops early at a message without bytes.
abbrev pub Sendable : List ℕ → Type 0
Sendable p = All IsByte p × (0 < length p) × (length p < 2 ^ 23)

pub split_append :
    (xs zs ws ms : List ℕ)
    → xs ++ zs ≡ ws ++ ms
    → length xs ≤ length ws
    → (ys : List ℕ) × (xs ++ ys ≡ ws) × (zs ≡ ys ++ ms)
split_append [] zs ws ms e h = (ws, refl, e)
split_append (x ∷ xs) zs [] ms e h = absurd (omega arith)
split_append (x ∷ xs) zs (w ∷ ws) ms e h =
    let (ys, a, b) = split_append xs zs ws ms (cc e) (omega (arith, h)) in (ys, cc (e, a), b)

pub take_all : (xs : List ℕ) → take (length xs) xs ≡ xs
take_all [] = refl
take_all (x ∷ xs) = ap (◌∷◌ x) (take_all xs)

payload : (h p : List ℕ) → take (length (h ++ p) - length h) (drop (length h) (h ++ p)) ≡ p
payload h p =
    rw (drop-append h p) (ap (λ n. take n p) (omega (arith, length-append h p)) ∙ take_all p)

asked_unknown :
    (f : Frame) (size len : ℕ) → f.size ≡ none → bytes_to_read f size len ≡ f.header_size - len
asked_unknown f size len e = rw e refl

size_header_bytes : (n : ℕ) → All IsByte (size_header n)
size_header_bytes n = elim (Bool-cases (ltb 0x7fff n)) [
  | inl large ↦ rw (size_header_large n (ground arith)) (omega arith)
  | inr small ↦ rw (size_header_small n (ground arith)) (ground arith)
]

pub on_wire-bytes : (p : List ℕ) → Sendable p → All IsByte (on_wire p)
on_wire-bytes p h = All-append (size_header (length p)) p (size_header_bytes (length p)) h.0

pub frame-on_wire :
    (p : List ℕ)
    → Sendable p
    → frame (on_wire p)
      ≡ record { header_size = length (size_header (length p)); size = some (length (on_wire p)) }
frame-on_wire p h = rw (frame-size_header (length p) p) (elim (Bool-cases (ltb 0x7fff (length p))) [
  | inl large ↦
      rw (large, size_header_large (length p) (ground arith))
        (ap (λ k. record { header_size = 3; size = some k }) (omega (arith, h.2)))
  | inr small ↦
      rw (small, size_header_small (length p) (ground arith))
        (ap (λ k. record { header_size = 2; size = some k }) (omega arith))
])

-- A part of a message leaves its size open, or tells it.
pub frame-part :
    (p xs ys : List ℕ)
    → Sendable p
    → xs ++ ys ≡ on_wire p
    → (((frame xs).size ≡ none)
        × ((frame xs).header_size ≤ length (size_header (length p)))
        × (length xs < (frame xs).header_size))
      ⊎ (frame xs ≡ frame (on_wire p))
frame-part p xs ys h e =
    let b = rw (← e) at (on_wire-bytes p h) in
    elim (Option-cases (frame xs).size) [
      | inl unknown ↦ inl (
        unknown,
        omega (
          arith,
          header_grows xs ys b,
          ap (λ l. (frame l).header_size) e,
          ap (λ f. f.header_size) (frame-on_wire p h),
        ),
        ground (arith, unknown, (frame-FrameOk xs (All-prefix xs ys b)).size_ok),
      )
      | inr (n, known) ↦ inr (sym (frame-append xs ys n (All-prefix xs ys b) known) ∙ ap frame e)
    ]

module _ (c : Cipher) (laws : CipherLaws c) where
  receive_plain :
      (f : Frame) (got : List ℕ) (r : Reader c)
      → r.encrypt ≡ false
      → (receive c f got (grow c r)).bytes ≡ r.bytes ++ got
        × ((receive c f got (grow c r)).encrypt ≡ false)
  unfolding receive grow
  receive_plain f got r plain = elim (Bool-cases (leb r.buffer_size (length r.bytes))) [
    | inl full ↦ rw (full, plain) (refl, refl)
    | inr fits ↦ rw (fits, plain) (refl, refl)
  ]

  deliver_part :
      (f : Frame) (r : Reader c)
      → (f.size ≡ none) ⊎ ((n : ℕ) × (f.size ≡ some n) × (length r.bytes < n))
      → deliver c f r ≡ ([], r)
  unfolding deliver
  deliver_part f r (inl e) = rw e refl
  deliver_part f r (inr (n, e, h)) = rw e (ground (arith, h))

  deliver_whole :
      (f : Frame) (r : Reader c)
      → f.size ≡ some (length r.bytes)
      → deliver c f r ≡ (
        take (length r.bytes - f.header_size) (drop f.header_size r.bytes) ∷ [],
        record r { bytes = [] },
      )
  unfolding deliver
  deliver_whole f r e = rw e (ground arith)

  -- A round that does not complete the message keeps what arrived.
  pub round_part :
      (p got ys : List ℕ) (r : Reader c)
      → r.encrypt ≡ false
      → Sendable p
      → (r.bytes ++ got) ++ ys ≡ on_wire p
      → 0 < length ys
      → ((round c laws got r).0 ≡ [])
        × ((round c laws got r).1.bytes ≡ r.bytes ++ got)
        × ((round c laws got r).1.encrypt ≡ false)
  round_part p got ys r plain h e more =
      let f = frame r.bytes in
      let (added, still) = receive_plain f got r plain in
      let w : deliver c f (receive c f got (grow c r)) ≡ ([], receive c f got (grow c r)) =
        deliver_part f (receive c f got (grow c r))
          (elim (frame-part p r.bytes (got ++ ys) h (sym (append_assoc r.bytes got ys) ∙ e)) [
            | inl (unknown, small, rest) ↦ inl unknown
            | inr known ↦ inr (
              length (on_wire p),
              ap (λ f. f.size) (known ∙ frame-on_wire p h),
              rw (added, ← e) (omega (arith, length-append (r.bytes ++ got) ys, more)),
            )
          ]) in
      rw w (refl, added, still)

  -- A round that completes the message hands it on.
  pub round_whole :
      (p got : List ℕ) (r : Reader c)
      → r.encrypt ≡ false
      → Sendable p
      → r.bytes ++ got ≡ on_wire p
      → length got ≤ bytes_to_read (frame r.bytes) (grow c r).buffer_size (length r.bytes)
      → ((round c laws got r).0 ≡ p ∷ [])
        × ((round c laws got r).1.bytes ≡ [])
        × ((round c laws got r).1.encrypt ≡ false)
  round_whole p got r plain h e few =
      let f = frame r.bytes in
      let (added, still) = receive_plain f got r plain in
      elim (frame-part p r.bytes got h e) [
        | inl (unknown, small, rest) ↦ absurd (
            omega (
              arith,
              few,
              asked_unknown f (grow c r).buffer_size (length r.bytes) unknown,
              small,
              rest,
              ap length e,
              length-append r.bytes got,
              length-append (size_header (length p)) p,
              h.1,
            ))
        | inr known ↦
            rw
              (deliver_whole f (receive c f got (grow c r)) (
                ap (λ f. f.size) (known ∙ frame-on_wire p h)
                ∙ ap (λ l. some (length l)) (sym e ∙ sym added)))
              (
                rw (added, e, known, frame-on_wire p h)
                    (ap (λ l. l ∷ []) (payload (size_header (length p)) p)),
                refl,
                still,
              )
      ]
