-- ===== src/Net/MessageReads/Frames.antt =====
-- The size that a sender writes is the one that the reader sees.
use whoa.Base.{
  ℕ, ◌+◌, ◌*◌, ◌/◌, ◌%◌, ◌^◌, ◌<◌, ◌≤◌, ◌≡◌, ap, ◌∙◌, arith, bit_or_comm, bit_or_join, bit_and_mask,
  bit_and_128, bit_or_128, List, [], ◌∷◌, ◌++◌, none, some, ltb, if◌then◌else◌, Bool-cases, inl,
  inr,
}
use whoa.Net.SendNode.{size_header}
use whoa.Net.MessageReads.{frame}

pub frame_small :
    (b0 b1 : ℕ) (rest : List ℕ)
    → b0 < 128
    → b1 < 256
    → frame (b0 ∷ b1 ∷ rest) ≡ record { header_size = 2; size = some (b0 * 256 + b1 + 2) }
unfolding frame
frame_small b0 b1 rest h0 h1 =
    rw
      (
        bit_and_128 b0 (omega arith),
        bit_and_mask 7 b0,
        bit_or_comm b1 _,
        bit_or_join 8 (b0 % 128) b1 h1,
      )
      (ground arith)

pub frame_large :
    (b0 b1 b2 : ℕ) (rest : List ℕ)
    → 128 ≤ b0
    → b0 < 256
    → b1 < 256
    → b2 < 256
    → frame (b0 ∷ b1 ∷ b2 ∷ rest)
      ≡ record { header_size = 3; size = some ((b0 % 128 * 256 + b1) * 256 + b2 + 3) }
unfolding frame
frame_large b0 b1 b2 rest l0 h0 h1 h2 =
    rw
      (
        bit_and_128 b0 h0,
        bit_and_mask 7 b0,
        bit_or_comm b1 _,
        bit_or_join 8 (b0 % 128) b1 h1,
        bit_or_comm b2 _,
        bit_or_join 8 (b0 % 128 * 2 ^ 8 + b1) b2 h2,
      )
      (ground arith)

pub frame_large_two :
    (b0 b1 : ℕ)
    → 128 ≤ b0
    → b0 < 256
    → frame (b0 ∷ b1 ∷ []) ≡ record { header_size = 3; size = none }
unfolding frame
frame_large_two b0 b1 l0 h0 = rw (bit_and_128 b0 h0) (ground arith)

pub size_header_small : (n : ℕ) → n ≤ 0x7fff → size_header n ≡ n / 256 ∷ n % 256 ∷ []
unfolding size_header
size_header_small n h = rw (bit_and_mask 8 n, bit_and_mask 8 (n / 2 ^ 8)) (ground arith)

pub size_header_large :
    (n : ℕ) → 0x7fff < n → size_header n ≡ (n / 65536 % 128 + 128) ∷ n / 256 % 256 ∷ n % 256 ∷ []
unfolding size_header
size_header_large n h =
    rw
      (
        bit_and_mask 8 n,
        bit_and_mask 8 (n / 2 ^ 8),
        bit_and_mask 8 (n / 2 ^ 16),
        bit_or_128 (n / 2 ^ 16 % 2 ^ 8) (omega arith),
      )
      (ground arith)

-- What the reader makes of the header of a message of n bytes, whatever follows it. The large header
-- holds 23 digits of the size: a message of 2 ^ 23 bytes or more is taken for a shorter one.
pub frame-size_header :
    (n : ℕ) (rest : List ℕ)
    → frame (size_header n ++ rest) ≡ (
        if ltb 0x7fff n
        then record { header_size = 3; size = some (n % 2 ^ 23 + 3) }
        else record { header_size = 2; size = some (n + 2) })
frame-size_header n rest = elim (Bool-cases (ltb 0x7fff n)) [
  | inl large ↦
      rw (size_header_large n (ground arith), large)
        (frame_large (n / 65536 % 128 + 128) (n / 256 % 256) (n % 256) rest (omega arith)
            (omega arith) (omega arith) (omega arith)
          ∙ ap (λ k. record { header_size = 3; size = some k }) (omega arith))
  | inr small ↦
      rw (size_header_small n (ground arith), small)
        (frame_small (n / 256) (n % 256) rest (ground arith) (omega arith)
          ∙ ap (λ k. record { header_size = 2; size = some k }) (omega arith))
]
