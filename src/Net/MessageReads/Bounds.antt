-- ===== src/Net/MessageReads/Bounds.antt =====
-- What the first bytes of a message say of its size.
use whoa.Base.{
  ℕ, ◌<◌, ◌≤◌, ◌≡◌, refl, arith, List, [], ◌∷◌, ◌++◌, Option, none, some, length, ltb, Bool-cases,
  inl, inr, All,
}
use whoa.Net.MessageReads.{Frame, frame}
use whoa.Net.MessageReads.Frames.{frame_small, frame_large, frame_large_two}

abbrev pub IsByte : ℕ → Type 0
IsByte b = b < 256

pub All-append : (xs ys : List ℕ) → All IsByte xs → All IsByte ys → All IsByte (xs ++ ys)
All-append [] ys p q = q
All-append (x ∷ xs) ys p q = (p.0, All-append xs ys p.1 q)

pub All-prefix : (xs ys : List ℕ) → All IsByte (xs ++ ys) → All IsByte xs
All-prefix [] ys p = tt
All-prefix (x ∷ xs) ys p = (p.0, All-prefix xs ys p.1)

pub All-suffix : (xs ys : List ℕ) → All IsByte (xs ++ ys) → All IsByte ys
All-suffix [] ys p = p
All-suffix (x ∷ xs) ys p = All-suffix xs ys p.1

abbrev pub SizeOk : ℕ → ℕ → Option ℕ → Type 0
SizeOk len header none = len < header
SizeOk len header (some n) = (header ≤ n) × (n ≤ 8388610) × (2 ≤ len)

-- What is known of the frame at the head of some bytes.
pub record FrameOk (len : ℕ) (f : Frame) : Type 0 where
  pub least : 2 ≤ f.header_size
  pub most : f.header_size ≤ 3
  pub size_ok : SizeOk len f.header_size f.size

pub frame-FrameOk : (xs : List ℕ) → All IsByte xs → FrameOk (length xs) (frame xs)
unfolding frame
frame-FrameOk [] p = ground arith
frame-FrameOk (a ∷ []) p = ground arith
frame-FrameOk (a ∷ b ∷ []) p = elim (Bool-cases (ltb a 128)) [
  | inl small ↦ rw (frame_small a b [] (ground arith) p.1.0) (omega arith)
  | inr large ↦ rw (frame_large_two a b (ground arith) p.0) (omega arith)
]
frame-FrameOk (a ∷ b ∷ c ∷ xs) p = elim (Bool-cases (ltb a 128)) [
  | inl small ↦ rw (frame_small a b (c ∷ xs) (ground arith) p.1.0) (omega arith)
  | inr large ↦ rw (frame_large a b c xs (ground arith) p.0 p.1.0 p.1.1.0) (omega arith)
]

size_unknown : (a : ℕ) → ((frame []).size ≡ none) × ((frame (a ∷ [])).size ≡ none)
unfolding frame
size_unknown a = (refl, refl)

header_short : (a : ℕ) → ((frame []).header_size ≡ 2) × ((frame (a ∷ [])).header_size ≡ 2)
unfolding frame
header_short a = (refl, refl)

pub frame_nil : frame [] ≡ record { header_size = 2; size = none }
unfolding frame
frame_nil = refl

-- Once the size is known it does not change.
pub frame-append :
    (xs ys : List ℕ) (n : ℕ)
    → All IsByte xs
    → (frame xs).size ≡ some n
    → frame (xs ++ ys) ≡ frame xs
frame-append [] ys n p e = cc ((size_unknown 0).0)
frame-append (a ∷ []) ys n p e = cc ((size_unknown a).1)
frame-append (a ∷ b ∷ []) ys n p e = elim (Bool-cases (ltb a 128)) [
  | inl small ↦
      rw (frame_small a b [] (ground arith) p.1.0, frame_small a b ys (ground arith) p.1.0)
  | inr large ↦ absurd (ground (arith, frame_large_two a b (ground arith) p.0))
]
frame-append (a ∷ b ∷ c ∷ xs) ys n p e = elim (Bool-cases (ltb a 128)) [
  | inl small ↦ rw (
    frame_small a b (c ∷ xs) (ground arith) p.1.0,
    frame_small a b (c ∷ xs ++ ys) (ground arith) p.1.0,
  )
  | inr large ↦ rw (
    frame_large a b c xs (ground arith) p.0 p.1.0 p.1.1.0,
    frame_large a b c (xs ++ ys) (ground arith) p.0 p.1.0 p.1.1.0,
  )
]

-- The header does not shrink when bytes arrive.
pub header_grows :
    (xs ys : List ℕ)
    → All IsByte (xs ++ ys)
    → (frame xs).header_size ≤ (frame (xs ++ ys)).header_size
header_grows [] ys p = omega (arith, (frame-FrameOk ys p).least, (header_short 0).0)
header_grows (a ∷ []) ys p = omega (arith, (frame-FrameOk (a ∷ ys) p).least, (header_short a).1)
header_grows (a ∷ b ∷ []) [] p = omega arith
header_grows (a ∷ b ∷ []) (c ∷ ys) p = elim (Bool-cases (ltb a 128)) [
  | inl small ↦
      rw (frame_small a b [] (ground arith) p.1.0, frame_small a b (c ∷ ys) (ground arith) p.1.0)
        (omega arith)
  | inr large ↦
      rw
        (
          frame_large_two a b (ground arith) p.0,
          frame_large a b c ys (ground arith) p.0 p.1.0 p.1.1.0,
        )
        (omega arith)
]
header_grows (a ∷ b ∷ c ∷ xs) ys p = elim (Bool-cases (ltb a 128)) [
  | inl small ↦
      rw
        (
          frame_small a b (c ∷ xs) (ground arith) p.1.0,
          frame_small a b (c ∷ xs ++ ys) (ground arith) p.1.0,
        )
        (omega arith)
  | inr large ↦
      rw
        (
          frame_large a b c xs (ground arith) p.0 p.1.0 p.1.1.0,
          frame_large a b c (xs ++ ys) (ground arith) p.0 p.1.0 p.1.1.0,
        )
        (omega arith)
]

-- The bytes held are at most those that the frame at their head asks for.
abbrev pub AtMost : ℕ → ℕ → Option ℕ → Type 0
AtMost len header none = len ≤ header
AtMost len header (some n) = len ≤ n
