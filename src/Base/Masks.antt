-- ===== src/Base/Masks.antt =====
-- Masks: numbers told apart by their digits, and the test of one digit.
use Prim.Native.Nat.{ℕ, zero, suc, ◌+◌, ◌*◌, ◌^◌, ◌<◌, bit_and}
use mathlib.Core.Path.{◌≡◌, refl, ap, ◌∙◌}
use mathlib.Core.Logic.{inl, inr}
use mathlib.Core.Bool.{true}
use native.Mathlib.Omega.{arith}
use whoa.Base.Tests.{◌==◌, if◌then◌else◌, Bool-cases}
use whoa.Base.Bits.{bit, bit-bit_and, bit-zero, bit_power, bit_ext, bit-le-one}

below_power : (x : ℕ) → x < 2 ^ x
below_power zero = omega arith
below_power (suc x) = omega (arith, below_power x)

same_of : (k j : ℕ) → (k == j) ≡ true → k ≡ j
same_of k j h = ground (arith, h)

pub bit_same : (a b : ℕ) → ((j : ℕ) → bit a j ≡ bit b j) → a ≡ b
bit_same a b h =
    bit_ext (a + b) a b (omega (arith, below_power (a + b))) (omega (arith, below_power (a + b))) h

pub bit_shift : (k j : ℕ) → bit (1 * 2 ^ k) j ≡ (if k == j then 1 else 0)
bit_shift k j = ap (λ x. bit x j) (omega arith) ∙ bit_power k j

-- One digit of a mask, cut out.
bit-bit_and_shift : (k j m : ℕ) → bit (bit_and (1 * 2 ^ k) m) j ≡ (if k == j then bit m k else 0)
bit-bit_and_shift k j m = elim (Bool-cases (k == j)) [
  | inl same ↦
      rw (bit-bit_and j (1 * 2 ^ k) m, bit_shift k j, same)
        (ground (arith, bit-le-one j m, ap (bit m) (same_of k j same)))
  | inr apart ↦ rw (bit-bit_and j (1 * 2 ^ k) m, bit_shift k j, apart) (ground arith)
]

-- Whether a digit is set, the way the code tests it.
pub test_bit : (k m : ℕ) → (bit_and (1 * 2 ^ k) m == 0) ≡ (bit m k == 0)
test_bit k m = elim (Bool-cases (bit m k == 0)) [
  | inl clear ↦
      let z : bit_and (1 * 2 ^ k) m ≡ 0 =
        bit_same (bit_and (1 * 2 ^ k) m) 0
          (λ j. bit-bit_and_shift k j m ∙ ground (arith, clear, bit-zero j)) in
      rw (z, clear) refl
  | inr set ↦ ground (arith, set, bit-bit_and_shift k k m, bit-zero k, ap (λ x. bit x k))
]

pub bit_and_comm : (a b : ℕ) → bit_and a b ≡ bit_and b a
bit_and_comm a b =
    bit_same (bit_and a b) (bit_and b a) (λ j. omega (arith, bit-bit_and j a b, bit-bit_and j b a))

-- The test with the mask on the left.
pub test_bit_left : (k m : ℕ) → (bit_and m (1 * 2 ^ k) == 0) ≡ (bit m k == 0)
test_bit_left k m = ap (λ x. x == 0) (bit_and_comm m (1 * 2 ^ k)) ∙ test_bit k m
