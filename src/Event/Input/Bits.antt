-- ===== src/Event/Input/Bits.antt =====
-- Single digits of the input layer's masks.
use whoa.Base.{
  ℕ, zero, suc, ◌*◌, ◌%◌, ◌^◌, ◌<◌, ◌≡◌, arith, bit_and, bit_or, bit, bit-bit_or, bit-bit_and,
  bit_complement, bit-le-one, power_pos, ◌==◌, if◌then◌else◌,
}
use whoa.Base.Masks.{bit_shift}
use whoa.Event.Input.{complement}

power_below : (k n : ℕ) → k < n → 2 ^ k < 2 ^ n
power_below k zero h = absurd (omega arith)
power_below zero (suc n) h = omega (arith, power_pos n)
power_below (suc k) (suc n) h = omega (arith, power_below k n (omega (arith, h)))

power_small : (k : ℕ) → k < 32 → 1 * 2 ^ k % 2 ^ 32 ≡ 1 * 2 ^ k
power_small k h = omega (arith, power_below k 32 h)

pub bit_set_power : (k j m : ℕ) → bit (bit_or m (1 * 2 ^ k)) j ≡ (if k == j then 1 else bit m j)
bit_set_power k j m =
    rw (bit-bit_or j m (1 * 2 ^ k), bit_shift k j) (ground (arith, bit-le-one j m))

pub bit_clear_power :
    (k j m : ℕ)
    → k < 32
    → j < 32
    → bit (bit_and m (complement (1 * 2 ^ k))) j ≡ (if k == j then 0 else bit m j)
bit_clear_power k j m hk hj =
    rw
      (
        bit-bit_and j m (complement (1 * 2 ^ k)),
        bit_complement 32 j (1 * 2 ^ k % 2 ^ 32) (omega arith) hj,
        power_small k hk,
        bit_shift k j,
      )
      (ground (arith, bit-le-one j m))
