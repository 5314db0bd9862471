-- ===== src/Base/Bits.antt =====
-- Binary digits at variables. `bit x k` is digit k of x; the native `bit_or`, `bit_and` and the
-- complement of a word are described digit by digit, and a word is the sum of its fields.
use Prim.Native.Nat.{
  ℕ, zero, suc, ◌+◌, ◌-◌, ◌*◌, ◌/◌, ◌%◌, ◌^◌, ◌≤◌, ◌<◌, min, max, bit_and, bit_or, digits,
  bit_and-bitwise, bit_or-bitwise,
}
use mathlib.Core.Path.{◌≡◌, refl, ap, ◌∙◌, sym}
use native.Mathlib.Nat.{pow-suc, one-le-pow, mod-eq_of_lt, div-add-mod, div-add-mod'}
use native.Mathlib.Omega.{arith}
use whoa.Base.Tests.{◌==◌, if◌then◌else◌}

module _ (z : ℕ → ℕ) (f : ℕ → ℕ → ℕ) where
  -- The digit count is only a bound: two that are large enough agree.
  count_irrelevant : (n m a b : ℕ) → a ≤ n → a ≤ m → digits z f n a b ≡ digits z f m a b
  count_irrelevant zero zero a b p q = refl
  count_irrelevant zero (suc m) zero b p q = refl
  count_irrelevant zero (suc m) (suc a) b p q = absurd (omega arith)
  count_irrelevant (suc n) zero zero b p q = refl
  count_irrelevant (suc n) zero (suc a) b p q = absurd (omega arith)
  count_irrelevant (suc n) (suc m) zero b p q = refl
  count_irrelevant (suc n) (suc m) (suc a) b p q =
      omega (arith, count_irrelevant n m (suc a / 2) (b / 2) (omega arith) (omega arith))

pub bit_or_low : (a b : ℕ) → bit_or a b ≡ bit_or (a / 2) (b / 2) * 2 + max (a % 2) (b % 2)
bit_or_low zero b = omega (arith, bit_or-bitwise 0 b, bit_or-bitwise 0 (b / 2))
bit_or_low (suc a) b =
    bit_or-bitwise (suc a) b
    ∙ ap (λ t. t * 2 + max (suc a % 2) (b % 2))
        (count_irrelevant (λ y. y) max a (suc a / 2) (suc a / 2) (b / 2) (omega arith) (omega arith)
          ∙ sym (bit_or-bitwise (suc a / 2) (b / 2)))

pub bit_and_low : (a b : ℕ) → bit_and a b ≡ bit_and (a / 2) (b / 2) * 2 + min (a % 2) (b % 2)
bit_and_low zero b = omega (arith, bit_and-bitwise 0 b, bit_and-bitwise 0 (b / 2))
bit_and_low (suc a) b =
    bit_and-bitwise (suc a) b
    ∙ ap (λ t. t * 2 + min (suc a % 2) (b % 2))
        (count_irrelevant (λ y. 0) min a (suc a / 2) (suc a / 2) (b / 2) (omega arith) (omega arith)
          ∙ sym (bit_and-bitwise (suc a / 2) (b / 2)))

-- Digit k of x, by recursion on k.
abbrev pub bit : ℕ → ℕ → ℕ
bit x zero = x % 2
bit x (suc k) = bit (x / 2) k

pub bit-le-one : (k x : ℕ) → bit x k ≤ 1
bit-le-one zero x = omega arith
bit-le-one (suc k) x = bit-le-one k (x / 2)

pub bit-bit_or : (k a b : ℕ) → bit (bit_or a b) k ≡ max (bit a k) (bit b k)
bit-bit_or zero a b = omega (arith, bit_or_low a b)
bit-bit_or (suc k) a b =
    ap (λ t. bit t k) (omega (arith, bit_or_low a b)) ∙ bit-bit_or k (a / 2) (b / 2)

pub bit-bit_and : (k a b : ℕ) → bit (bit_and a b) k ≡ min (bit a k) (bit b k)
bit-bit_and zero a b = omega (arith, bit_and_low a b)
bit-bit_and (suc k) a b =
    ap (λ t. bit t k) (omega (arith, bit_and_low a b)) ∙ bit-bit_and k (a / 2) (b / 2)

pub bit-zero : (k : ℕ) → bit 0 k ≡ 0
bit-zero zero = refl
bit-zero (suc k) = bit-zero k

-- A word of k digits has no digit above.
pub bit_above : (k j x : ℕ) → x < 2 ^ k → k ≤ j → bit x j ≡ 0
bit_above zero j x h p = ap (λ t. bit t j) (omega arith) ∙ bit-zero j
bit_above (suc k) zero x h p = absurd (omega arith)
bit_above (suc k) (suc j) x h p = bit_above k j (x / 2) (omega (arith, pow-suc 2 k)) (omega arith)

pub bit_power : (k j : ℕ) → bit (2 ^ k) j ≡ (if k == j then 1 else 0)
bit_power zero zero = refl
bit_power zero (suc j) = bit-zero j ∙ ground arith
bit_power (suc k) zero = ground (arith, pow-suc 2 k)
bit_power (suc k) (suc j) =
    ap (λ t. bit t j) (omega (arith, pow-suc 2 k)) ∙ bit_power k j ∙ ground arith

-- The complement of a word of w digits turns each digit over.
pub bit_complement : (w j x : ℕ) → x < 2 ^ w → j < w → bit (2 ^ w - 1 - x) j ≡ 1 - bit x j
bit_complement zero j x h p = absurd (omega arith)
bit_complement (suc w) zero x h p = omega (arith, pow-suc 2 w)
bit_complement (suc w) (suc j) x h p =
    ap (λ t. bit t j) (omega (arith, pow-suc 2 w))
    ∙ bit_complement w j (x / 2) (omega (arith, pow-suc 2 w)) (omega arith)

-- Two words with the same digits are the same.
pub bit_ext : (w a b : ℕ) → a < 2 ^ w → b < 2 ^ w → ((j : ℕ) → bit a j ≡ bit b j) → a ≡ b
bit_ext zero a b p q h = omega arith
bit_ext (suc w) a b p q h = omega (
  arith,
  h 0,
  bit_ext w (a / 2) (b / 2) (omega (arith, pow-suc 2 w)) (omega (arith, pow-suc 2 w))
      (λ j. h (suc j)),
)

double_power : (q k : ℕ) → q * 2 ^ suc k ≡ 2 * (q * 2 ^ k)
double_power q k = omega (arith, ap (λ (t : ℕ). q * t) (pow-suc 2 k))

bit_or_nil : (n a : ℕ) → a ≤ n → bit_or a 0 ≡ a
bit_or_nil n zero h = refl
bit_or_nil zero (suc a) h = absurd (omega arith)
bit_or_nil (suc n) (suc a) h =
    omega (arith, bit_or_low (suc a) 0, bit_or_nil n (suc a / 2) (omega arith))

-- Disjoint fields are joined by `|` as by a sum.
pub bit_or_join : (k q r : ℕ) → r < 2 ^ k → bit_or (q * 2 ^ k) r ≡ q * 2 ^ k + r
bit_or_join zero q r h =
    ap₂' (omega arith) (omega arith) ∙ bit_or_nil q q (omega arith) ∙ omega arith
  where
    ap₂' : {a b c d : ℕ} → a ≡ b → c ≡ d → bit_or a c ≡ bit_or b d
    ap₂' p s = cc
bit_or_join (suc k) q r h =
    let ih = bit_or_join k q (r / 2) (omega (arith, pow-suc 2 k)) in
    let half : bit_or (q * 2 ^ suc k / 2) (r / 2) ≡ q * 2 ^ k + r / 2 =
      ap (λ t. bit_or t (r / 2)) (omega (arith, double_power q k)) ∙ ih in
    omega (arith, bit_or_low (q * 2 ^ suc k) r, double_power q k, half)

bit_and_nil : (n a : ℕ) → a ≤ n → bit_and a 0 ≡ 0
bit_and_nil n zero h = refl
bit_and_nil zero (suc a) h = absurd (omega arith)
bit_and_nil (suc n) (suc a) h =
    omega (arith, bit_and_low (suc a) 0, bit_and_nil n (suc a / 2) (omega arith))

pub power_pos : (k : ℕ) → 0 < 2 ^ k
power_pos k = one-le-pow k 2 (omega arith)

mod_double : (m x : ℕ) → 0 < m → x % (2 * m) ≡ (x / 2) % m * 2 + x % 2
mod_double m x h = grind (arith, mod-eq_of_lt, div-add-mod)

-- A mask of k ones keeps the remainder.
pub bit_and_mask : (k x : ℕ) → bit_and x (2 ^ k - 1) ≡ x % 2 ^ k
bit_and_mask zero x = bit_and_nil x x (omega arith) ∙ omega arith
bit_and_mask (suc k) x =
    let half : bit_and (x / 2) ((2 ^ suc k - 1) / 2) ≡ (x / 2) % 2 ^ k =
      ap (bit_and (x / 2)) (omega (arith, pow-suc 2 k)) ∙ bit_and_mask k (x / 2) in
    let double : x % 2 ^ suc k ≡ (x / 2) % 2 ^ k * 2 + x % 2 =
      ap (λ t. x % t) (omega (arith, pow-suc 2 k)) ∙ mod_double (2 ^ k) x (power_pos k) in
    omega (arith, bit_and_low x (2 ^ suc k - 1), pow-suc 2 k, power_pos k, half, double)

-- `|` of a multiple of 2 ^ k and a number below it.
pub bit_or_disjoint : (k a r : ℕ) → a % 2 ^ k ≡ 0 → r < 2 ^ k → bit_or a r ≡ a + r
bit_or_disjoint k a r e h =
    let whole : a ≡ a / 2 ^ k * 2 ^ k = omega (arith, div-add-mod' a (2 ^ k)) in
    ap (λ t. bit_or t r) whole ∙ bit_or_join k (a / 2 ^ k) r h ∙ omega (arith, whole)

bit_or_swap : (n a b : ℕ) → a ≤ n → b ≤ n → bit_or a b ≡ bit_or b a
bit_or_swap zero a b p q = ground arith
bit_or_swap (suc n) a b p q = omega (
  arith,
  bit_or_low a b,
  bit_or_low b a,
  bit_or_swap n (a / 2) (b / 2) (omega arith) (omega arith),
)

pub bit_or_comm : (a b : ℕ) → bit_or a b ≡ bit_or b a
bit_or_comm a b = bit_or_swap (a + b) a b (omega arith) (omega arith)

even_low : (r d p q : ℕ) → q ≡ 2 * p → d * p * 2 + min r (q % 2) ≡ d * q
even_low r d p q e = rw e (grind arith)

or_low :
    (b d o p q r : ℕ)
    → q ≡ 2 * p
    → o + d * p ≡ b / 2 + p
    → r ≡ o * 2 + max (b % 2) (q % 2)
    → r + d * q ≡ b + q
or_low b d o p q r e f g = rw e (grind (arith, e, f, g))

top_only : (b o : ℕ) → o + bit b 7 * 128 ≡ b + 128 → bit b 7 ≡ b / 128 → o ≡ b % 128 + 128
top_only b o e f = omega (arith, rw f at e)

bit_and_power : (k b : ℕ) → bit_and b (2 ^ k) ≡ bit b k * 2 ^ k
bit_and_power zero b = bit_and_mask 1 b ∙ omega arith
bit_and_power (suc k) b =
    let half : bit_and (b / 2) (2 ^ suc k / 2) ≡ bit (b / 2) k * 2 ^ k =
      ap (bit_and (b / 2)) (omega (arith, pow-suc 2 k)) ∙ bit_and_power k (b / 2) in
    bit_and_low b (2 ^ suc k)
    ∙ ap (λ t. t * 2 + min (b % 2) (2 ^ suc k % 2)) half
    ∙ even_low (b % 2) (bit (b / 2) k) (2 ^ k) (2 ^ suc k) (omega (arith, pow-suc 2 k))

bit_or_power : (k b : ℕ) → bit_or b (2 ^ k) + bit b k * 2 ^ k ≡ b + 2 ^ k
bit_or_power zero b =
    omega (arith, bit_or_low b 1, bit_or_disjoint 0 (b / 2) 0 (omega arith) (omega arith))
bit_or_power (suc k) b =
    let half : bit_or (b / 2) (2 ^ suc k / 2) ≡ bit_or (b / 2) (2 ^ k) =
      ap (bit_or (b / 2)) (omega (arith, pow-suc 2 k)) in
    or_low b (bit (b / 2) k) (bit_or (b / 2) (2 ^ k)) (2 ^ k) (2 ^ suc k) (bit_or b (2 ^ suc k))
      (omega (arith, pow-suc 2 k)) (bit_or_power k (b / 2))
      (bit_or_low b (2 ^ suc k) ∙ ap (λ t. t * 2 + max (b % 2) (2 ^ suc k % 2)) half)

bit_seven : (b : ℕ) → b < 256 → bit b 7 ≡ b / 128
bit_seven b h = omega arith

-- The top digit of a byte.
pub bit_and_128 : (b : ℕ) → b < 256 → bit_and b 0x80 ≡ b / 128 * 128
bit_and_128 b h = bit_and_power 7 b ∙ ap (λ t. t * 128) (bit_seven b h)

pub bit_or_128 : (b : ℕ) → b < 256 → bit_or b 0x80 ≡ b % 128 + 128
bit_or_128 b h = top_only b (bit_or b 128) (bit_or_power 7 b) (bit_seven b h)
