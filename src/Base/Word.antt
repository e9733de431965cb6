-- ===== src/Base/Word.antt =====
-- `std::size_t` and `uint64_t` as numbers below 2 ^ 64, and facts about their bits at variables.
use Prim.Native.Nat.{
  ℕ, zero, suc, ◌+◌, ◌-◌, ◌*◌, ◌/◌, ◌%◌, ◌^◌, ◌≤◌, ◌<◌, ◌∣◌, min, max, bit_and, bit_or, digits,
  bit_and-bitwise, bit_or-bitwise,
}
use mathlib.Core.Path.{◌≡◌, refl, ◌∙◌, ap, ap₂, sym}
use mathlib.Core.Logic.{◌⊎◌, inl, inr}
use native.Mathlib.Nat.{
  dvd_refl, dvd-mul_right_of_dvd, pow-suc, pow-succ', pow-le-pow_right, div-div-eq-div-mul, mod-lt,
  mod-eq-sub-div-mul, div-mul-le_self, add-mul-mod_self_right, mod-eq_of_lt,
}
use native.Mathlib.Decide.{dec_lt}
use native.Mathlib.Omega.{arith}

abbrev pub word_mod : ℕ
word_mod = 2 ^ 64

-- `a + b` and `a - b` at `std::size_t`.
abbrev pub add_size : ℕ → ℕ → ℕ
add_size a b = (a + b) % word_mod

abbrev pub sub_size : ℕ → ℕ → ℕ
sub_size a b = (a + word_mod - b) % word_mod

-- The digit by digit definition of an operation: spare rounds change nothing, so that the digits of
-- both halves and the lowest digit make up the result.
module _ (ended : ℕ → ℕ) (on_digits : ℕ → ℕ → ℕ) where
  digits_spare :
      (r n a b : ℕ) → n ≤ r → a ≤ n → digits ended on_digits n a b ≡ digits ended on_digits a a b
  digits_spare r zero zero b within enough = refl
  digits_spare r (suc n) zero b within enough = refl
  digits_spare r zero (suc a) b within enough = absurd (omega arith)
  digits_spare zero (suc n) (suc a) b within enough = absurd (omega arith)
  digits_spare (suc r) (suc n) (suc a) b within enough =
      ap (λ (t : ℕ). t * 2 + on_digits (suc a % 2) (b % 2))
        (digits_spare r n (suc a / 2) (b / 2) (omega arith) (omega arith)
          ∙ sym (digits_spare r a (suc a / 2) (b / 2) (omega arith) (omega arith)))

  digits_halves :
      (a b : ℕ)
      → digits ended on_digits (suc a) (suc a) b
        ≡ digits ended on_digits (suc a / 2) (suc a / 2) (b / 2) * 2 + on_digits (suc a % 2) (b % 2)
  digits_halves a b =
      ap (λ (t : ℕ). t * 2 + on_digits (suc a % 2) (b % 2))
        (digits_spare a a (suc a / 2) (b / 2) (omega arith) (omega arith))

zero-and : (b : ℕ) → bit_and 0 b ≡ 0
zero-and = bit_and-bitwise 0

zero-or : (b : ℕ) → bit_or 0 b ≡ b
zero-or = bit_or-bitwise 0

bit_and_step : (x y : ℕ) → bit_and x y ≡ min (x % 2) (y % 2) + 2 * bit_and (x / 2) (y / 2)
bit_and_step zero y = omega (arith, zero-and (y / 2), zero-and y)
bit_and_step (suc x) y =
    let low = bit_and-bitwise (suc x / 2) (y / 2) in
    omega (arith, digits_halves (λ b. 0) min x y, low, bit_and-bitwise (suc x) y)

pub bit_or_step : (x y : ℕ) → bit_or x y ≡ max (x % 2) (y % 2) + 2 * bit_or (x / 2) (y / 2)
bit_or_step zero y = omega (arith, zero-or (y / 2), zero-or y)
bit_or_step (suc x) y =
    let low = bit_or-bitwise (suc x / 2) (y / 2) in
    omega (arith, digits_halves (λ b. b) max x y, low, bit_or-bitwise (suc x) y)

-- The bit at position `i`, from the lowest.
abbrev pub bit : ℕ → ℕ → ℕ
bit a zero = a % 2
bit a (suc i) = bit (a / 2) i

pub bit-or : (i a b : ℕ) → bit (bit_or a b) i ≡ max (bit a i) (bit b i)
bit-or zero a b = omega (arith, bit_or_step a b)
bit-or (suc i) a b =
    let halved : bit_or a b / 2 ≡ bit_or (a / 2) (b / 2) = omega (arith, bit_or_step a b) in
    rw halved (bit-or i (a / 2) (b / 2))

pub bit_or-lt : (k a b : ℕ) → a < 2 ^ k → b < 2 ^ k → bit_or a b < 2 ^ k
bit_or-lt zero zero zero h g = omega (arith, zero-or 0)
bit_or-lt zero (suc a) b h g = absurd (omega arith)
bit_or-lt zero zero (suc b) h g = absurd (omega arith)
bit_or-lt (suc k) a b h g = omega (
  arith,
  bit_or_step a b,
  pow-suc 2 k,
  bit_or-lt k (a / 2) (b / 2) (omega (arith, pow-suc 2 k)) (omega (arith, pow-suc 2 k)),
)

pub bit-le-one : (i a : ℕ) → bit a i ≤ 1
bit-le-one zero a = omega arith
bit-le-one (suc i) a = bit-le-one i (a / 2)

-- A number whose `k` lowest bits are all set is at least `2 ^ k - 1`.
pub ones-le : (k a : ℕ) → ((i : ℕ) → i < k → bit a i ≡ 1) → 2 ^ k ≤ a + 1
ones-le zero a h = omega arith
ones-le (suc k) a h =
    omega
      (arith, pow-suc 2 k, h 0 (omega arith), ones-le k (a / 2) (λ i g. h (suc i) (omega arith)))

-- Conjunction with no bit and with itself, for the numbers below a bound.
and_below : (n a : ℕ) → a < n → (bit_and a 0 ≡ 0) × (bit_and a a ≡ a)
and_below zero a l = absurd (omega arith)
and_below (suc n) zero l = (zero-and 0, zero-and 0)
and_below (suc n) (suc a) l =
    let (none, both) = and_below n (suc a / 2) (omega arith) in
    (omega (arith, none, bit_and_step (suc a) 0), omega (arith, both, bit_and_step (suc a) (suc a)))

and-zero : (a : ℕ) → bit_and a 0 ≡ 0
and-zero a = (and_below (suc a) a (omega arith)).0

and_self : (a : ℕ) → bit_and a a ≡ a
and_self a = (and_below (suc a) a (omega arith)).1

pub pow_two-pos : (k : ℕ) → 0 < 2 ^ k
pow_two-pos zero = omega arith
pow_two-pos (suc k) = omega (arith, pow-suc 2 k, pow_two-pos k)

-- The remainder by an even number keeps the lowest bit.
mod_double : (a m : ℕ) → 0 < m → a % (m * 2) ≡ a / 2 % m * 2 + a % 2
mod_double a m h =
    let r = a / 2 % m * 2 + a % 2 in
    let q = a / 2 / m in
    let small : r < m * 2 = omega (arith, mod-lt (a / 2) h) in
    let split : a ≡ r + q * (m * 2) =
      omega (arith, mod-eq-sub-div-mul (a / 2) m, div-mul-le_self (a / 2) m) in
    ap (λ (t : ℕ). t % (m * 2)) split ∙ add-mul-mod_self_right r q (m * 2) ∙ mod-eq_of_lt small

-- A mask of `k` ones takes the remainder by `2 ^ k`.
pub bit_and_mask : (k a : ℕ) → bit_and a (2 ^ k - 1) ≡ a % 2 ^ k
bit_and_mask zero a = omega (arith, and-zero a)
bit_and_mask (suc k) a =
    let e : (2 ^ suc k - 1) / 2 ≡ 2 ^ k - 1 = omega (arith, pow-suc 2 k, pow_two-pos k) in
    omega (
      arith,
      bit_and_step a (2 ^ suc k - 1),
      ap (λ (t : ℕ). bit_and (a / 2) t) e,
      bit_and_mask k (a / 2),
      pow-suc 2 k,
      pow_two-pos k,
      ap (λ (t : ℕ). a % t) (pow-suc 2 k),
      mod_double a (2 ^ k) (pow_two-pos k),
    )

even_or_odd : (a : ℕ) → (a % 2 ≡ 0) ⊎ (a % 2 ≡ 1)
even_or_odd a = omega arith

-- A mask of one bit: a power of two and the number below it share no bit.
pub pow_two-and : (k : ℕ) → bit_and (2 ^ k) (2 ^ k - 1) ≡ 0
pow_two-and zero = and-zero 1
pow_two-and (suc k) =
    let half : (2 ^ suc k - 1) / 2 ≡ 2 ^ k - 1 = omega (arith, pow-suc 2 k, pow_two-pos k) in
    let half' : 2 ^ suc k / 2 ≡ 2 ^ k = omega (arith, pow-suc 2 k) in
    omega (
      arith,
      bit_and_step (2 ^ suc k) (2 ^ suc k - 1),
      ap₂ bit_and half' half,
      pow-suc 2 k,
      pow_two-and k,
    )

-- Only a power of two shares no bit with the number below it.
pub pow_two_of_and : (n a : ℕ) → a < n → 0 < a → bit_and a (a - 1) ≡ 0 → (k : ℕ) × (a ≡ 2 ^ k)
pow_two_of_and zero a h p e = absurd (omega arith)
pow_two_of_and (suc n) a h p e = elim (even_or_odd a) [
  | inl even ↦
      let half : (a - 1) / 2 ≡ a / 2 - 1 = omega arith in
      let (k, f) =
        pow_two_of_and n (a / 2) (omega arith) (omega arith)
          (omega (arith, bit_and_step a (a - 1), ap (bit_and (a / 2)) half)) in
      (suc k, omega (arith, f, pow-suc 2 k))
  | inr odd ↦
      let half : (a - 1) / 2 ≡ a / 2 = omega arith in
      (0, omega (arith, bit_and_step a (a - 1), ap (bit_and (a / 2)) half, and_self (a / 2)))
]

pub pow_two_mono : (j k : ℕ) → 2 ^ j < 2 ^ k → j < k
pow_two_mono j k h = elim (dec_lt j k) [
  | yes l ↦ l
  | no l ↦
      absurd (omega (arith, pow-le-pow_right {n = 2} (omega arith) {i = k} {j = j} (omega arith)))
]

-- The highest bit of a positive number.
pub highest_bit : (n a : ℕ) → a < n → 0 < a → (k : ℕ) × (2 ^ k ≤ a) × (a < 2 ^ suc k)
highest_bit zero a h p = absurd (omega arith)
highest_bit (suc n) a h p = elim (dec_lt a 2) [
  | yes small ↦ (0, omega arith, omega arith)
  | no big ↦
      let (k, lo, hi) = highest_bit n (a / 2) (omega arith) (omega arith) in
      (suc k, omega (arith, pow-suc 2 k), omega (arith, pow-suc 2 (suc k)))
]

pub bit_above : (k a : ℕ) → 2 ^ k ≤ a → a < 2 ^ suc k → bit a k ≡ 1
bit_above zero a lo hi = omega arith
bit_above (suc k) a lo hi =
    bit_above k (a / 2) (omega (arith, pow-suc 2 k)) (omega (arith, pow-suc 2 (suc k), pow-suc 2 k))

pub bit-shift : (m i a : ℕ) → bit (a / 2 ^ m) i ≡ bit a (m + i)
bit-shift zero i a =
    let e : a / 2 ^ 0 ≡ a = omega arith in
    let e' : 0 + i ≡ i = omega arith in ap (λ (t : ℕ). bit t i) e ∙ ap (bit a) (sym e')
bit-shift (suc m) i a =
    let e : suc m + i ≡ suc (m + i) = omega arith in
    rw e (ap (λ (t : ℕ). bit t i) halve ∙ bit-shift m i (a / 2))
  where
    halve : a / 2 ^ suc m ≡ a / 2 / 2 ^ m
    halve = rw (div-div-eq-div-mul, pow-succ')

pub pow_le : (j k : ℕ) → j ≤ k → 2 ^ j ≤ 2 ^ k
pow_le j k h = pow-le-pow_right {n = 2} (omega arith) h

pub pow_two_dvd : (j k : ℕ) → j ≤ k → 2 ^ j ∣ 2 ^ k
pow_two_dvd zero zero h = dvd_refl 1
pow_two_dvd (suc j) zero h = absurd (omega arith)
pow_two_dvd j (suc k) h = elim (dec_lt k j) [
  | yes above ↦ let e : j ≡ suc k = omega arith in rw e (dvd_refl (2 ^ suc k))
  | no under ↦ rw (pow-suc 2 k) (dvd-mul_right_of_dvd (2 ^ j) (pow_two_dvd j k (omega arith)) 2)
]
