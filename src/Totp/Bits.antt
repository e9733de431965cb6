-- ===== src/Totp/Bits.antt =====
-- The decoder's buffer: what five more bits do to it, and the byte that leaves.
use Prim.Native.Nat.{bit_and, bit_or}
use real_time_market_data.Base.{ℕ, zero, suc, ◌+◌, ◌*◌, ◌/◌, ◌%◌, ◌^◌, ◌<◌, ◌≡◌, refl, ap, arith}
use real_time_market_data.Base.Word.{bit_and_mask, bit_or_step}

pub or_none_below : (n a : ℕ) → a < n → bit_or a 0 ≡ a
or_none_below zero a l = absurd (omega arith)
or_none_below (suc n) zero l = omega (arith, bit_or_zero)
  where
    bit_or_zero : bit_or 0 0 ≡ 0
    bit_or_zero = refl
or_none_below (suc n) (suc a) l =
    omega (arith, or_none_below n (suc a / 2) (omega arith), bit_or_step (suc a) 0)

pub or_double : (a v : ℕ) → bit_or (a * 2) v ≡ bit_or a (v / 2) * 2 + v % 2
or_double a v =
    let half : a * 2 / 2 ≡ a = omega arith in
    omega (arith, bit_or_step (a * 2) v, ap (λ (t : ℕ). bit_or t (v / 2)) half)

-- A disjunction of a multiple of 32 and a number below 32 is their sum.
or_low : (a v : ℕ) → v < 32 → bit_or (a * 32) v ≡ a * 32 + v
or_low a v h =
    let doubled : a * 32 ≡ a * 2 * 2 * 2 * 2 * 2 = omega arith in
    let gone : v / 2 / 2 / 2 / 2 / 2 ≡ 0 = omega arith in
    omega (
      arith,
      ap (λ (t : ℕ). bit_or t v) doubled,
      or_double (a * 2 * 2 * 2 * 2) v,
      or_double (a * 2 * 2 * 2) (v / 2),
      or_double (a * 2 * 2) (v / 2 / 2),
      or_double (a * 2) (v / 2 / 2 / 2),
      or_double a (v / 2 / 2 / 2 / 2),
      ap (bit_or a) gone,
      or_none_below (suc a) a (omega arith),
    )

pub buffer_step : (n v : ℕ) → v < 32 → bit_or (n % 2 ^ 32 * 32 % 2 ^ 32) v ≡ (n * 32 + v) % 2 ^ 32
buffer_step n v h =
    let cut : n % 2 ^ 32 * 32 % 2 ^ 32 ≡ n % 2 ^ 27 * 32 = omega arith in
    rw cut (omega (arith, or_low (n % 2 ^ 27) v h))

pub byte_of : (k n : ℕ) → bit_and (n % 2 ^ 32 / 2 ^ k) 255 ≡ n % 2 ^ 32 / 2 ^ k % 256
byte_of k n = bit_and_mask 8 (n % 2 ^ 32 / 2 ^ k)

-- Five more bits, of which a byte leaves; and five more bits that stay.
pub byte_leaves :
    (k n v : ℕ)
    → k < 5
    → v < 32
    → n / 2 ^ (k + 3) * 256 + (n * 32 + v) % 2 ^ 32 / 2 ^ k % 256 ≡ (n * 32 + v) / 2 ^ k
byte_leaves zero n v l h = omega arith
byte_leaves (suc zero) n v l h = omega arith
byte_leaves (suc (suc zero)) n v l h = omega arith
byte_leaves (suc (suc (suc zero))) n v l h = omega arith
byte_leaves (suc (suc (suc (suc zero)))) n v l h = omega arith
byte_leaves (suc (suc (suc (suc (suc k))))) n v l h = absurd (omega arith)

pub bits_stay : (k n v : ℕ) → k < 3 → v < 32 → n / 2 ^ k ≡ (n * 32 + v) / 2 ^ (k + 5)
bits_stay zero n v l h = omega arith
bits_stay (suc zero) n v l h = omega arith
bits_stay (suc (suc zero)) n v l h = omega arith
bits_stay (suc (suc (suc k))) n v l h = absurd (omega arith)
