-- ===== src/Ingest/Pow2.antt =====
-- The rounding of a capacity: `next_pow2` finds the least power of two, at bit level.
use Prim.Native.Nat.{bit_or}
use native.Mathlib.Decide.{dec_lt}
use native.Mathlib.Nat.{div-le_self, pow-suc}
use real_time_market_data.Base.{
  ℕ, zero, suc, ◌+◌, ◌-◌, ◌*◌, ◌/◌, ◌^◌, ◌≤◌, ◌<◌, ◌≡◌, refl, ap, inl, inr, true, ltb, arith,
  Bool-cases,
}
use real_time_market_data.Base.Word.{
  add_size, bit, bit-or, bit_or-lt, bit-shift, bit-le-one, bit_above, ones-le, highest_bit,
  pow_two-and, pow_two-pos, pow_two_of_and, pow_two_mono, pow_le,
}
use real_time_market_data.Ingest.{is_power_of_two, smear, next_pow2}

-- The test of the constructor's assert: it holds at exactly the powers of two.
is_power_of_two-pow : (k : ℕ) → is_power_of_two (2 ^ k) ≡ true
unfolding is_power_of_two
is_power_of_two-pow k = ground (arith, pow_two-pos k, pow_two-and k)

pow_of_test : (n : ℕ) → is_power_of_two n ≡ true → (k : ℕ) × (n ≡ 2 ^ k)
unfolding is_power_of_two
pow_of_test n h = pow_two_of_and (suc n) n (omega arith) (ground arith) (ground arith)

-- Before the round at `w`, the `w` highest bits up to bit `k` are set.
abbrev Filled : ℕ → ℕ → ℕ → Type 0
Filled k w n = (i : ℕ) → i ≤ k → k < i + w → bit n i ≡ 1

Filled-round : (k w n : ℕ) → Filled k w n → Filled k (w * 2) (bit_or n (n / 2 ^ w))
Filled-round k w n f i le lt = elim (dec_lt k (i + w)) [
  | yes near ↦ omega (arith, bit-or i n (n / 2 ^ w), f i le near, bit-le-one i (n / 2 ^ w))
  | no far ↦
      let there : bit n (w + i) ≡ 1 = f (w + i) (omega arith) (omega arith) in
      omega (arith, bit-or i n (n / 2 ^ w), bit-shift w i n, there, bit-le-one i n)
]

div-lt : (n d b : ℕ) → n < b → n / d < b
div-lt n d b h = omega (arith, div-le_self n d)

smear-Filled :
    (rounds k w n : ℕ)
    → n < 2 ^ suc k
    → Filled k w n
    → (smear rounds w n < 2 ^ suc k) × Filled k (w * 2 ^ rounds) (smear rounds w n)
unfolding smear
smear-Filled zero k w n h f = (h, λ i le lt. f i le (omega arith))
smear-Filled (suc rounds) k w n h f =
    let (lt, g) =
      smear-Filled rounds k (w * 2) (bit_or n (n / 2 ^ w))
        (bit_or-lt (suc k) n (n / 2 ^ w) h (div-lt n (2 ^ w) (2 ^ suc k) h))
        (Filled-round k w n f) in
    (lt, λ i le l. g i le (omega (arith, ap (λ (t : ℕ). w * t) (pow-suc 2 rounds))))

-- The six rounds set every bit below the highest one.
smear_lem : (k n : ℕ) → k < 64 → 2 ^ k ≤ n → n < 2 ^ suc k → smear 6 1 n + 1 ≡ 2 ^ suc k
smear_lem k n small lo hi =
    omega (
      arith,
      filled.0,
      ones-le (suc k) (smear 6 1 n) (λ i l. filled.1 i (omega arith) (omega arith)),
    )
  where
    top : Filled k 1 n
    top i le l = let e : i ≡ k = omega arith in rw e (bit_above k n lo hi)

    filled : (smear 6 1 n < 2 ^ suc k) × Filled k (1 * 2 ^ 6) (smear 6 1 n)
    filled = smear-Filled 6 k 1 n hi top

-- Where the rounding fits in 64 bits.
pub record IsRounded (n m : ℕ) : Type 0 where
  pub bits : ℕ
  pub at_least : 3 ≤ bits
  pub at_most : bits ≤ 63
  pub value : m ≡ 2 ^ bits
  pub covers : n ≤ m
  pub least : (j : ℕ) → 3 ≤ j → n ≤ 2 ^ j → m ≤ 2 ^ j

IsRounded-from :
    (n k : ℕ)
    → 8 ≤ n
    → n ≤ 2 ^ 63
    → 2 ^ k ≤ n - 1
    → n - 1 < 2 ^ suc k
    → IsRounded n (add_size (smear 6 1 (n - 1)) 1)
IsRounded-from n k big fits lo hi = record {
  bits = suc k;
  at_least = pow_two_mono 2 (suc k) (omega arith);
  at_most = below;
  value = sum;
  covers = omega (arith, sum);
  least = λ j three cover. rw sum (pow_le (suc k) j (pow_two_mono k j (omega arith)));
}
  where
    below : k < 63
    below = pow_two_mono k 63 (omega arith)

    sum : add_size (smear 6 1 (n - 1)) 1 ≡ 2 ^ suc k
    sum = omega (arith, smear_lem k (n - 1) (omega (arith, below)) lo hi, pow_le (suc k) 63 below)

IsRounded-up : (n : ℕ) → 8 ≤ n → n ≤ 2 ^ 63 → IsRounded n (add_size (smear 6 1 (n - 1)) 1)
IsRounded-up n big fits =
    let (k, lo, hi) = highest_bit n (n - 1) (omega arith) (omega arith) in
    IsRounded-from n k big fits lo hi

IsRounded-pow : (n k : ℕ) → 8 ≤ n → n ≤ 2 ^ 63 → n ≡ 2 ^ k → IsRounded n n
IsRounded-pow n k big fits e = record {
  bits = k;
  at_least = pow_two_mono 2 k (omega arith);
  at_most = omega (arith, pow_two_mono k 64 (omega arith));
  value = e;
  covers = omega arith;
  least = λ j three cover. cover;
}

-- A capacity of at most 2 ^ 63 is rounded to the least power of two, from 8 on, that is not below
-- it.
pub next_pow2-IsRounded : (n : ℕ) → n ≤ 2 ^ 63 → IsRounded n (next_pow2 n)
unfolding next_pow2
next_pow2-IsRounded n fits = elim (Bool-cases (ltb n 8)) [
  | inl low ↦ rw low (record {
    bits = 3;
    at_least = omega arith;
    at_most = omega arith;
    value = refl;
    covers = ground arith;
    least = λ j three cover. pow_le 3 j three;
  })
  | inr high ↦ rw high (elim (Bool-cases (is_power_of_two n)) [
    | inl pow ↦ let (k, e) = pow_of_test n pow in rw pow (IsRounded-pow n k (ground arith) fits e)
    | inr other ↦ rw other (IsRounded-up n (ground arith) fits)
  ])
]

-- A capacity above 2 ^ 63 that fits a word is rounded to 0, since the last addition wraps.
next_pow2-eq-zero : (n : ℕ) → 2 ^ 63 < n → n < 2 ^ 64 → next_pow2 n ≡ 0
unfolding next_pow2
next_pow2-eq-zero n lo hi = elim (Bool-cases (is_power_of_two n)) [
  | inl pow ↦
      let (k, e) = pow_of_test n pow in
      absurd (omega (arith, pow_two_mono 63 k (omega arith), pow_two_mono k 64 (omega arith)))
  | inr other ↦
      ground (arith, other, smear_lem 63 (n - 1) (omega arith) (omega arith) (omega arith))
]
