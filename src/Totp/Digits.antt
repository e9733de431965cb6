-- ===== src/Totp/Digits.antt =====
-- The code as text: as many digits as were asked for, and of which number.
use native.Mathlib.Nat.{pow-suc, mod-lt, pow-le-pow_right}
use real_time_market_data.Base.{
  ℕ, zero, suc, ◌+◌, ◌-◌, ◌*◌, ◌/◌, ◌%◌, ◌^◌, ◌<◌, ◌≤◌, ◌≡◌, refl, ap, ◌∙◌, inl, inr, false, [],
  ◌∷◌, ◌++◌, Text, ltb, length, length-append, length-replicate, replicate, arith, Bool-cases,
}
use real_time_market_data.Totp.{power_of_ten, decimal_from, decimal, left_pad_int}

-- The number that decimal digits make up, after a number that was read.
abbrev pub read_from : ℕ → Text → ℕ
read_from n [] = n
read_from n (c ∷ s) = read_from (n * 10 + (c - b'0')) s

-- Up to nine digits the power of ten fits 32 bits.
power_of_ten_small : (d : ℕ) → d ≤ 9 → power_of_ten d 1 ≡ 10 ^ d
unfolding power_of_ten
power_of_ten_small zero h = refl
power_of_ten_small (suc zero) h = refl
power_of_ten_small (suc (suc zero)) h = refl
power_of_ten_small (suc (suc (suc zero))) h = refl
power_of_ten_small (suc (suc (suc (suc zero)))) h = refl
power_of_ten_small (suc (suc (suc (suc (suc zero))))) h = refl
power_of_ten_small (suc (suc (suc (suc (suc (suc zero)))))) h = refl
power_of_ten_small (suc (suc (suc (suc (suc (suc (suc zero))))))) h = refl
power_of_ten_small (suc (suc (suc (suc (suc (suc (suc (suc zero)))))))) h = refl
power_of_ten_small (suc (suc (suc (suc (suc (suc (suc (suc (suc zero))))))))) h = refl
power_of_ten_small (suc (suc (suc (suc (suc (suc (suc (suc (suc (suc d)))))))))) h =
    absurd (omega arith)

-- What `std::setw` pads with does not count, and the digits of a number give it back.
read_from-zeros : (k : ℕ) (s : Text) → read_from 0 (replicate k b'0' ++ s) ≡ read_from 0 s
read_from-zeros zero s = refl
read_from-zeros (suc k) s = read_from-zeros k s

read_from-decimal_from :
    (fuel n : ℕ) (acc : Text)
    → n < 10 ^ fuel
    → read_from 0 (decimal_from fuel n acc) ≡ read_from n acc
unfolding decimal_from
read_from-decimal_from zero n acc h = ap (λ (t : ℕ). read_from t acc) (omega arith)
read_from-decimal_from (suc fuel) n acc h = elim (Bool-cases (ltb n 10)) [
  | inl last ↦ rw last (ap (λ (t : ℕ). read_from t acc) (omega arith))
  | inr more ↦ rw more (
      read_from-decimal_from fuel (n / 10) ((b'0' + n % 10) ∷ acc) (omega (arith, pow-suc 10 fuel))
      ∙ ap (λ (t : ℕ). read_from t acc) (omega arith))
]

length-decimal_from :
    (fuel n d : ℕ) (acc : Text)
    → 0 < d
    → n < 10 ^ d
    → length (decimal_from fuel n acc) ≤ length acc + d
unfolding decimal_from
length-decimal_from zero n d acc p h = omega arith
length-decimal_from (suc fuel) n zero acc p h = absurd (omega arith)
length-decimal_from (suc fuel) n (suc d) acc p h = elim (Bool-cases (ltb n 10)) [
  | inl last ↦ rw last (omega arith)
  | inr more ↦ rw more (
      omega (
        arith,
        length-decimal_from fuel (n / 10) d ((b'0' + n % 10) ∷ acc) (several d h more)
            (omega (arith, pow-suc 10 d)),
      ))
]
  where
    several : (d : ℕ) → n < 10 ^ suc d → ltb n 10 ≡ false → 0 < d
    several zero h more = absurd (ground arith)
    several (suc d) h more = omega arith

-- For one to nine digits the text of a code has exactly so many characters and reads as the value
-- modulo that power of ten.
pub left_pad_int_lem :
    (val digits : ℕ)
    → 0 < digits
    → digits ≤ 9
    → (length (left_pad_int val digits) ≡ digits)
      × (read_from 0 (left_pad_int val digits) ≡ val % 10 ^ digits)
unfolding left_pad_int decimal
left_pad_int_lem val digits p h =
    let code = val % power_of_ten digits 1 in
    let s = decimal_from 10 code [] in
    let e : code ≡ val % 10 ^ digits = ap (λ (t : ℕ). val % t) (power_of_ten_small digits h) in
    let below : code < 10 ^ digits = rw e (mod-lt val (pow_ten-pos digits)) in
    let fits : code < 10 ^ 10 =
      omega (arith, below, pow-le-pow_right {n = 10} (omega arith) {i = digits} {j = 9} h) in
    (
      length-append (replicate (digits - length s) b'0') s
          ∙ omega (
            arith,
            length-replicate {A = ℕ} (digits - length s) b'0',
            length-decimal_from 10 code digits [] p below,
          ),
      read_from-zeros (digits - length s) s ∙ read_from-decimal_from 10 code [] fits ∙ e,
    )
  where
    pow_ten-pos : (k : ℕ) → 0 < 10 ^ k
    pow_ten-pos zero = omega arith
    pow_ten-pos (suc k) = omega (arith, pow-suc 10 k, pow_ten-pos k)

-- For ten digits the text of a code reads as the value modulo 1410065408, what 10 ^ 10 is in 32
-- bits.
left_pad_int-ten : (val : ℕ) → read_from 0 (left_pad_int val 10) ≡ val % 1410065408
unfolding left_pad_int decimal power_of_ten
left_pad_int-ten val =
    let s = decimal_from 10 (val % 1410065408) [] in
    read_from-zeros (10 - length s) s
    ∙ read_from-decimal_from 10 (val % 1410065408) [] (omega arith)
