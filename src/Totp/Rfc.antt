-- ===== src/Totp/Rfc.antt =====
-- hotp of src/totp.cpp against RFC 4226: the counter's bytes and the dynamic truncation.
use Prim.Native.Nat.{bit_and, bit_or}
use native.Mathlib.Nat.{pow-suc, div-div-eq-div-mul, mul_comm, mul_assoc}
use real_time_market_data.Base.{
  ℕ, zero, suc, ◌+◌, ◌-◌, ◌*◌, ◌/◌, ◌%◌, ◌^◌, ◌<◌, ◌≤◌, ◌≡◌, refl, ap, ap₂, sym, ◌∙◌, List, [], ◌∷◌,
  ◌++◌, Option, some, Text, length, append-nil, take, drop, get_or, All, arith,
}
use real_time_market_data.Base.Word.{bit_and_mask}
use real_time_market_data.Totp.{
  TotpAlgo, Digest, md_for_algo, counter_bytes, truncate, hotp, left_pad_int,
}
use real_time_market_data.Totp.Base32.{number_from}
use real_time_market_data.Totp.Bits.{or_none_below, or_double}
use real_time_market_data.Totp.Digits.{read_from, left_pad_int_lem}

-- A list of bytes.
abbrev pub AreBytes : List ℕ → Type 0
AreBytes ds = All (λ d. d < 256) ds

number_from-div : (m : ℕ) (ds : List ℕ) → AreBytes ds → number_from 256 m ds / 256 ^ length ds ≡ m
number_from-div m [] h = omega arith
number_from-div m (d ∷ ds) h =
    ap (λ (t : ℕ). number_from 256 (m * 256 + d) ds / t) (pow-suc 256 (length ds))
    ∙ sym (div-div-eq-div-mul (number_from 256 (m * 256 + d) ds) (256 ^ length ds) 256)
    ∙ omega (arith, number_from-div (m * 256 + d) ds h.1, h.0)

counter_bytes_first :
    (i c : ℕ) (acc : List ℕ)
    → counter_bytes (suc i) c acc ≡ (c / 256 ^ i % 256) ∷ counter_bytes i c acc
unfolding counter_bytes
counter_bytes_first zero c acc = ap (λ (t : ℕ). t ∷ acc) (omega (arith, bit_and_mask 8 c))
counter_bytes_first (suc i) c acc =
    counter_bytes_first i (c / 256) (bit_and c 255 ∷ acc)
    ∙ ap (λ (t : ℕ). t ∷ counter_bytes i (c / 256) (bit_and c 255 ∷ acc))
        (omega (
          arith,
          div-div-eq-div-mul c 256 (256 ^ i),
          ap (λ (t : ℕ). c / t) (pow-suc 256 i ∙ mul_comm (256 ^ i) 256),
        ))

-- The bytes of a number that bytes make up are those bytes.
counter_bytes-number_from :
    (m : ℕ) (ds acc : List ℕ)
    → AreBytes ds
    → counter_bytes (length ds) (number_from 256 m ds) acc ≡ ds ++ acc
unfolding counter_bytes
counter_bytes-number_from m [] acc h = refl
counter_bytes-number_from m (d ∷ ds) acc h =
    counter_bytes_first (length ds) (number_from 256 (m * 256 + d) ds) acc
    ∙ ap₂ ◌∷◌ (omega (arith, number_from-div (m * 256 + d) ds h.1, h.0))
        (counter_bytes-number_from (m * 256 + d) ds acc h.1)

-- A disjunction of a multiple of a power of two and a number below that power is their sum.
or_low_at : (k a v : ℕ) → v < 2 ^ k → bit_or (a * 2 ^ k) v ≡ a * 2 ^ k + v
or_low_at zero a v h = omega (
  arith,
  or_none_below (suc (a * 2 ^ zero)) (a * 2 ^ zero) (omega arith),
  ap (λ (t : ℕ). bit_or (a * 2 ^ zero) t) (let z : v ≡ 0 = omega arith in z),
)
or_low_at (suc k) a v h =
    let double : a * 2 ^ suc k ≡ a * 2 ^ k * 2 =
      ap (λ (t : ℕ). a * t) (pow-suc 2 k) ∙ sym (mul_assoc a (2 ^ k) 2) in
    omega (
      arith,
      ap (λ (t : ℕ). bit_or t v) double,
      or_double (a * 2 ^ k) v,
      or_low_at k a (v / 2) (omega (arith, pow-suc 2 k)),
    )

truncate_sum :
    (a b c d : ℕ)
    → b < 256
    → c < 256
    → d < 256
    → bit_or
        (bit_or (bit_or (bit_and a 127 * 2 ^ 24) (bit_and b 255 * 2 ^ 16)) (bit_and c 255 * 2 ^ 8))
        (bit_and d 255)
      ≡ number_from 256 0 (a ∷ b ∷ c ∷ d ∷ []) % 2 ^ 31
truncate_sum a b c d hb hc hd =
    let low : bit_and a 127 ≡ a % 128 = bit_and_mask 7 a in
    let keep : (x : ℕ) → x < 256 → bit_and x 255 ≡ x = λ x h. omega (arith, bit_and_mask 8 x) in
    rw (low, keep b hb, keep c hc, keep d hd)
      (ap (λ (t : ℕ). bit_or (bit_or t (c * 2 ^ 8)) d)
          (or_low_at 24 (a % 128) (b * 2 ^ 16) (omega arith))
        ∙ ap (λ (t : ℕ). bit_or t d)
            (ap (λ (t : ℕ). bit_or t (c * 2 ^ 8)) (omega arith)
              ∙ or_low_at 16 (a % 128 * 2 ^ 8 + b) (c * 2 ^ 8) (omega arith))
        ∙ ap (λ (t : ℕ). bit_or t d) (omega arith)
        ∙ or_low_at 8 ((a % 128 * 2 ^ 8 + b) * 2 ^ 8 + c) d (omega arith)
        ∙ omega arith)

drop-get_or : (i : ℕ) (xs : List ℕ) → i < length xs → drop i xs ≡ get_or xs i 0 ∷ drop (i + 1) xs
drop-get_or i [] h = absurd (omega arith)
drop-get_or zero (x ∷ xs) h = refl
drop-get_or (suc i) (x ∷ xs) h =
    let next : suc i + 1 ≡ suc (i + 1) = omega arith in rw next (drop-get_or i xs (omega arith))

get_or-lt : (i : ℕ) (xs : List ℕ) → AreBytes xs → get_or xs i 0 < 256
get_or-lt i [] h = omega arith
get_or-lt zero (x ∷ xs) h = h.0
get_or-lt (suc i) (x ∷ xs) h = get_or-lt i xs h.1

take-drop_four :
    (i : ℕ) (xs : List ℕ)
    → i + 3 < length xs
    → take 4 (drop i xs)
      ≡ get_or xs i 0 ∷ get_or xs (i + 1) 0 ∷ get_or xs (i + 2) 0 ∷ get_or xs (i + 3) 0 ∷ []
take-drop_four i xs h =
    let two : i + 1 + 1 ≡ i + 2 = omega arith in
    let three : i + 2 + 1 ≡ i + 3 = omega arith in
    rw
      (
        drop-get_or i xs (omega arith),
        drop-get_or (i + 1) xs (omega arith),
        two,
        drop-get_or (i + 2) xs (omega arith),
        three,
        drop-get_or (i + 3) xs (omega arith),
      )
      refl

-- RFC 4226: the 31 low bits of the four bytes from the offset on that the last byte's low bits give.
pub dynamic : List ℕ → ℕ
dynamic mac = number_from 256 0 (take 4 (drop (get_or mac (length mac - 1) 0 % 16) mac)) % 2 ^ 31

truncate-dynamic : (mac : List ℕ) → 20 ≤ length mac → AreBytes mac → truncate mac ≡ dynamic mac
unfolding truncate dynamic
truncate-dynamic mac h bytes =
    let o : ℕ = get_or mac (length mac - 1) 0 % 16 in
    let offset : bit_and (get_or mac (length mac - 1) 0) 15 ≡ o =
      bit_and_mask 4 (get_or mac (length mac - 1) 0) in
    rw (offset, take-drop_four o mac (omega arith))
      (truncate_sum (get_or mac o 0) (get_or mac (o + 1) 0) (get_or mac (o + 2) 0)
        (get_or mac (o + 3) 0) (get_or-lt (o + 1) mac bytes) (get_or-lt (o + 2) mac bytes)
        (get_or-lt (o + 3) mac bytes))

-- For a counter written as eight big-endian bytes, an HMAC that gives a digest of at least 20 bytes
-- for them, and one to nine digits: hotp gives a text of so many characters that reads as the number
-- of RFC 4226, the 31 low bits of the four bytes at the offset in the digest's last byte, modulo
-- that power of ten.
pub hotp_lem :
    (hmac : Digest → List ℕ → List ℕ → Option (List ℕ)) (key msg mac : List ℕ) (digits : ℕ)
    (algo : TotpAlgo)
    → length msg ≡ 8
    → AreBytes msg
    → hmac (md_for_algo algo) key msg ≡ some mac
    → 20 ≤ length mac
    → AreBytes mac
    → 0 < digits
    → digits ≤ 9
    → (text : Text) × (hotp hmac key (number_from 256 0 msg) digits algo ≡ some text)
      × (length text ≡ digits)
      × (read_from 0 text ≡ dynamic mac % 10 ^ digits)
unfolding hotp
hotp_lem hmac key msg mac digits algo eight bytes h long octets p fits =
    let message : counter_bytes 8 (number_from 256 0 msg) [] ≡ msg =
      ap (λ (t : ℕ). counter_bytes t (number_from 256 0 msg) []) (sym eight)
      ∙ counter_bytes-number_from 0 msg [] bytes
      ∙ append-nil msg in
    let (count, reads) = left_pad_int_lem (truncate mac) digits p fits in
    (
      left_pad_int (truncate mac) digits,
      rw (message, h) refl,
      count,
      reads ∙ ap (λ (t : ℕ). t % 10 ^ digits) (truncate-dynamic mac long octets),
    )
