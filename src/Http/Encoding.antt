-- ===== src/Http/Encoding.antt =====
-- The percent-encoding: a decoder gives back what was encoded, and the result has no separator in it.
use Prim.Native.Nat.{bit_and}
use real_time_market_data.Base.{
  ℕ, ◌+◌, ◌-◌, ◌*◌, ◌/◌, ◌%◌, ◌<◌, ◌≡◌, refl, ap, inl, inr, true, false, [], ◌∷◌, Text, leb, ◌==◌,
  if◌then◌else◌, All, arith, Bool-cases, ap₂, ◌⊎◌,
}
use real_time_market_data.Base.Word.{bit_and_mask}
use real_time_market_data.Http.{is_plain, hex, url_encode}

-- A decoder of the percent-encoding.
unhex : ℕ → ℕ
unhex c = if leb c b'9' then c - b'0' else 10 + (c - b'A')

pub data Reading : Type 0 where
  plain first : Reading
  second : ℕ → Reading

pub decode_from : Reading → Text → Text
unfolding unhex
decode_from r [] = []
decode_from plain (c ∷ s) =
    let coded = decode_from first s in
    let rest = decode_from plain s in if c == b'%' then coded else c ∷ rest
decode_from first (c ∷ s) = decode_from (second (unhex c)) s
decode_from (second high) (c ∷ s) = (high * 16 + unhex c) ∷ decode_from plain s

plain-ne : (c : ℕ) → is_plain c ≡ true → (c == b'%') ≡ false
unfolding is_plain
plain-ne c h = ground arith

unhex-hex : (n : ℕ) → n < 16 → unhex (hex n) ≡ n
unfolding unhex hex
unhex-hex n h = ground arith

hex-plain : (n : ℕ) → n < 16 → is_plain (hex n) ≡ true
unfolding is_plain hex
hex-plain n h = ground arith

low_digit : (c : ℕ) → bit_and c 15 ≡ c % 16
low_digit c = bit_and_mask 4 c

pub decode_from-url_encode :
    (s : Text) → All (λ c. c < 256) s → decode_from plain (url_encode s) ≡ s
unfolding decode_from url_encode
decode_from-url_encode [] h = refl
decode_from-url_encode (c ∷ s) h = elim (Bool-cases (is_plain c)) [
  | inl kept ↦ rw (kept, plain-ne c kept) (ap (λ r. c ∷ r) (decode_from-url_encode s h.1))
  | inr coded ↦ rw coded (
      ap₂ ◌∷◌
        (omega (
          arith,
          unhex-hex (c / 16) (omega (arith, h.0)),
          unhex-hex (bit_and c 15) (omega (arith, low_digit c)),
          low_digit c,
        ))
        (decode_from-url_encode s h.1))
]

pub url_encode-clean :
    (s : Text) → All (λ c. c < 256) s → All (λ c. (is_plain c ≡ true) ⊎ (c ≡ b'%')) (url_encode s)
unfolding url_encode
url_encode-clean [] h = tt
url_encode-clean (c ∷ s) h = elim (Bool-cases (is_plain c)) [
  | inl kept ↦ rw kept (inl kept, url_encode-clean s h.1)
  | inr coded ↦ rw coded (
    inr refl,
    (
      inl (hex-plain (c / 16) (omega (arith, h.0))),
      (inl (hex-plain (bit_and c 15) (omega (arith, low_digit c))), url_encode-clean s h.1),
    ),
  )
]

-- For a text of bytes, decoding the percent-encoding gives the text back, and the encoding has only
-- plain characters and percent signs in it.
url_encode_lem :
    (s : Text)
    → All (λ c. c < 256) s
    → (decode_from plain (url_encode s) ≡ s)
      × All (λ c. (is_plain c ≡ true) ⊎ (c ≡ b'%')) (url_encode s)
url_encode_lem s h = (decode_from-url_encode s h, url_encode-clean s h)
