-- ===== src/Totp/Tests.antt =====
-- A known secret, the digest of RFC 4226, section 5.4, codes of both lengths, and a window around a counter.
use real_time_market_data.Base.{
  ℕ, ◌+◌, ◌^◌, ◌%◌, ◌≤◌, ◌≡◌, refl, ◌↔◌, Bool, true, List, [], ◌∷◌, Option, some, Text, codes,
  arith, length,
}
use real_time_market_data.Base.Int.{pos}
use real_time_market_data.Totp.{
  Totp, TotpAlgo, Digest, b32_val, normalize_b32, decode_from, base32_decode, left_pad_int,
  counter_bytes, truncate, hotp, decimal, decimal_from, power_of_ten, time_counter, verify,
}
use real_time_market_data.Totp.Base32.{values, Decoded, base32_decode-Decoded}
use real_time_market_data.Totp.Digits.{read_from}
use real_time_market_data.Totp.Rfc.{dynamic, hotp_lem}
use real_time_market_data.Totp.Base32.{number_from}
use real_time_market_data.Totp.Window.{Codes, verify_lem}

-- "GEZDGNBV" is "12345".
base32_decode-12345 : base32_decode (codes "gezd gnbv=") ≡ some (codes "12345")
unfolding base32_decode normalize_b32 decode_from b32_val
base32_decode-12345 = refl

base32_decode-Decoded_example :
    (out : List ℕ) × (base32_decode (codes "gezd gnbv=") ≡ some out)
    × Decoded 0 0 (6 ∷ 4 ∷ 25 ∷ 3 ∷ 6 ∷ 13 ∷ 1 ∷ 21 ∷ []) 0 out
base32_decode-Decoded_example =
    base32_decode-Decoded (codes "gezd gnbv=") (6 ∷ 4 ∷ 25 ∷ 3 ∷ 6 ∷ 13 ∷ 1 ∷ 21 ∷ [])
      (unfold values normalize_b32 b32_val in refl)

-- A digest that is the message itself.
abbrev echo : Digest → List ℕ → List ℕ → Option (List ℕ)
echo algo key msg = some msg

abbrev totp : Totp
totp = record { secret = codes "12345"; digits = 6; period = 30; algo = TotpAlgo.sha1 }

abbrev echoed : ℕ → Text
echoed k = left_pad_int (truncate (counter_bytes 8 k [])) 6

echoed-Codes : Codes echo totp echoed
unfolding Codes hotp
echoed-Codes = λ k. refl

verify_lem_example :
    (b : Bool) × (verify echo totp (codes "000001") (pos 59) 1 ≡ some b)
    × ((b ≡ true) ↔ (
        (k : ℕ) × (k ≤ time_counter (pos 59) 30 + 1)
        × (time_counter (pos 59) 30 ≤ k + 1)
        × (echoed k ≡ codes "000001")))
verify_lem_example =
    verify_lem echo totp (codes "000001") echoed (pos 59) 1 echoed-Codes
      (unfold time_counter in omega arith)

abbrev digest : List ℕ
digest =
    31 ∷ 134 ∷ 152 ∷ 105 ∷ 14 ∷ 2 ∷ 202 ∷ 22 ∷ 97 ∷ 133 ∷ 80 ∷ 239 ∷ 127 ∷ 25 ∷ 218 ∷ 142 ∷ 148 ∷ 91
    ∷ 85 ∷ 90 ∷ []

left_pad_int-digest : left_pad_int (truncate digest) 6 ≡ codes "872921"
unfolding left_pad_int decimal decimal_from power_of_ten truncate
left_pad_int-digest = refl

abbrev always : Digest → List ℕ → List ℕ → Option (List ℕ)
always algo key msg = some digest

abbrev message : List ℕ
message = 0 ∷ 0 ∷ 0 ∷ 0 ∷ 0 ∷ 0 ∷ 1 ∷ 2 ∷ []

hotp_lem_example :
    (text : Text) × (hotp always (codes "12345") (number_from 256 0 message) 6 TotpAlgo.sha1
      ≡ some text)
    × (length text ≡ 6)
    × (read_from 0 text ≡ dynamic digest % 10 ^ 6)
hotp_lem_example =
    hotp_lem always (codes "12345") message digest 6 TotpAlgo.sha1 refl (ground arith) refl
      (omega arith) (ground arith) (omega arith) (omega arith)
