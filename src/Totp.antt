-- ===== src/Totp.antt =====
-- src/totp.cpp, include/totp.h: one-time passwords. HMAC is a parameter, from the digest, the key
-- and the message to the digest.
pub mod Bits
pub mod Base32
pub mod Digits
pub mod Rfc
pub mod Window
mod Tests
use Prim.Native.Nat.{bit_and, bit_or}
use real_time_market_data.Base.{
  ℕ, zero, suc, ◌+◌, ◌-◌, ◌*◌, ◌/◌, ◌%◌, ◌^◌, Bool, true, false, ◌&&◌, ◌||◌, List, [], ◌∷◌, ◌++◌,
  Option, none, some, Text, ltb, leb, ◌==◌, if◌then◌else◌, length, get_or, replicate, text_eq,
  ◌>>=◌,
}
use real_time_market_data.Base.Int.{ℤ, pos, negsuc, is_space}
use real_time_market_data.Base.Word.{add_size, sub_size}

pub data TotpAlgo : Type 0 where
  sha1 sha256 sha512 : TotpAlgo

-- The digests that the code asks OpenSSL for.
pub data Digest : Type 0 where
  evp_sha1 evp_sha256 evp_sha512 : Digest

pub md_for_algo : TotpAlgo → Digest
md_for_algo sha1 = evp_sha1
md_for_algo sha256 = evp_sha256
md_for_algo sha512 = evp_sha512

-- `none` is -1.
pub b32_val : ℕ → Option ℕ
b32_val c =
    if leb b'A' c && leb c b'Z'
    then some (c - b'A')
    else if leb b'2' c && leb c b'7'
    then some (26 + (c - b'2'))
    else none

-- `std::toupper` in the "C" locale
abbrev to_upper : ℕ → ℕ
to_upper c = if leb b'a' c && leb c b'z' then c - 32 else c

-- Without padding and spaces, in upper case.
pub normalize_b32 : Text → Text
normalize_b32 [] = []
normalize_b32 (c ∷ s) =
    let rest = normalize_b32 s in
    if c == b'=' then rest else if is_space c then rest else to_upper c ∷ rest

-- The loop over the characters. `buffer` is an int, of which only the bits matter: it is kept modulo
-- 2 ^ 32. `none` is the exception.
pub decode_from : Text → ℕ → ℕ → List ℕ → Option (List ℕ)
unfolding b32_val
decode_from [] buffer bits_left out = some out
decode_from (c ∷ s) buffer bits_left out = do
  v ← b32_val c
  let buffer' = bit_or (buffer * 32 % 2 ^ 32) v
  let bits = bits_left + 5
  let more = decode_from s buffer' (bits - 8) (out ++ bit_and (buffer' / 2 ^ (bits - 8)) 255 ∷ [])
  let less = decode_from s buffer' bits out
  if leb 8 bits then more else less

pub base32_decode : Text → Option (List ℕ)
unfolding normalize_b32 decode_from
base32_decode s = decode_from (normalize_b32 s) 0 0 []

-- `mod *= 10` at uint32_t, `digits` times.
pub power_of_ten : ℕ → ℕ → ℕ
power_of_ten zero m = m
power_of_ten (suc digits) m = power_of_ten digits (m * 10 % 2 ^ 32)

-- The decimal digits of a number on fuel, and what `std::setw` with `std::setfill('0')` makes of them.
pub decimal_from : ℕ → ℕ → Text → Text
decimal_from zero n acc = acc
decimal_from (suc fuel) n acc =
    let rest = decimal_from fuel (n / 10) ((b'0' + n % 10) ∷ acc) in
    if ltb n 10 then (b'0' + n) ∷ acc else rest

-- A uint32_t has at most ten digits.
pub decimal : ℕ → Text
unfolding decimal_from
decimal n = decimal_from 10 n []

pub left_pad_int : ℕ → ℕ → Text
unfolding power_of_ten decimal
left_pad_int val digits =
    let code = val % power_of_ten digits 1 in
    let text = decimal code in replicate (digits - length text) b'0' ++ text

pub record Totp : Type 0 where
  pub secret : List ℕ
  pub digits : ℕ
  pub period : ℕ
  pub algo : TotpAlgo

-- The constructor, with `none` for its exceptions. A negative count of digits or seconds is refused too.
pub init : Text → ℕ → ℕ → TotpAlgo → Option Totp
unfolding base32_decode
init secret digits period algo = do
  key ← base32_decode secret
  if (ltb digits 6 || ltb 10 digits) || (period == 0)
      then none
      else some (record { secret = key; digits = digits; period = period; algo = algo })

-- From the seconds since the epoch.
pub time_counter : ℤ → ℕ → ℕ
time_counter (pos secs) period = secs / period
time_counter (negsuc n) period = 0 / period

-- The counter's bytes, the last one first in the loop.
pub counter_bytes : ℕ → ℕ → List ℕ → List ℕ
counter_bytes zero counter acc = acc
counter_bytes (suc i) counter acc = counter_bytes i (counter / 256) (bit_and counter 255 ∷ acc)

-- Dynamic truncation.
pub truncate : List ℕ → ℕ
truncate mac =
    let offset = bit_and (get_or mac (length mac - 1) 0) 15 in
    bit_or
      (bit_or
        (bit_or (bit_and (get_or mac offset 0) 127 * 2 ^ 24)
          (bit_and (get_or mac (offset + 1) 0) 255 * 2 ^ 16))
        (bit_and (get_or mac (offset + 2) 0) 255 * 2 ^ 8))
      (bit_and (get_or mac (offset + 3) 0) 255)

module _ (hmac : Digest → List ℕ → List ℕ → Option (List ℕ)) where
  -- `none` is the exception where HMAC fails.
  pub hotp : List ℕ → ℕ → ℕ → TotpAlgo → Option Text
  unfolding counter_bytes truncate left_pad_int
  hotp key counter digits algo = do
    mac ← hmac (md_for_algo algo) key (counter_bytes 8 counter [])
    some (left_pad_int (truncate mac) digits)

  pub code_at : Totp → ℤ → Option Text
  unfolding time_counter
  code_at t secs = hotp t.secret (time_counter secs t.period) t.digits t.algo

  -- The clock's time is an argument.
  pub now : Totp → ℤ → Option Text
  unfolding code_at
  now t clock = code_at t clock

  -- The rounds `w` to `w + rounds - 1` of the loop, with the counter modulo 2 ^ 64.
  pub verify_from : Totp → Text → ℕ → ℕ → ℕ → Option Bool
  verify_from t code ctr zero w = some false
  verify_from t code ctr (suc rounds) w = do
    let rest = verify_from t code ctr rounds (w + 1)
    later ← hotp t.secret (add_size ctr w) t.digits t.algo
    let earlier = hotp t.secret (sub_size ctr w) t.digits t.algo
    if text_eq later code
        then some true
        else if leb w ctr
        then (earlier >>= λ text. if text_eq text code then some true else rest)
        else rest

  -- `window` is the rounds of the loop: none for a negative number of steps.
  pub verify : Totp → Text → ℤ → ℕ → Option Bool
  unfolding code_at verify_from time_counter
  verify t code secs window = do
    here ← code_at t secs
    if text_eq here code
        then some true
        else verify_from t code (time_counter secs t.period) window 1
