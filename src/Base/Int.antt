-- ===== src/Base/Int.antt =====
-- Signed integers over the native numbers (the library's ℤ stands on the unary ones), and the reading
-- of one from a text.
use Prim.Native.Nat.{ℕ, zero, suc, ◌+◌, ◌-◌, ◌*◌, ◌%◌, ◌^◌}
use mathlib.Core.Path.{◌≡◌, refl}
use mathlib.Core.Bool.{Bool, true, false, ◌&&◌, ◌||◌}
use mathlib.Core.List.{[], ◌∷◌}
use mathlib.Core.Option.{Option, none, some}
use real_time_market_data.Base.Tests.{ltb, leb, ◌==◌, if◌then◌else◌}
use real_time_market_data.Base.Strings.{Text}

-- `negsuc n` is -(n + 1).
pub data ℤ : Type 0 where
  pos : ℕ → ℤ
  negsuc : ℕ → ℤ

-- `std::llabs`
abbrev pub magnitude : ℤ → ℕ
magnitude (pos n) = n
magnitude (negsuc n) = suc n

abbrev negate : ℕ → ℤ
negate zero = pos 0
negate (suc n) = negsuc n

-- `k * a` for a count `k`
abbrev pub scale : ℕ → ℤ → ℤ
scale k (pos n) = pos (k * n)
scale k (negsuc n) = negate (k * suc n)

pub magnitude-scale : (k : ℕ) (a : ℤ) → magnitude (scale k a) ≡ k * magnitude a
magnitude-scale k (pos n) = refl
magnitude-scale k (negsuc n) = magnitude-negate (k * suc n)
  where
    magnitude-negate : (m : ℕ) → magnitude (negate m) ≡ m
    magnitude-negate zero = refl
    magnitude-negate (suc m) = refl

-- `m - n`, and the sum of two integers.
minus : ℕ → ℕ → ℤ
minus m n = if leb n m then pos (m - n) else negate (n - m)

unfoldable pub plus : ℤ → ℤ → ℤ
unfolding minus
plus (pos m) (pos n) = pos (m + n)
plus (pos m) (negsuc n) = minus m (suc n)
plus (negsuc m) (pos n) = minus n (suc m)
plus (negsuc m) (negsuc n) = negsuc (suc (m + n))

-- Operator `<=`.
unfoldable pub leb_int : ℤ → ℤ → Bool
leb_int (pos m) (pos n) = leb m n
leb_int (pos m) (negsuc n) = false
leb_int (negsuc m) (pos n) = true
leb_int (negsuc m) (negsuc n) = leb n m

-- `z > 0`
unfoldable pub is_positive : ℤ → Bool
is_positive (pos n) = ltb 0 n
is_positive (negsuc n) = false

-- static_cast<int>: the residue modulo 2 ^ 32 between -(2 ^ 31) and 2 ^ 31.
unfoldable pub int_of_residue : ℕ → ℤ
int_of_residue r = if ltb r (2 ^ 31) then pos r else negate (2 ^ 32 - r)

unfoldable pub to_int32 : ℤ → ℤ
unfolding int_of_residue
to_int32 (pos n) = int_of_residue (n % 2 ^ 32)
to_int32 (negsuc n) = int_of_residue (2 ^ 32 - 1 - n % 2 ^ 32)

-- `std::isspace` in the "C" locale
abbrev pub is_space : ℕ → Bool
is_space c = (leb 9 c && leb c 13) || (c == 32)

abbrev is_digit : ℕ → Bool
is_digit c = leb b'0' c && leb c b'9'

-- The digits at the front of a text, read in base 10, after a value that is read already.
abbrev read_digits : ℕ → Text → ℕ
read_digits acc [] = acc
read_digits acc (c ∷ s) =
    let rest = read_digits (acc * 10 + (c - b'0')) s in if is_digit c then rest else acc

abbrev starts_with_digit : Text → Bool
starts_with_digit [] = false
starts_with_digit (c ∷ s) = is_digit c

-- `none` is std::invalid_argument or std::out_of_range.
abbrev read_signed : Bool → Text → Option ℤ
read_signed minus s =
    if starts_with_digit s
    then (let n = read_digits 0 s in
        if minus
        then (if leb n (2 ^ 63) then some (negate n) else none)
        else (if ltb n (2 ^ 63) then some (pos n) else none))
    else none

abbrev read_sign : Text → Option ℤ
read_sign [] = none
read_sign (c ∷ s) =
    if c == b'-'
    then read_signed true s
    else if c == b'+'
    then read_signed false s
    else read_signed false (c ∷ s)

-- `std::stoll` in base 10: spaces and a sign may stand in front, anything behind.
unfoldable pub stoll : Text → Option ℤ
stoll [] = none
stoll (c ∷ s) = if is_space c then stoll s else read_sign (c ∷ s)
