-- ===== src/Parser/Frame.antt =====
-- A whole frame: how its time and its token are normalised, and its wrappers.
use real_time_market_data.Base.{
  ◌^◌, ◌≤◌, ◌<◌, ◌≡◌, refl, ap, ◌⊎◌, inl, inr, true, false, not, ◌&&◌, some, [], ◌∷◌, ◌++◌, Text,
  codes, arith, Bool-cases, if◌then◌else◌, length, drop, is_empty,
}
use real_time_market_data.Base.Int.{ℤ, scale, magnitude, magnitude-scale}
use real_time_market_data.Json.{Floats, JsonLib}
use real_time_market_data.Parser.{
  Parser, to_timepoint, has_prefix, normalize, first_of_array, unwrap_data, read_frame, parse_ltp,
}

-- A count of seconds between 10 ^ 9 and 10 ^ 12 in absolute value is read as the same instant as its
-- thousandfold, the milliseconds.
to_timepoint-scale :
    (n : ℤ)
    → 10 ^ 9 ≤ magnitude n
    → magnitude n < 10 ^ 12
    → to_timepoint (scale 1000 n) ≡ to_timepoint n
unfolding to_timepoint
to_timepoint-scale n lo hi = ground (arith, magnitude-scale 1000 n)

pub has_prefix-append : (p t : Text) → has_prefix p (p ++ t) ≡ true
unfolding has_prefix
has_prefix-append [] t = refl
has_prefix-append (a ∷ p) t = ground (arith, has_prefix-append p t)

pub drop-append : (p t : Text) → drop (length p) (p ++ t) ≡ t
drop-append [] t = refl
drop-append (a ∷ p) t = drop-append p t

has_prefix-split : (p t : Text) → has_prefix p t ≡ true → t ≡ p ++ drop (length p) t
unfolding has_prefix
has_prefix-split [] t h = refl
has_prefix-split (a ∷ p) [] h = cc
has_prefix-split (a ∷ p) (b ∷ t) h = ground (arith, has_prefix-split p t)

-- A token is the prefix followed by its normal form, or it lacks the prefix and is its own normal
-- form.
normalize_lem :
    (parser : Parser) (t : Text)
    → (t ≡ parser.strip_prefix ++ normalize parser t)
      ⊎ ((has_prefix parser.strip_prefix t ≡ false) × (normalize parser t ≡ t))
unfolding normalize
normalize_lem parser t = elim (Bool-cases (has_prefix parser.strip_prefix t)) [
  | inr other ↦ inr (other, rw other (ground arith))
  | inl hit ↦ inl (rw hit (strip parser.strip_prefix hit))
]
  where
    strip :
        (p : Text)
        → has_prefix p t ≡ true
        → t ≡ p ++ (if not (is_empty p) && true then drop (length p) t else t)
    strip [] h = refl
    strip (a ∷ p) h = has_prefix-split (a ∷ p) t h

-- Stripping undoes the prefixing of a token, for every prefix.
pub normalize-append :
    (parser : Parser) (t : Text) → normalize parser (parser.strip_prefix ++ t) ≡ t
unfolding normalize
normalize-append parser t = rw (has_prefix-append parser.strip_prefix t) (strip parser.strip_prefix)
  where
    strip :
        (p : Text) → (if not (is_empty p) && true then drop (length p) (p ++ t) else (p ++ t)) ≡ t
    strip [] = refl
    strip (a ∷ p) = drop-append (a ∷ p) t

module _ {F : Floats} (J : JsonLib F) where
  open J use {Value, parse, is_object, is_array, contains, at}

  -- What the searches by keys go through.
  abbrev pub frame_of : Value → Value
  frame_of j = unwrap_data J (first_of_array J j)

  -- Where two texts parse, the one to an object that is no array and has no "data" member, the other
  -- to a value that is no array and has that object as its "data", they give the same price.
  parse_ltp_wrapped :
      (parser : Parser) (bare wrapped : Text) (j w : Value)
      → parse bare ≡ some j
      → parse wrapped ≡ some w
      → is_array j ≡ false
      → contains j (codes "data") ≡ false
      → is_array w ≡ false
      → contains w (codes "data") ≡ true
      → at w (codes "data") ≡ j
      → is_object j ≡ true
      → parse_ltp J parser wrapped ≡ parse_ltp J parser bare
  unfolding parse_ltp first_of_array unwrap_data
  parse_ltp_wrapped parser bare wrapped j w pb pw aj dj aw dw e oj =
      rw (pb, pw) (ap (read_frame J parser) inner)
    where
      inner : frame_of w ≡ frame_of j
      inner = ground arith
