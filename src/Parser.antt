-- ===== src/Parser.antt =====
-- src/parser.cpp, include/parser.h: one frame of the feed, read into a last traded price.
pub mod Keys
pub mod Accepted
pub mod Frame
mod Tests
use real_time_market_data.Base.{
  ℕ, ◌*◌, ◌^◌, ◌+◌, Bool, true, false, not, ◌&&◌, ◌||◌, Option, none, some, List, [], ◌∷◌, Text,
  codes, ◌==◌, ◌>>=◌, or_else, is_empty, leb, if◌then◌else◌, length, drop, map,
}
use real_time_market_data.Base.Int.{ℤ, pos, scale, magnitude, stoll}
use real_time_market_data.Json.{Floats, JsonLib}

-- A time_point, in milliseconds since the epoch; the clock's finer ticks do not occur.
pub record TimePoint : Type 0 where
  pub ms : ℤ

pub record Ltp (F : Floats) : Type 0 where
  pub token : Text
  pub ltp : F.Double
  pub ts : TimePoint

pub record Parser : Type 0 where
  pub strip_prefix : Text

set_strip_prefix : Text → Parser → Parser
set_strip_prefix p parser = record parser { strip_prefix = p }

-- Milliseconds from 10 ^ 12 on, in absolute value; seconds below. The conversion to the nanoseconds of
-- the system clock, which overflows its 64 bits from some 9.2 * 10 ^ 12 milliseconds on, is left out.
pub to_timepoint : ℤ → TimePoint
to_timepoint ts =
    if leb (10 ^ 12) (magnitude ts) then record { ms = ts } else record { ms = scale 1000 ts }

-- `s.rfind(p, 0) == 0`
unfoldable pub has_prefix : Text → Text → Bool
has_prefix [] s = true
has_prefix (_ ∷ _) [] = false
has_prefix (a ∷ p) (b ∷ s) = (a == b) && has_prefix p s

-- The token after the optional strip.
pub normalize : Parser → Text → Text
unfolding has_prefix
normalize parser token =
    if not (is_empty parser.strip_prefix) && has_prefix parser.strip_prefix token
    then drop (length parser.strip_prefix) token
    else token

abbrev pub token_keys : List Text
token_keys = map codes ("token" ∷ "symbol" ∷ "tradingsymbol" ∷ "instrument_token" ∷ "tokenID" ∷ [])

abbrev pub price_keys : List Text
price_keys = map codes ("ltp" ∷ "last_price" ∷ "lastPrice" ∷ "price" ∷ "trade_price" ∷ [])

abbrev pub ts_keys : List Text
ts_keys = map codes ("exchange_timestamp" ∷ "timestamp" ∷ "ts" ∷ "time" ∷ "epoch" ∷ [])

module _ {F : Floats} (J : JsonLib F) where
  open F use {Double, of_integer, to_integer, stod}
  open J use {
    Value, parse, is_object, is_array, is_string, is_number_integer, is_number_float, front,
    contains, at, get_string, get_integer, get_double, dump,
  }

  -- What one value gives as a text, as a number and as a time, where it can.
  pub string_of : Value → Option Text
  string_of v =
      if is_string v
      then some (get_string v)
      else if is_number_integer v || is_number_float v
      then some (dump v)
      else none

  pub number_of : Value → Option Double
  number_of v =
      if is_number_float v
      then some (get_double v)
      else if is_number_integer v
      then some (of_integer (get_integer v))
      else if is_string v
      then stod (get_string v)
      else none

  pub time_of : Value → Option ℤ
  unfolding stoll
  time_of v =
      if is_number_integer v
      then some (get_integer v)
      else if is_number_float v
      then some (to_integer (get_double v))
      else if is_string v
      then stoll (get_string v)
      else none

  -- The loops over the keys: the first key that is there with a usable value returns.
  pub get_string_any : Value → List Text → Option Text
  unfolding string_of
  get_string_any j [] = none
  get_string_any j (k ∷ ks) =
      let rest = get_string_any j ks in
      if contains j k then or_else (string_of (at j k)) rest else rest

  pub get_number_any : Value → List Text → Option Double
  unfolding number_of
  get_number_any j [] = none
  get_number_any j (k ∷ ks) =
      let rest = get_number_any j ks in
      if contains j k then or_else (number_of (at j k)) rest else rest

  pub get_time_any : Value → List Text → Option ℤ
  unfolding time_of
  get_time_any j [] = none
  get_time_any j (k ∷ ks) =
      let rest = get_time_any j ks in if contains j k then or_else (time_of (at j k)) rest else rest

  -- An array stands for its first entry, and a "data" member for the frame.
  pub first_of_array : Value → Value
  first_of_array j = if is_array j && not (J.is_empty j) then front j else j

  pub unwrap_data : Value → Value
  unwrap_data j =
      if contains j (codes "data")
      then (let d = at j (codes "data") in
          if is_object d then d else if is_array d && not (J.is_empty d) then front d else j)
      else j

  pub read_frame : Parser → Value → Option (Ltp F)
  read_frame parser j = do
    token ← get_string_any j token_keys
    price ← get_number_any j price_keys
    some (record {
      token = normalize parser token;
      ltp = price;
      ts = elim (get_time_any j ts_keys) [
        | some raw ↦ to_timepoint raw
        | none ↦ record { ms = pos 0 }
      ];
    })

  pub parse_ltp : Parser → Text → Option (Ltp F)
  parse_ltp parser text = do j ← parse text; read_frame parser (unwrap_data (first_of_array j))
