-- ===== src/Json.antt =====
-- What the sources use of nlohmann::json and of `double`, neither of which is under the repository's
-- own files: parameters of the model.
use real_time_market_data.Base.{Bool, List, Option, Text}
use real_time_market_data.Base.Int.{ℤ}

-- A `double` and the standard conversions to and from it.
pub record Floats : Type 1 where
  pub Double : Type 0
  -- static_cast<double>(long long) and static_cast<long long>(double)
  pub of_integer : ℤ → Double
  pub to_integer : Double → ℤ
  -- std::stod, with `none` for its exceptions
  pub stod : Text → Option Double

-- A JSON value and the member functions that the sources call. `parse` is `none` where json::parse
-- throws; `get_…` is called only after the test of its type.
pub record JsonLib (F : Floats) : Type 1 where
  pub Value : Type 0
  pub parse : Text → Option Value
  pub is_object : Value → Bool
  pub is_array : Value → Bool
  pub is_string : Value → Bool
  pub is_number_integer : Value → Bool
  pub is_number_float : Value → Bool
  pub is_empty : Value → Bool
  pub front : Value → Value
  pub contains : Value → Text → Bool
  pub at : Value → Text → Value
  pub get_string : Value → Text
  pub get_integer : Value → ℤ
  pub get_double : Value → F.Double
  -- Whether every text in the value is UTF-8: `dump` throws type_error.316 on one that is not.
  pub is_utf8 : Value → Bool
  pub dump : Value → Text
  -- operator>> of a stream, at(key), get<T>() and value(key, default), with `none` where they throw
  pub parse_stream : Text → Option Value
  pub find_at : Value → Text → Option Value
  pub as_string : Value → Option Text
  pub as_strings : Value → Option (List Text)
  pub as_counts : Value → Option (List (Text × ℤ))
  pub value_or : Value → Text → Text → Option Text
  -- values built by assignment and by initialiser lists
  pub of_string : Text → Value
  pub of_strings : List Text → Value
  pub of_fields : List (Text × Value) → Value
