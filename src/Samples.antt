-- ===== src/Samples.antt =====
-- A small JSON library and number type, concrete ones for the parameters of `Json`, and a few frames.
-- They let the tests run the definitions; nothing is proved from them.
use real_time_market_data.Base.{
  ℕ, refl, Bool, true, false, not, List, [], ◌∷◌, ◌++◌, Option, none, some, Text, text_eq, codes,
  ◌==◌, ◌||◌, if◌then◌else◌, ◌>>=◌,
}
use real_time_market_data.Base.Int.{ℤ, pos}
use real_time_market_data.Json.{Floats, JsonLib}
use real_time_market_data.Http.{Beast}
use real_time_market_data.Http.Headers.{FieldLaws, same_name}
use real_time_market_data.Http as Http

-- Whole numbers in place of doubles.
abbrev pub Whole : Floats
Whole = record { Double = ℤ; of_integer = λ z. z; to_integer = λ z. z; stod = λ s. none }

mutual
  pub data Value : Type 0 where
    null : Value
    text : Text → Value
    number : ℤ → Value
    array : Values → Value
    object : Fields → Value

  pub data Values : Type 0 where
    no_values : Values
    item : Value → Values → Values

  pub data Fields : Type 0 where
    no_fields : Fields
    field : Text → Value → Fields → Fields

abbrev pub find : Text → Fields → Option Value
find k no_fields = none
find k (field j v fs) = let rest = find k fs in if text_eq j k then some v else rest

abbrev find_in : Value → Text → Option Value
find_in (object fs) k = find k fs
find_in _ k = none

abbrev pub texts : List Text → Values
texts [] = no_values
texts (t ∷ ts) = item (text t) (texts ts)

abbrev pub fields : List (Text × Value) → Fields
fields [] = no_fields
fields ((k, v) ∷ kvs) = field k v (fields kvs)

abbrev mutual
  -- A text that tells values apart, in place of the library's own.
  pub dump : Value → Text
  dump null = codes "null"
  dump (text t) = b'"' ∷ t ++ b'"' ∷ []
  dump (number z) = codes "0"
  dump (array vs) = b'[' ∷ dump_values vs
  dump (object fs) = b'{' ∷ dump_fields fs

  dump_values : Values → Text
  dump_values no_values = b']' ∷ []
  dump_values (item v vs) = dump v ++ b',' ∷ dump_values vs

  dump_fields : Fields → Text
  dump_fields no_fields = b'}' ∷ []
  dump_fields (field k v fs) = b'"' ∷ k ++ b'"' ∷ b':' ∷ dump v ++ b',' ∷ dump_fields fs

abbrev pub quote_value : Value
quote_value = object (
    field (codes "token") (text (codes "nse_cm|7"))
      (field (codes "ltp") (number (pos 101)) no_fields))

-- A frame, the same in a "data" member, one without a price, and no JSON.
abbrev pub quote_frame : Text
quote_frame = codes "{\"token\":\"nse_cm|7\",\"ltp\":101}"

abbrev pub wrapped_frame : Text
wrapped_frame = codes "{\"data\":{\"token\":\"nse_cm|7\",\"ltp\":101}}"

abbrev pub priceless_frame : Text
priceless_frame = codes "{\"token\":\"nse_cm|7\"}"

abbrev pub noise : Text
noise = codes "{"

-- A login response without and one with a time to live, and a configuration file.
abbrev pub login_body : Text
login_body = codes "{\"data\":{\"jwtToken\":\"j\",\"refreshToken\":\"r\"}}"

abbrev pub timed_body : Text
timed_body = codes "{\"data\":{\"jwtToken\":\"j\",\"refreshToken\":\"r\",\"expiresIn\":3600}}"

abbrev pub granted_value : Fields → Value
granted_value more = object (
    field (codes "jwtToken") (text (codes "j"))
      (field (codes "refreshToken") (text (codes "r")) more))

abbrev pub timed_value : Value
timed_value = granted_value (field (codes "expiresIn") (number (pos 3600)) no_fields)

-- One whose feed token is no text.
abbrev pub torn_body : Text
torn_body = codes "{\"data\":{\"jwtToken\":\"j\",\"refreshToken\":\"r\",\"feedToken\":null}}"

abbrev pub settings : Text
settings =
    codes
      "{\"api_key\":\"k\",\"client_id\":\"c\",\"client_secret\":\"s\",\"tokens\":[\"7\"],\"splits\":{\"a\":1}}"

abbrev settings_value : Value
settings_value = object (
    field (codes "api_key") (text (codes "k")) (
      field (codes "client_id") (text (codes "c")) (
        field (codes "client_secret") (text (codes "s")) (
          field (codes "tokens") (array (item (text (codes "7")) no_values)) (
            field (codes "splits") (object (field (codes "a") (number (pos 1)) no_fields))
              no_fields)))))

abbrev pub parse : Text → Option Value
parse t =
    if text_eq t quote_frame
    then some quote_value
    else if text_eq t wrapped_frame
    then some (object (field (codes "data") quote_value no_fields))
    else if text_eq t priceless_frame
    then some (object (field (codes "token") (text (codes "nse_cm|7")) no_fields))
    else if text_eq t login_body
    then some (object (field (codes "data") (granted_value no_fields) no_fields))
    else if text_eq t timed_body
    then some (object (field (codes "data") timed_value no_fields))
    else if text_eq t torn_body
    then some (
        object (
          field (codes "data") (granted_value (field (codes "feedToken") null no_fields))
            no_fields))
    else if text_eq t settings
    then some settings_value
    else none

abbrev read_text : Value → Option Text
read_text (text t) = some t
read_text _ = none

abbrev read_texts : Values → Option (List Text)
read_texts no_values = some []
read_texts (item v vs) = do t ← read_text v; ts ← read_texts vs; some (t ∷ ts)

abbrev read_number : Value → Option ℤ
read_number (number z) = some z
read_number _ = none

abbrev read_counts : Fields → Option (List (Text × ℤ))
read_counts no_fields = some []
read_counts (field k v fs) = do z ← read_number v; rest ← read_counts fs; some ((k, z) ∷ rest)

abbrev has_byte : ℕ → Text → Bool
has_byte c [] = false
has_byte c (d ∷ t) = (d == c) || has_byte c t

abbrev pub Small : JsonLib Whole
Small = record {
  Value = Value;
  parse = parse;
  is_object = λ v. elim v [ object fs ↦ true | _ ↦ false ];
  is_array = λ v. elim v [ array vs ↦ true | _ ↦ false ];
  is_string = λ v. elim v [ text t ↦ true | _ ↦ false ];
  is_number_integer = λ v. elim v [ number z ↦ true | _ ↦ false ];
  is_number_float = λ v. false;
  is_empty =
      λ v. elim v [ array no_values ↦ true | object no_fields ↦ true | null ↦ true | _ ↦ false ];
  front = λ v. elim v [ array (item w ws) ↦ w | _ ↦ null ];
  contains = λ v k. elim (find_in v k) [ none ↦ false | some w ↦ true ];
  at = λ v k. elim (find_in v k) [ none ↦ null | some w ↦ w ];
  get_string = λ v. elim v [ text t ↦ t | _ ↦ [] ];
  get_integer = λ v. elim v [ number z ↦ z | _ ↦ pos 0 ];
  get_double = λ v. elim v [ number z ↦ z | _ ↦ pos 0 ];
  -- The byte 255 is in no UTF-8 text.
  is_utf8 = λ v. not (has_byte 255 (dump v));
  dump = dump;
  parse_stream = parse;
  find_at = find_in;
  as_string = read_text;
  as_strings = λ v. elim v [ array vs ↦ read_texts vs | _ ↦ none ];
  as_counts = λ v. elim v [ object fs ↦ read_counts fs | _ ↦ none ];
  value_or = λ v k d. elim (find_in v k) [ none ↦ some d | some w ↦ read_text w ];
  of_string = text;
  of_strings = λ ts. array (texts ts);
  of_fields = λ kvs. object (fields kvs);
}

-- A network in which all goes well and every request has the same answer.
abbrev pub answering : ℕ → Text → Beast
answering status body = record {
  Fields = List (Text × Text);
  no_fields = [];
  set = λ k v fs. (k, v) ∷ fs;
  prepare_payload = λ req. req;
  Context = Unit;
  Addresses = Unit;
  Stream = Unit;
  new_context = some tt;
  load_verify_file = λ file c. some c;
  set_verify_peer = λ b c. some c;
  resolve = λ host port. some tt;
  connect = λ c ms found. some tt;
  set_host_name = λ host s. some s;
  handshake = λ s. some s;
  exchange = λ req s. some (status, body, []);
}

abbrev find_field : Text → List (Text × Text) → Option Text
find_field k [] = none
find_field k ((j, v) ∷ fs) = if same_name j k then some v else find_field k fs

abbrev pub laws : (status : ℕ) (body : Text) → FieldLaws (answering status body)
laws status body = record {
  find = find_field;
  find-set = λ j k v fs. refl;
  keeps_method = λ r. refl;
  keeps_target = λ r. refl;
  keeps_body = λ r. refl;
}

abbrev pub default_options : Http.Options
default_options = record {
  timeout = 10000;
  verify_peer = true;
  ca_file = [];
  user_agent = codes "alpha-http/1.0";
  default_headers = [];
}
