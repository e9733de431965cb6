-- ===== src/Config.antt =====
-- src/config.cpp, include/config.h: the settings, from a JSON file.
pub mod Load
mod Tests
use real_time_market_data.Base.{List, Option, none, some, Text, codes, ◌>>=◌}
use real_time_market_data.Base.Int.{ℤ}
use real_time_market_data.Json.{Floats, JsonLib}

-- `api_key_`, `client_id_`, `client_secret_`, `tokens_` and `splits_`.
pub record Config : Type 0 where
  pub api_key : Text
  pub client_id : Text
  pub client_secret : Text
  pub tokens : List Text
  pub splits : List (Text × ℤ)

module _ {F : Floats} (J : JsonLib F) where
  open J use {Value, parse_stream, find_at, as_string, as_strings, as_counts}

  -- `j.at(key).get<T>()`
  pub field {ℓ} : {A : Type ℓ} → (Value → Option A) → Value → Text → Option A
  field read j key = do v ← find_at j key; read v

  pub read_config : Value → Option Config
  unfolding field
  read_config j = do
    api_key ← field as_string j (codes "api_key")
    client_id ← field as_string j (codes "client_id")
    client_secret ← field as_string j (codes "client_secret")
    tokens ← field as_strings j (codes "tokens")
    splits ← field as_counts j (codes "splits")
    some (record {
      api_key = api_key;
      client_id = client_id;
      client_secret = client_secret;
      tokens = tokens;
      splits = splits;
    })

  -- `file` is what the path leads to, if it can be opened; `none` is an exception.
  pub load_from_file : Option Text → Option Config
  unfolding read_config
  load_from_file file = do text ← file; j ← parse_stream text; read_config j
