-- ===== src/Config/Load.antt =====
-- When a configuration is accepted.
use real_time_market_data.Base.{◌≡◌, ◌∙◌, ◌↔◌, Option, some, some-bind, Text, codes}
use real_time_market_data.Json.{Floats, JsonLib}
use real_time_market_data.Config.{Config, field, read_config, load_from_file}

module _ {F : Floats} (J : JsonLib F) where
  open J use {Value, parse_stream, as_string, as_strings, as_counts}

  -- The five settings stand in a value, each with its type.
  pub record Holds (j : Value) (c : Config) : Type 0 where
    pub api_key : field J as_string j (codes "api_key") ≡ some c.api_key
    pub client_id : field J as_string j (codes "client_id") ≡ some c.client_id
    pub client_secret : field J as_string j (codes "client_secret") ≡ some c.client_secret
    pub tokens : field J as_strings j (codes "tokens") ≡ some c.tokens
    pub splits : field J as_counts j (codes "splits") ≡ some c.splits

  read_config-Holds : (j : Value) (c : Config) → read_config J j ≡ some c → Holds j c
  unfolding read_config
  read_config-Holds j c h =
      let (a, ha, h1) = some-bind (field J as_string j (codes "api_key")) _ h in
      let (b, hb, h2) = some-bind (field J as_string j (codes "client_id")) _ h1 in
      let (s, hs, h3) = some-bind (field J as_string j (codes "client_secret")) _ h2 in
      let (t, ht, h4) = some-bind (field J as_strings j (codes "tokens")) _ h3 in
      let (n, hn, h5) = some-bind (field J as_counts j (codes "splits")) _ h4 in
      record {
        api_key = ha ∙ cc h5;
        client_id = hb ∙ cc h5;
        client_secret = hs ∙ cc h5;
        tokens = ht ∙ cc h5;
        splits = hn ∙ cc h5;
      }

  Holds-read_config : (j : Value) (c : Config) → Holds j c → read_config J j ≡ some c
  unfolding read_config
  Holds-read_config j c h = rw (h.api_key, h.client_id, h.client_secret, h.tokens, h.splits)

  -- Loading gives a configuration exactly when the file can be opened, its text is JSON, and the
  -- three texts, the list of tokens and the map of splits all stand in it with their types; every
  -- other case is an exception.
  pub load_from_file_iff :
      (file : Option Text) (c : Config)
      → (load_from_file J file ≡ some c) ↔ (
          (text : Text) × (j : Value) × (file ≡ some text)
          × (parse_stream text ≡ some j)
          × Holds j c)
  unfolding load_from_file
  load_from_file_iff file c = (
    λ h.
        let (text, opened, h1) = some-bind file _ h in
        let (j, parsed, h2) = some-bind (parse_stream text) _ h1 in
        (text, j, opened, parsed, read_config-Holds j c h2),
    λ (text, j, opened, parsed, held). rw (opened, parsed) (Holds-read_config j c held),
  )
