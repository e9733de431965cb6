-- ===== src/Config/Tests.antt =====
-- A configuration file that has all five settings.
use real_time_market_data.Base.{◌≡◌, ◌↔◌, refl, [], ◌∷◌, some, Text, codes}
use real_time_market_data.Base.Int.{pos}
use real_time_market_data.Samples.{Value, Small, parse, settings}
use real_time_market_data.Config.{Config, load_from_file}
use real_time_market_data.Config.Load.{Holds, load_from_file_iff}

abbrev config : Config
config = record {
  api_key = codes "k";
  client_id = codes "c";
  client_secret = codes "s";
  tokens = codes "7" ∷ [];
  splits = (codes "a", pos 1) ∷ [];
}

load_from_file_iff_example : (load_from_file Small (some settings) ≡ some config) ↔ (
    (text : Text) × (j : Value) × (some settings ≡ some text)
    × (parse text ≡ some j)
    × Holds Small j config)
load_from_file_iff_example = load_from_file_iff Small (some settings) config

config-settings : load_from_file Small (some settings) ≡ some config
unfolding load_from_file
config-settings = refl
