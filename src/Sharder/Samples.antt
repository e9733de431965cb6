-- ===== src/Sharder/Samples.antt =====
-- A sharder of three tokens, two to a connection, for the tests.
use real_time_market_data.Base.{false, List, [], ◌∷◌, Text, codes}
use real_time_market_data.Parser.{Parser}
use real_time_market_data.Samples.{Whole}
use real_time_market_data.Store.{empty_store}
use real_time_market_data.Sharder.Workers.{default_options}
use real_time_market_data.Sharder.{Sharder}

abbrev pub parser : Parser
parser = record { strip_prefix = codes "nse_cm|" }

abbrev pub tokens : List Text
tokens = codes "7" ∷ codes "8" ∷ codes "9" ∷ []

abbrev pub sharder : Sharder Whole
sharder = record {
  parser = parser;
  store = empty_store;
  opts = record (default_options (codes "wss://feed.in")) { max_tokens_per_conn = 2 };
  auth_header_value = codes "key";
  common_headers = (codes "x", codes "y") ∷ [];
  desired_tokens = tokens;
  workers = [];
  running = false;
}
