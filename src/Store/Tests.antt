-- ===== src/Store/Tests.antt =====
-- A store with two writes of one token.
use real_time_market_data.Base.{ℕ, ◌≡◌, refl, List, [], ◌∷◌, Text, codes, some}
use real_time_market_data.Base.Int.{pos}
use real_time_market_data.Samples.{Whole}
use real_time_market_data.Parser.{Ltp}
use real_time_market_data.Store.{empty_store, store_upsert, get}
use real_time_market_data.Store.Latest.{write_all}
use real_time_market_data.Base.Map.{upsert}

abbrev price : Text → ℕ → Ltp Whole
price token n = record { token = token; ltp = pos n; ts = record { ms = pos 0 } }

abbrev writes : List (Ltp Whole)
writes = price (codes "7") 100 ∷ price (codes "8") 50 ∷ price (codes "7") 101 ∷ []

last_price : get (codes "7") (write_all empty_store writes) ≡ some (price (codes "7") 101)
unfolding write_all get store_upsert upsert empty_store
last_price = refl
