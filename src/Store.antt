-- ===== src/Store.antt =====
-- src/ltp_store.cpp, include/ltp_store.h: the last price of each token. Each operation holds the
-- store's lock throughout, so the operations of several consumers take place one at a time.
pub mod Latest
mod Tests
use real_time_market_data.Base.{ℕ, List, [], Option, Text, length}
use real_time_market_data.Base.Map.{lookup, upsert}
use real_time_market_data.Json.{Floats}
use real_time_market_data.Parser.{Ltp}

pub record LtpStore (F : Floats) : Type 0 where
  pub entries : List (Text × Ltp F)

module _ {F : Floats} where
  pub empty_store : LtpStore F
  empty_store = record { entries = [] }

  pub store_upsert : Ltp F → LtpStore F → LtpStore F
  store_upsert v s = record { entries = upsert v.token v s.entries }

  pub get : Text → LtpStore F → Option (Ltp F)
  get token s = lookup token s.entries

  snapshot : LtpStore F → List (Text × Ltp F)
  snapshot s = s.entries

  pub size : LtpStore F → ℕ
  size s = length s.entries
