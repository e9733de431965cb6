-- ===== src/Subscription.antt =====
-- src/subscription_manager.cpp, include/subscription_manager.h: what a connection should be subscribed
-- to and what it is, and the payloads that close the gap. Each operation holds the mutex, so the
-- operations take place one at a time. An unordered set is the list of its texts in the order of
-- its iteration; what is proved of a state holds whatever that order is.
pub mod Sets
pub mod Payloads
pub mod TokenSets
pub mod Order
mod Tests
use real_time_market_data.Base.{
  ℕ, Bool, true, false, List, [], ◌∷◌, ◌++◌, Option, none, some, Text, codes, map, ◌==◌,
  if◌then◌else◌,
}
use real_time_market_data.Base.Map.{contains, insert, erase}
use real_time_market_data.Batches.{cut, effective}
use real_time_market_data.Json.{Floats, JsonLib}

pub data Mode : Type 0 where
  ltp quote full : Mode

pub record Manager : Type 0 where
  pub mode : Mode
  pub batch_size : ℕ
  -- std::function, which may be empty
  pub token_formatter : Option (Text → Text)
  pub desired : List Text
  pub active : List Text

unfoldable pub init : Mode → ℕ → Option (Text → Text) → Manager
init mode batch_size fmt = record {
  mode = mode;
  batch_size = effective 100 batch_size;
  token_formatter = fmt;
  desired = [];
  active = [];
}

-- `for (auto& t : tokens) set.insert(t)`, and with `erase`.
pub insert_all : List Text → List Text → List Text
insert_all [] set = set
insert_all (t ∷ ts) set = insert_all ts (insert t set)

pub erase_all : List Text → List Text → List Text
erase_all [] set = set
erase_all (t ∷ ts) set = erase_all ts (erase t set)

pub add : Text → Manager → Manager
add t m = record m { desired = insert t m.desired }

unfoldable pub add_many : List Text → Manager → Manager
add_many ts m = record m { desired = insert_all ts m.desired }

pub remove : Text → Manager → Manager
remove t m = record m { desired = erase t m.desired }

pub clear : Manager → Manager
clear m = record m { desired = [] }

pub set_mode : Mode → Manager → Manager
set_mode mode m = record m { mode = mode }

pub set_batch_size : ℕ → Manager → Manager
set_batch_size n m = record m { batch_size = effective 100 n }

pub set_token_formatter : Option (Text → Text) → Manager → Manager
set_token_formatter fmt m = record m { token_formatter = fmt }

pub mark_subscribed : List Text → Manager → Manager
mark_subscribed ts m = record m { active = insert_all ts m.active }

pub mark_unsubscribed : List Text → Manager → Manager
mark_unsubscribed ts m = record m { active = erase_all ts m.active }

pub desired_snapshot : Manager → List Text
desired_snapshot m = m.desired

pub active_snapshot : Manager → List Text
active_snapshot m = m.active

-- The texts of one set that the other has not.
pub difference : List Text → List Text → List Text
difference [] other = []
difference (t ∷ ts) other =
    let rest = difference ts other in if contains t other then rest else t ∷ rest

pub diff_desired_minus_active : Manager → List Text
unfolding difference
diff_desired_minus_active m = difference m.desired m.active

pub diff_active_minus_desired : Manager → List Text
unfolding difference
diff_active_minus_desired m = difference m.active m.desired

mode_string : Mode → Text
mode_string ltp = codes "ltp"
mode_string quote = codes "quote"
mode_string full = codes "full"

fmt_token : Manager → Text → Text
fmt_token m t = elim m.token_formatter [ some fmt ↦ fmt t | none ↦ t ]

pub make_batches : Manager → List Text → List (List Text)
unfolding cut
make_batches m items = cut 100 items m.batch_size

module _ {F : Floats} (J : JsonLib F) where
  open J use {of_string, of_strings, of_fields, dump}

  -- For texts that are UTF-8, where `dump` does not throw (see the header of the library).
  pub build_payload : Manager → List Text → Bool → Text
  unfolding mode_string fmt_token
  build_payload m batch subscribe = dump (
      of_fields (
        (codes "action", of_string (if subscribe then codes "subscribe" else codes "unsubscribe"))
        ∷ (codes "mode", of_string (mode_string m.mode))
        ∷ (codes "tokens", of_strings (map (fmt_token m) batch))
        ∷ []))

  pub payloads : Manager → Bool → List (List Text) → List Text
  payloads m subscribe [] = []
  payloads m subscribe (batch ∷ batches) =
      build_payload m batch subscribe ∷ payloads m subscribe batches

  pub build_subscribe_batches : Manager → List Text
  build_subscribe_batches m = payloads m true (make_batches m (diff_desired_minus_active m))

  pub build_unsubscribe_batches : Manager → List Text
  build_unsubscribe_batches m = payloads m false (make_batches m (diff_active_minus_desired m))
