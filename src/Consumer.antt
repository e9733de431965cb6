-- ===== src/Consumer.antt =====
-- src/consumer.cpp, include/consumer.h: the thread that drains a queue of frames into the store.
-- A turn is one round of the thread's loop. Frames arrive, turns run and the flag is set between
-- turns, in the order of a list of events.
pub mod Pipeline
pub mod Drain
pub mod Halves
mod Tests
use real_time_market_data.Base.{
  ℕ, Bool, true, false, List, [], ◌∷◌, ◌++◌, Option, none, some, Text, if◌then◌else◌,
}
use real_time_market_data.Json.{Floats, JsonLib}
use real_time_market_data.Ingest.{IngestQueue, try_push, try_pop}
use real_time_market_data.Parser.{Parser, Ltp, parse_ltp}
use real_time_market_data.Store.{LtpStore, store_upsert}

-- `msg` is the loop's local variable; `sunk` is what the sink was called with, in order, if there is
-- one; `joinable` says that a thread was started and not joined.
pub record Consumer (F : Floats) : Type 0 where
  pub parser : Parser
  pub queue : IngestQueue
  pub store : LtpStore F
  pub has_sink : Bool
  pub sunk : List (Ltp F)
  pub running : Bool
  pub joinable : Bool
  pub msg : Text

module _ {F : Floats} where
  unfoldable pub init : IngestQueue → Parser → LtpStore F → Consumer F
  init q parser store = record {
    parser = parser;
    queue = q;
    store = store;
    has_sink = false;
    sunk = [];
    running = false;
    joinable = false;
    msg = [];
  }

  set_sink : Consumer F → Consumer F
  set_sink c = record c { has_sink = true }

  -- `exchange` returns the old flag; a thread is started if it was down.
  unfoldable pub start : Consumer F → Consumer F × Bool
  start c =
      if c.running
      then (c, true)
      else (record c { running = true; joinable = true; msg = [] }, true)

  -- The join waits for the turn that is under way; no turn follows, since the flag is down.
  unfoldable pub stop : Consumer F → Consumer F
  stop c = if c.running then record c { running = false; joinable = false } else c

module _ {F : Floats} (J : JsonLib F) where
  -- The end of a round, once a frame was taken.
  pub ingest : Consumer F → Option (Ltp F) → Consumer F
  ingest c none = c
  ingest c (some v) = record c {
    store = store_upsert v c.store;
    sunk = if c.has_sink then c.sunk ++ v ∷ [] else c.sunk;
  }

  -- One round of `run`: the flag is tested, a frame is taken, parsed and stored.
  pub turn : Consumer F → Consumer F
  unfolding ingest
  turn c =
      if c.running
      then (let (found, msg, q) = try_pop c.msg c.queue in
          let taken = record c { queue = q; msg = msg } in
          if found then ingest taken (parse_ltp J c.parser msg) else taken)
      else c

module _ {F : Floats} where
  -- The part of a round before the store is written: the frame that was taken, if there is one.
  pub take_frame : Consumer F → Option Text × Consumer F
  take_frame c =
      if c.running
      then (let (found, msg, q) = try_pop c.msg c.queue in
          (if found then some msg else none, record c { queue = q; msg = msg }))
      else (none, c)
