-- ===== src/Sharder/Life.antt =====
-- The life of a sharder: any sequence of its operations, compared with what a client may expect of it.
pub mod Staff
pub mod Kept
pub mod Headers
mod Tests
use real_time_market_data.Base.{
  ℕ, zero, suc, ◌+◌, ◌-◌, ◌/◌, ◌^◌, ◌<◌, ◌≡◌, refl, sym, ap, ◌∙◌, Bool, true, false, List, [], ◌∷◌,
  ◌++◌, Option, none, some, some_inj, Text, length, max, modify, arith, is_some,
}
use real_time_market_data.Base.Word.{word_mod}
use real_time_market_data.Batches.{effective}
use real_time_market_data.Json.{Floats, JsonLib}
use real_time_market_data.WebSocket.{Moment}
use real_time_market_data.Sharder.Workers.{Options, Worker, worker_run}
use real_time_market_data.Sharder.{
  Sharder, Environment, Stopping, start, stop, set_tokens, set_access_token, set_common_headers,
  debug_broadcast_text, broadcast, running, num_workers, desired_tokens_snapshot,
}
use real_time_market_data.Sharder.Shards.{all_tokens}

-- The operations, with what the network and the threads do meanwhile, and what a worker's thread does
-- between two operations.
pub data Op : Type 0 where
  gets_token : Text → Op
  gets_headers : List (Text × Text) → Op
  gets_tokens : List Text → Op
  starts : List Environment → Op
  stops : List (List Moment) → List (List Moment) → Op
  broadcasts : Text → List Bool → Op
  runs : ℕ → List Moment → List Bool → Op

-- What a client knows: the list it has set, and the one that the workers have, if there are any.
pub record Plan : Type 0 where
  pub wanted : List Text
  pub live : Option (List Text)

abbrev pub nothing_planned : Plan
nothing_planned = record { wanted = []; live = none }

pub planned : Op → Plan → Plan
planned (gets_tokens tokens) p = record p { wanted = tokens }
planned (starts env) p = record p {
  live = elim p.live [ some tokens ↦ some tokens | none ↦ some p.wanted ];
}
planned (stops env later) p = record p { live = none }
planned _ p = p

pub planned_all : List Op → Plan → Plan
unfolding planned
planned_all [] p = p
planned_all (o ∷ os) p = planned_all os (planned o p)

abbrev pub IsSmall : Op → Type 0
IsSmall (gets_tokens tokens) = length tokens < 2 ^ 63
IsSmall _ = Unit {0}

abbrev pub is_stop : Op → Bool
is_stop (stops env later) = true
is_stop _ = false

-- A sharder that its client can go on with; one in a stop whose join does not return; and the ends of
-- the program by std::terminate, in a stop or in a start.
pub data Life (F : Floats) : Type 0 where
  alive : Sharder F → Life F
  stuck ended crashed : Life F

module _ {F : Floats} where
  -- The workers have the live list.
  abbrev pub Shared : ℕ → Option (List Text) → List (Worker F) → Type 0
  Shared n none ws = ws ≡ []
  Shared n (some tokens) ws =
      (all_tokens ws ≡ tokens) × (length ws ≡ max 1 ((length tokens + n - 1) / n))

  pub record Follows (opts : Options) (s : Sharder F) (p : Plan) : Type 0 where
    pub same_opts : s.opts ≡ opts
    pub small : length p.wanted < 2 ^ 63
    pub wanted : desired_tokens_snapshot s ≡ p.wanted
    pub up : running s ≡ is_some p.live
    pub shared : Shared (effective 800 opts.max_tokens_per_conn) p.live s.workers

module _ {F : Floats} (J : JsonLib F) where
  pub operate : Op → Sharder F → Life F
  operate (gets_token value) s = alive (set_access_token value s)
  operate (gets_headers headers) s = alive (set_common_headers headers s)
  operate (gets_tokens tokens) s = alive (set_tokens tokens s).0
  operate (starts env) s = elim (start J env s) [ none ↦ crashed | some (t, b) ↦ alive t ]
  operate (stops env later) s =
      let (how, t) = stop J env later s in
      elim how [ Stopping.stopped ↦ alive t | Stopping.waits ↦ stuck | Stopping.terminates ↦ ended ]
  operate (broadcasts payload writes) s = alive (debug_broadcast_text J payload writes s).1
  operate (runs i ms writes) s =
      alive (record s { workers = modify i (λ w. (worker_run J ms writes w).1) s.workers })

  pub operate_all : List Op → Sharder F → Life F
  unfolding operate
  operate_all [] s = alive s
  operate_all (o ∷ os) s = elim (operate o s) [
    | alive t ↦ operate_all os t
    | stuck ↦ stuck
    | ended ↦ ended
    | crashed ↦ crashed
  ]
