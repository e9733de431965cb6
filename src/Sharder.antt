-- ===== src/Sharder.antt =====
-- src/sharder.cpp, include/sharder.h: the tokens shared out over workers, each a connection with its
-- subscription manager, its queue and its consumer, over one parser and one store.
-- What the network and the workers' threads do is a list of moments (see `WebSocket`) for each worker.
pub mod Workers
pub mod Shards
pub mod Subscribing
pub mod Launch
pub mod Shutdown
pub mod Wiring
pub mod Feeding
pub mod Books
pub mod Steps
pub mod Prices
pub mod Needs
pub mod Drain
pub mod Life
pub mod Handshakes
pub mod Arrival
mod Samples
mod Tests
use real_time_market_data.Base.{
  ℕ, Bool, true, false, not, List, [], ◌∷◌, ◌++◌, Option, none, some, Text, codes, map, is_empty,
  length, if◌then◌else◌, ◌||◌, ◌>>=◌, get_elem?, set, modify,
}
use real_time_market_data.Base.Map.{put}
use real_time_market_data.Batches.{cut}
use real_time_market_data.Json.{Floats, JsonLib}
use real_time_market_data.Parser.{Parser}
use real_time_market_data.Store.{LtpStore}
use real_time_market_data.WebSocket.{Moment, send_text}
use real_time_market_data.Consumer.{Consumer, turn}
use Workers.{
  Options, Worker, make_worker, start_consumer, start_socket, stop_consumer, send_subscribes,
  worker_run, close_ws, destroy_ws, Closing, closed, waiting, terminated,
}

pub record Sharder (F : Floats) : Type 0 where
  pub parser : Parser
  pub store : LtpStore F
  pub opts : Options
  pub auth_header_value : Text
  pub common_headers : List (Text × Text)
  pub desired_tokens : List Text
  pub workers : List (Worker F)
  pub running : Bool

-- Which pieces of a token list go to one connection each.
pub shard : List Text → ℕ → List (List Text)
unfolding cut
shard tokens max_per_conn = cut 800 tokens max_per_conn

-- One worker for each shard, and an idle one where there is none.
pub shards_or_idle : List (List Text) → List (List Text)
shards_or_idle [] = [] ∷ []
shards_or_idle (tokens ∷ shards) = tokens ∷ shards

module _ {F : Floats} where
  pub init : Parser → LtpStore F → Options → Sharder F
  init parser store opts = record {
    parser = parser;
    store = store;
    opts = opts;
    auth_header_value = [];
    common_headers = [];
    desired_tokens = [];
    workers = [];
    running = false;
  }

  unfoldable pub effective_headers : Sharder F → List (Text × Text)
  effective_headers s =
      if not (is_empty s.auth_header_value)
      then put (codes "Authorization") s.auth_header_value s.common_headers
      else s.common_headers

  unfoldable pub build_workers : Sharder F → Sharder F
  unfolding shards_or_idle
  build_workers s = record s {
    workers =
        map (make_worker s.opts (effective_headers s) s.parser s.store)
          (shards_or_idle (shard s.desired_tokens s.opts.max_tokens_per_conn));
  }

  -- The loop over the workers computes the headers of each and drops them.
  unfoldable pub set_access_token : Text → Sharder F → Sharder F
  set_access_token value s = record s { auth_header_value = value }

  pub set_common_headers : List (Text × Text) → Sharder F → Sharder F
  set_common_headers headers s = record s { common_headers = headers }

  -- The second part says whether the warning is logged.
  pub set_tokens : List Text → Sharder F → Sharder F × Bool
  set_tokens tokens s = (record s { desired_tokens = tokens }, s.running)

  pub running : Sharder F → Bool
  running s = s.running

  pub num_workers : Sharder F → ℕ
  num_workers s = length s.workers

  pub desired_tokens_snapshot : Sharder F → List Text
  desired_tokens_snapshot s = s.desired_tokens

-- How a stop ends: as it should, in a join that waits for a thread, or in std::terminate.
pub data Stopping : Type 0 where
  stopped waits terminates : Stopping

-- `before` is what a worker's thread does between its start and the initial subscription, and `writes`
-- how its writes end.
abbrev pub Environment : Type 0
Environment = List Moment × List Bool

module _ {F : Floats} where
  pub start_consumers : List (Worker F) → List (Worker F)
  unfolding start_consumer
  start_consumers ws = map start_consumer ws

  pub start_sockets : List (Worker F) → Option (List (Worker F))
  start_sockets [] = some []
  start_sockets (w ∷ ws) = do w' ← start_socket w; ws' ← start_sockets ws; some (w' ∷ ws')

  -- The loop that stops the connections, or the destruction of all workers, with what each thread
  -- meets meanwhile. It ends at the first worker that makes trouble.
  pub each_worker :
      (List Moment → Worker F → Closing (Worker F))
      → List (List Moment)
      → List (Worker F)
      → Closing (List (Worker F))
  each_worker act env [] = closed []
  each_worker act [] (w ∷ ws) =
      let rest = each_worker act [] ws in
      elim (act [] w) [
        | closed w' ↦ elim rest [
          | closed ws' ↦ closed (w' ∷ ws')
          | waiting ↦ waiting
          | terminated ↦ terminated
        ]
        | waiting ↦ waiting
        | terminated ↦ terminated
      ]
  each_worker act (ms ∷ env) (w ∷ ws) =
      let rest = each_worker act env ws in
      elim (act ms w) [
        | closed w' ↦ elim rest [
          | closed ws' ↦ closed (w' ∷ ws')
          | waiting ↦ waiting
          | terminated ↦ terminated
        ]
        | waiting ↦ waiting
        | terminated ↦ terminated
      ]

module _ {F : Floats} (J : JsonLib F) where
  -- The moments of the new threads, and the initial subscription of each worker. A worker beyond the
  -- list of environments meets nothing, and its writes throw.
  pub initial_subscribes : Environment → Worker F → Worker F
  initial_subscribes (before, writes) w =
      let (rest, ran) = worker_run J before writes w in (send_subscribes J rest ran).1

  pub send_initial_subscribes : List Environment → List (Worker F) → List (Worker F)
  unfolding initial_subscribes
  send_initial_subscribes env [] = []
  send_initial_subscribes [] (w ∷ ws) =
      initial_subscribes ([], []) w ∷ send_initial_subscribes [] ws
  send_initial_subscribes (e ∷ env) (w ∷ ws) =
      initial_subscribes e w ∷ send_initial_subscribes env ws

  -- `none` is std::terminate.
  unfoldable pub start : List Environment → Sharder F → Option (Sharder F × Bool)
  start env s = if s.running then some (s, true) else (do
    workers ← start_sockets (start_consumers (build_workers s).workers)
    some (record s { workers = send_initial_subscribes env workers; running = true }, true))

  -- The connections, then the consumers, then the destruction of the workers.
  pub stop_all : List (List Moment) → List (List Moment) → List (Worker F) → Stopping
  unfolding each_worker
  stop_all env later ws = elim (each_worker (close_ws J) env ws) [
    | closed ws' ↦ elim (each_worker (destroy_ws J) later (map stop_consumer ws')) [
      | closed ws'' ↦ Stopping.stopped
      | waiting ↦ Stopping.waits
      | terminated ↦ Stopping.terminates
    ]
    | waiting ↦ Stopping.waits
    | terminated ↦ Stopping.terminates
  ]

  -- The state is the one after a stop that returns.
  unfoldable pub stop : List (List Moment) → List (List Moment) → Sharder F → Stopping × Sharder F
  unfolding stop_all
  stop env later s =
      if not s.running
      then (Stopping.stopped, s)
      else (stop_all env later s.workers, record s { workers = []; running = false })

  -- The payload goes to every worker; the result says whether one write succeeded.
  pub broadcast : Text → List Bool → List (Worker F) → Bool × List (Worker F)
  broadcast payload writes [] = (false, [])
  broadcast payload [] (w ∷ ws) =
      let (sent, c) = send_text payload false w.ws in
      let (any, ws') = broadcast payload [] ws in (sent || any, record w { ws = c } ∷ ws')
  broadcast payload (b ∷ writes) (w ∷ ws) =
      let (sent, c) = send_text payload b w.ws in
      let (any, ws') = broadcast payload writes ws in (sent || any, record w { ws = c } ∷ ws')

  pub debug_broadcast_text : Text → List Bool → Sharder F → Bool × Sharder F
  unfolding broadcast
  debug_broadcast_text payload writes s =
      if not s.running
      then (false, s)
      else (let (any, ws) = broadcast payload writes s.workers in (any, record s { workers = ws }))

  -- The destructor.
  destroy : List (List Moment) → List (List Moment) → Sharder F → Stopping
  unfolding stop
  destroy env later s = (stop env later s).0
