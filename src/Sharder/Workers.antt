-- ===== src/Sharder/Workers.antt =====
-- `Sharder::Worker`: one connection's stack, and the callbacks that wire its parts together.
use real_time_market_data.Base.{
  ℕ, ◌+◌, Bool, true, false, List, [], ◌∷◌, ◌++◌, Option, none, some, Text, codes, is_empty,
  if◌then◌else◌, ◌>>=◌,
}
use real_time_market_data.Json.{Floats, JsonLib}
use real_time_market_data.Ingest
use real_time_market_data.Ingest.{try_push}
use real_time_market_data.Parser.{Parser}
use real_time_market_data.Store.{LtpStore}
use real_time_market_data.Consumer
use real_time_market_data.Consumer.{Consumer}
use real_time_market_data.Subscription
use real_time_market_data.Subscription.{Manager, Mode, add_many, build_subscribe_batches}
use real_time_market_data.WebSocket
use real_time_market_data.WebSocket.{Client, Moment, Effect, step, send_text}

pub record Options : Type 0 where
  pub wss_url : Text
  pub max_tokens_per_conn : ℕ
  pub subscribe_batch_size : ℕ
  pub verify_peer : Bool
  pub ca_file : Text
  pub token_prefix : Text
  pub headers : List (Text × Text)

abbrev pub default_options : Text → Options
default_options url = record {
  wss_url = url;
  max_tokens_per_conn = 800;
  subscribe_batch_size = 100;
  verify_peer = true;
  ca_file = [];
  token_prefix = codes "nse_cm|";
  headers = [];
}

-- The queue is that of the consumer, which shares it with the message callback.
pub record Worker (F : Floats) : Type 0 where
  pub tokens : List Text
  pub sub : Manager
  pub cons : Consumer F
  pub ws : Client
  -- frames that the full queue made the callback drop
  pub dropped : ℕ

unfoldable pub token_fmt : Text → Text → Text
token_fmt prefix t = if is_empty prefix then t else prefix ++ t

ws_options : Options → List (Text × Text) → WebSocket.Options
ws_options opts headers = record {
  ping_interval = 15000;
  conn_timeout = 10000;
  verify_peer = opts.verify_peer;
  ca_file = opts.ca_file;
  headers = headers;
  backoff_initial = 500;
  backoff_max = 5000;
}

make_manager : Options → List Text → Manager
make_manager opts tokens =
    let sub =
      Subscription.init Mode.ltp opts.subscribe_batch_size (some (token_fmt opts.token_prefix)) in
    if is_empty tokens then sub else add_many tokens sub

module _ {F : Floats} where
  unfoldable pub make_worker :
      Options → List (Text × Text) → Parser → LtpStore F → List Text → Worker F
  unfolding make_manager ws_options
  make_worker opts headers parser store tokens = record {
    tokens = tokens;
    sub = make_manager opts tokens;
    cons = Consumer.init (Ingest.init 8192) parser store;
    ws = WebSocket.init opts.wss_url (ws_options opts headers);
    dropped = 0;
  }

  -- The message callback: a frame is pushed, or dropped with a warning on a full queue.
  unfoldable pub on_message : Text → Worker F → Worker F
  on_message msg w =
      let (taken, q) = try_push msg w.cons.queue in
      if taken
      then record w { cons = record (w.cons) { queue = q } }
      else record w { cons = record (w.cons) { queue = q }; dropped = w.dropped + 1 }

-- How a call that ends threads goes: it is done, or a join waits for the thread, or std::terminate is
-- called.
pub data Closing (A : Type 0) : Type 0 where
  closed : A → Closing A
  waiting terminated : Closing A

-- `send_text` for each payload. `writes` says how the writes end, one entry a call; one that is not
-- listed throws.
unfoldable pub send_all : List Text → List Bool → Client → List Bool × Client
send_all [] writes c = (writes, c)
send_all (p ∷ ps) [] c = send_all ps [] (send_text p false c).1
send_all (p ∷ ps) (b ∷ writes) c = send_all ps writes (send_text p b c).1

module _ {F : Floats} (J : JsonLib F) where
  -- The resubscribe callback, and `send_initial_subscribes` for one worker: the same loop.
  unfoldable pub send_subscribes : List Bool → Worker F → List Bool × Worker F
  unfolding send_all
  send_subscribes writes w =
      let (rest, c) = send_all (build_subscribe_batches J w.sub) writes w.ws in
      (rest, record w { ws = c })

  -- The callbacks that a thread makes, in order.
  unfoldable pub react : List Effect → List Bool → Worker F → List Bool × Worker F
  unfolding send_subscribes on_message
  react [] writes w = (writes, w)
  react (Effect.message msg ∷ es) writes w = react es writes (on_message msg w)
  react (Effect.resubscribe ∷ es) writes w =
      let (rest, w') = send_subscribes writes w in react es rest w'
  react (Effect.state s ∷ es) writes w = react es writes w
  react (Effect.sleep ms ∷ es) writes w = react es writes w

  unfoldable pub worker_run : List Moment → List Bool → Worker F → List Bool × Worker F
  unfolding react
  worker_run [] writes w = (writes, w)
  worker_run (m ∷ ms) writes w =
      let (c, es) = step m w.ws in
      let (rest, w') = react es writes (record w { ws = c }) in worker_run ms rest w'

  -- `stop` of the connection. Where it joins, `ms` is what the thread meets until then; where it
  -- returns at once, `ms` is what happens before the next call.
  unfoldable pub close_ws : List Moment → Worker F → Closing (Worker F)
  unfolding worker_run
  close_ws ms w =
      let (c, joins) = WebSocket.stop w.ws in
      let w' = (worker_run ms [] (record w { ws = c })).1 in
      if joins
      then (elim (WebSocket.join w'.ws) [ none ↦ waiting | some d ↦ closed (record w' { ws = d }) ])
      else closed w'

  -- The destructor: `stop` again, and `delete impl_`, which terminates if the thread was not joined.
  unfoldable pub destroy_ws : List Moment → Worker F → Closing (Worker F)
  unfolding close_ws
  destroy_ws ms w = elim (close_ws ms w) [
    | closed w' ↦ if w'.ws.joinable then terminated else closed w'
    | waiting ↦ waiting
    | terminated ↦ terminated
  ]

module _ {F : Floats} where
  unfoldable pub start_consumer : Worker F → Worker F
  start_consumer w = record w { cons = (Consumer.start w.cons).0 }

  -- `none` is std::terminate.
  unfoldable pub start_socket : Worker F → Option (Worker F)
  start_socket w = do started ← WebSocket.start w.ws; some (record w { ws = started.0 })

  unfoldable pub stop_consumer : Worker F → Worker F
  stop_consumer w = record w { cons = Consumer.stop w.cons }
