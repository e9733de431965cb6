-- ===== src/Sharder/Tests.antt =====
-- A sharder of three tokens on two connections, and one of its workers on a small queue.
use real_time_market_data.Base.{
  ◌≡◌, refl, Bool, true, false, List, [], ◌∷◌, codes, arith, none, some, inl, inr, length,
  replicate, map,
}
use real_time_market_data.Batches.{effective}
use real_time_market_data.Ingest
use real_time_market_data.Parser.{has_prefix}
use real_time_market_data.Url.{split_url, split_rest, split_host, cut_at}
use real_time_market_data.Samples.{Whole, Small}
use real_time_market_data.Store.{empty_store}
use real_time_market_data.Consumer
use real_time_market_data.Subscription.{Mode, build_subscribe_batches}
use real_time_market_data.Subscription.Sets.{IsManager}
use real_time_market_data.Subscription.Payloads.{Covers}
use real_time_market_data.WebSocket
use real_time_market_data.WebSocket.{Client, Phase, Moment, parse_wss, step, run, text_message}
use real_time_market_data.Sharder.Workers.{Worker, worker_run, start_socket}
use real_time_market_data.Sharder.{
  Sharder, Stopping, build_workers, initial_subscribes, start, stop,
}
use real_time_market_data.WebSocket.Thread.{has, is_reconnecting}
use real_time_market_data.Sharder.Shards.{IsFresh, Built, build_workers-Built}
use real_time_market_data.Sharder.Subscribing.{
  initial_subscription_lost, resubscribe-Covers, subscribes_down,
}
use real_time_market_data.Sharder.Shutdown.{stop-start_terminates, stop_reading}
use real_time_market_data.Sharder.Samples.{parser, sharder}

build_workers-Built_example : Built sharder (effective 800 2) (build_workers sharder).workers
build_workers-Built_example = build_workers-Built sharder (omega arith) (omega arith)

abbrev client : Phase → Bool → Bool → Client
client phase running joinable = record {
  url = codes "wss://feed.in";
  opts = WebSocket.default_options;
  has_ws = false;
  running = running;
  connected = false;
  connected_ = false;
  joinable = joinable;
  phase = phase;
  written = [];
}

abbrev worker : Client → Worker Whole
worker c = record {
  tokens = codes "7" ∷ [];
  sub = record {
    mode = Mode.ltp;
    batch_size = 100;
    token_formatter = none;
    desired = codes "7" ∷ [];
    active = [];
  };
  cons = Consumer.init (Ingest.init 8) parser empty_store;
  ws = c;
  dropped = 0;
}

abbrev fresh : Worker Whole
fresh = worker (client Phase.idle false false)

fresh-IsFresh : IsFresh fresh
fresh-IsFresh = record { idle = refl; down = refl; unjoinable = refl; off = refl }

abbrev spawned : Worker Whole
spawned = record fresh { ws = record (fresh.ws) { joinable = true; phase = Phase.spawned } }

start_fresh : start_socket fresh ≡ some spawned
unfolding start_socket WebSocket.start
start_fresh = ground arith

-- The thread begins, connects and reads: the subscription never goes out.
abbrev calm : List Moment
calm = Moment.begins ∷ Moment.connects ∷ Moment.frame (codes "x") ∷ []

initial_subscription_lost_example :
    (worker_run Small calm [] (initial_subscribes Small ([], []) spawned)).1.ws.written ≡ []
initial_subscription_lost_example =
    initial_subscription_lost Small fresh spawned [] calm [] [] fresh-IsFresh (inl refl) start_fresh
      quiet
  where
    quiet : has is_reconnecting (run (initial_subscribes Small ([], []) spawned).ws calm).1 ≡ false
    quiet =
        rw (sent_nothing)
          (unfold run step parse_wss split_url split_rest split_host cut_at has_prefix in refl)
      where
        sent_nothing : (initial_subscribes Small ([], []) spawned).ws ≡ spawned.ws
        sent_nothing = unfold initial_subscribes worker_run in subscribes_down Small [] spawned refl

abbrev retrying : Worker Whole
retrying = worker (client (Phase.attempting 500) true true)

retrying-IsManager : IsManager retrying.sub
retrying-IsManager = record {
  desired = ground arith;
  active = tt;
  batch = omega arith;
  word = omega arith;
}

resubscribe-Covers_example :
    ((worker_run Small
        (Moment.connects ∷ [])
        (replicate (length (build_subscribe_batches Small retrying.sub)) true)
        retrying).1.ws.written
      ≡ map text_message (build_subscribe_batches Small retrying.sub))
    × Covers Small retrying.sub true
        (codes "7" ∷ [])
        []
        (build_subscribe_batches Small retrying.sub)
resubscribe-Covers_example =
    resubscribe-Covers Small retrying 500 refl refl
      (unfold parse_wss split_url split_rest split_host cut_at has_prefix in refl)
      retrying-IsManager (omega arith) refl

stop-start_terminates_example :
    (t : Sharder Whole) × (start Small [] sharder ≡ some (t, true))
    × ((stop Small [] [] t).0 ≡ Stopping.terminates)
stop-start_terminates_example = stop-start_terminates Small sharder refl (omega arith) (omega arith)

-- A running sharder whose one thread reads.
abbrev reading : Sharder Whole
reading = record sharder { running = true; workers = worker (client Phase.reading true true) ∷ [] }

stop_reading_example :
    stop Small ((Moment.broken ∷ []) ∷ []) [] reading
    ≡ (Stopping.stopped, record reading { workers = []; running = false })
stop_reading_example =
    stop_reading Small reading Moment.broken (inr (inr refl)) refl
      (record { at = refl; up = refl; joinable = refl }, tt)

-- Frames on two connections, taken in one order and stored in the other.
