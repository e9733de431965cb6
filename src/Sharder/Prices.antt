-- ===== src/Sharder/Prices.antt =====
-- What the store of src/sharder.cpp holds while its workers are at work.
use real_time_market_data.Base.{
  ℕ, zero, suc, ◌≡◌, refl, sym, ap, ◌∙◌, List, [], ◌∷◌, ◌++◌, none, some, Text, arith, get_elem?,
  map, or_else, some_inj, length, true, false, ◌<◌, ◌^◌, All,
}
use real_time_market_data.Json.{Floats, JsonLib}
use real_time_market_data.Ingest.Invariant.{init-IsValid}
use real_time_market_data.Ingest.Window.{contents}
use real_time_market_data.Ingest.Refine.{contents-init}
use real_time_market_data.Parser.{Parser}
use real_time_market_data.Store.{LtpStore, get}
use real_time_market_data.Store.Latest.{write_all-nil, last_for, get-write_all}
use real_time_market_data.Consumer
use real_time_market_data.Consumer.{Consumer, turn}
use real_time_market_data.Consumer.Pipeline.{parsed, parsed-nil}
use real_time_market_data.Base.Word.{word_mod}
use real_time_market_data.Batches.{effective}
use real_time_market_data.WebSocket.{Phase}
use real_time_market_data.Sharder.{
  Sharder, Environment, build_workers, start_consumers, start_sockets, send_initial_subscribes,
  start, shards_or_idle, shard,
}
use real_time_market_data.Sharder.Shards.{IsFresh, All-fresh, build_workers-Built}
use real_time_market_data.Sharder.Subscribing.{start_socket-fresh}
use real_time_market_data.Sharder.Launch.{start_down}
use real_time_market_data.Sharder.Workers.{Worker, make_worker, start_consumer}
use real_time_market_data.Sharder.Feeding.{
  Feed, of_worker, OfWorkers, frames, Hands, in_hand, Fed, feed, feed_all,
}
use real_time_market_data.Sharder.Books.{Sound, Books}
use real_time_market_data.Sharder.Steps.{feed-Books}

module _ {F : Floats} (J : JsonLib F) where
  pub feed_all-Books :
      (es : List Feed) (p : Parser) (first : LtpStore F) (r : Fed F)
      → Books J p first r
      → Books J p first (feed_all J r es)
  unfolding feed_all
  feed_all-Books [] p first r b = b
  feed_all-Books (e ∷ es) p first r b =
      feed_all-Books es p first (feed J r e) (feed-Books J p first r e b)

  abbrev pub no_frames : Hands
  no_frames = λ j. none

  -- The workers as they are built, with their consumers and their connection threads started.
  abbrev pub spawned : Worker F → Worker F
  spawned w = record w { ws = record (w.ws) { joinable = true; phase = Phase.spawned } }

  abbrev pub launched : Sharder F → Sharder F
  launched s = record s { workers = map spawned (start_consumers (build_workers s).workers) }

  start_sockets_spawned :
      (ws : List (Worker F))
      → All (λ w. IsFresh w) ws
      → start_sockets (start_consumers ws) ≡ some (map spawned (start_consumers ws))
  unfolding start_sockets start_consumers start_consumer
  start_sockets_spawned [] h = refl
  start_sockets_spawned (w ∷ ws) h =
      rw
        (
          start_socket-fresh J (start_consumer w) (record {
            idle = h.0.idle;
            down = h.0.down;
            unjoinable = h.0.unjoinable;
            off = h.0.off;
          }),
          start_sockets_spawned ws h.1,
        )
        refl

  -- A start of a sharder that is down is the launch and then the initial subscriptions.
  start-launched :
      (env : List Environment) (s : Sharder F)
      → s.running ≡ false
      → s.opts.max_tokens_per_conn < word_mod
      → length s.desired_tokens < 2 ^ 63
      → start J env s
        ≡ some (
          record s { workers = send_initial_subscribes J env (launched s).workers; running = true },
          true,
        )
  start-launched env s off word small =
      let built = build_workers-Built s word small in
      start_down J env s (launched s).workers off (
        start_sockets_spawned (build_workers s).workers (
          All-fresh s (effective 800 s.opts.max_tokens_per_conn) (build_workers s).workers
            built.each))

  worker-Sound :
      (s : Sharder F) (headers : List (Text × Text)) (tokens : List Text)
      → Sound J s.parser [] [] none
          (spawned (start_consumer (make_worker s.opts headers s.parser s.store tokens)))
  unfolding start_consumer make_worker Consumer.start Consumer.init
  worker-Sound s headers tokens = record {
    valid = init-IsValid 8192 (omega arith);
    running = refl;
    same_parser = refl;
    split = sym (contents-init 8192);
  }

  workers-Sound :
      (s : Sharder F) (headers : List (Text × Text)) (pieces : List (List Text)) (i : ℕ)
      (w : Worker F)
      → get_elem?
          (map spawned (start_consumers (map (make_worker s.opts headers s.parser s.store) pieces)))
          i
        ≡ some w
      → Sound J s.parser [] [] none w
  unfolding start_consumers
  workers-Sound s headers [] i w h = cc
  workers-Sound s headers (tokens ∷ pieces) zero w h =
      rw (← some_inj h) (worker-Sound s headers tokens)
  workers-Sound s headers (tokens ∷ pieces) (suc i) w h = workers-Sound s headers pieces i w h

  pub launched-Books : (s : Sharder F) → Books J s.parser s.store (launched s, [], no_frames)
  unfolding build_workers of_worker
  launched-Books s = record {
    processed = [];
    theirs = tt;
    each = λ i w h.
        workers-Sound s _ (shards_or_idle (shard s.desired_tokens s.opts.max_tokens_per_conn)) i w
          h;
    stored = rw parsed-nil (sym (write_all-nil s.store));
  }

  -- For the workers that a sharder builds, with their consumers and their connection threads
  -- started, and any order in which a connection thread meets its next moment and makes its
  -- callbacks, an initial subscription is sent, a consumer takes a frame, and one stores the price
  -- of the frame it has taken in the one store: every processed frame is one of a worker, each
  -- queue's accepted frames are, in order, the processed ones of its worker, the one its consumer
  -- has taken, if any, and those that wait, and a token's price is the one of the last processed
  -- frame, of whatever worker, that gives it one, or the price it had before if none does.
  pub feed_all_lem :
      (s : Sharder F) (es : List Feed)
      → let (s', accepted, hands) = feed_all J (launched s, [], no_frames) es in
        (processed : List (ℕ × Text)) × OfWorkers (length s'.workers) processed
        × ((i : ℕ) (w : Worker F)
            → get_elem? s'.workers i ≡ some w
            → of_worker i accepted
              ≡ of_worker i processed ++ (in_hand (hands i) ++ contents w.cons.queue))
        × ((token : Text)
            → get token s'.store
              ≡ or_else (last_for token (parsed J s.parser (frames processed))) (get token s.store))
  feed_all_lem s es =
      let b = feed_all-Books es s.parser s.store (launched s, [], no_frames) (launched-Books s) in
      (
        b.processed,
        b.theirs,
        λ i w h. (b.each i w h).split,
        λ token.
            ap (get token) b.stored
            ∙ get-write_all (parsed J s.parser (frames b.processed)) s.store token,
      )
