-- ===== src/Sharder/Shutdown.antt =====
-- Stopping the sharder: right after a start, and while its threads read.
use real_time_market_data.Base.{
  suc, ◌^◌, ◌<◌, ◌≡◌, refl, ap, sym, subst, ◌⊎◌, true, false, List, [], ◌∷◌, some, length, arith,
  All, map,
}
use real_time_market_data.Base.Word.{word_mod}
use real_time_market_data.Batches.{effective}
use real_time_market_data.Json.{Floats, JsonLib}
use real_time_market_data.WebSocket.{Client, Phase, Moment, Effect, step}
use real_time_market_data.WebSocket
use real_time_market_data.Sharder.Workers.{
  Worker, react, worker_run, stop_consumer, close_ws, destroy_ws, Closing, closed, terminated,
}
use real_time_market_data.Sharder.{
  Sharder, Stopping, initial_subscribes, send_initial_subscribes, start, each_worker, stop_all,
  stop, build_workers,
}
use real_time_market_data.Sharder.Shards.{build_workers-Built, All-fresh}
use real_time_market_data.Sharder.Subscribing.{subscribes_down}
use real_time_market_data.Sharder.Launch.{IsSpawned, start_sockets-fresh, start_down}

module _ {F : Floats} (J : JsonLib F) where
  initial_subscribes-IsSpawned :
      (w : Worker F) → IsSpawned w → IsSpawned (initial_subscribes J ([], []) w)
  unfolding initial_subscribes worker_run
  initial_subscribes-IsSpawned w h =
      let same = sym (subscribes_down J [] w h.off) in
      record {
        at = subst (λ (c : Client). c.phase ≡ Phase.spawned) same h.at;
        down = subst (λ (c : Client). c.running ≡ false) same h.down;
        joinable = subst (λ (c : Client). c.joinable ≡ true) same h.joinable;
        off = subst (λ (c : Client). c.connected ≡ false) same h.off;
      }

  send_initial_subscribes-IsSpawned :
      (ws : List (Worker F))
      → All (λ w. IsSpawned w) ws
      → All (λ w. IsSpawned w) (send_initial_subscribes J [] ws)
        × (length (send_initial_subscribes J [] ws) ≡ length ws)
  unfolding send_initial_subscribes
  send_initial_subscribes-IsSpawned [] h = (tt, refl)
  send_initial_subscribes-IsSpawned (w ∷ ws) h =
      let (rest, count) = send_initial_subscribes-IsSpawned ws h.1 in
      ((initial_subscribes-IsSpawned w h.0, rest), ap suc count)

  -- The steps of the loops over the workers.
  each_worker-both :
      (act : List Moment → Worker F → Closing (Worker F)) (ms : List Moment)
      (env : List (List Moment))
      → (w w' : Worker F) (ws ws' : List (Worker F)) → act ms w ≡ closed w'
      → each_worker act env ws ≡ closed ws'
      → each_worker act (ms ∷ env) (w ∷ ws) ≡ closed (w' ∷ ws')
  unfolding each_worker
  each_worker-both act ms env w w' ws ws' one rest = ground arith

  each_worker-short :
      (act : List Moment → Worker F → Closing (Worker F)) (w w' : Worker F)
      (ws ws' : List (Worker F))
      → act [] w ≡ closed w'
      → each_worker act [] ws ≡ closed ws'
      → each_worker act [] (w ∷ ws) ≡ closed (w' ∷ ws')
  unfolding each_worker
  each_worker-short act w w' ws ws' one rest = ground arith

  each_worker-terminated :
      (act : List Moment → Worker F → Closing (Worker F)) (w : Worker F) (ws : List (Worker F))
      → act [] w ≡ terminated
      → each_worker act [] (w ∷ ws) ≡ terminated
  unfolding each_worker
  each_worker-terminated act w ws e = ground arith

  close_ws-spawned : (w : Worker F) → IsSpawned w → close_ws J [] w ≡ closed w
  unfolding close_ws worker_run WebSocket.stop
  close_ws-spawned w h = ground (arith, h.down)

  each_worker-spawned :
      (ws : List (Worker F))
      → All (λ w. IsSpawned w) ws
      → each_worker (close_ws J) [] ws ≡ closed ws
  each_worker-spawned [] h = unfold each_worker in refl
  each_worker-spawned (w ∷ ws) h =
      each_worker-short (close_ws J) w w ws ws (close_ws-spawned w h.0) (each_worker-spawned ws h.1)

  destroy_ws-spawned : (w : Worker F) → IsSpawned w → destroy_ws J [] (stop_consumer w) ≡ terminated
  unfolding destroy_ws close_ws worker_run WebSocket.stop stop_consumer
  destroy_ws-spawned w h = ground (arith, h.down, h.joinable)

  stop_all-spawned :
      (w : Worker F) (ws : List (Worker F))
      → All (λ w. IsSpawned w) (w ∷ ws)
      → stop_all J [] [] (w ∷ ws) ≡ Stopping.terminates
  unfolding stop_all
  stop_all-spawned w ws h =
      let end =
        each_worker-terminated (destroy_ws J) (stop_consumer w) (map stop_consumer ws)
          (destroy_ws-spawned w h.0) in
      ground (arith, each_worker-spawned (w ∷ ws) h, end)

  -- For a sharder that is down, with max_tokens_per_conn in a word and fewer than 2 ^ 63 tokens: a
  -- start, followed by a stop before any of the new connection threads has run, ends in
  -- std::terminate.
  pub stop-start_terminates :
      (s : Sharder F)
      → s.running ≡ false
      → s.opts.max_tokens_per_conn < word_mod
      → length s.desired_tokens < 2 ^ 63
      → (t : Sharder F) × (start J [] s ≡ some (t, true))
        × ((stop J [] [] t).0 ≡ Stopping.terminates)
  unfolding stop
  stop-start_terminates s off word small =
      let built = build_workers-Built s word small in
      let (ws, e, same, spawned, count) = start_sockets-fresh J (build_workers s).workers (
        All-fresh s (effective 800 s.opts.max_tokens_per_conn) (build_workers s).workers
          built.each) in
      let (still, counted) = send_initial_subscribes-IsSpawned ws spawned in
      (
        record s { workers = send_initial_subscribes J [] ws; running = true },
        start_down J [] s ws off e,
        some_terminates (send_initial_subscribes J [] ws) still
            (omega (arith, counted, count, built.count)),
      )
    where
      some_terminates :
          (ws : List (Worker F))
          → All (λ w. IsSpawned w) ws
          → 0 < length ws
          → stop_all J [] [] ws ≡ Stopping.terminates
      some_terminates [] h pos = absurd (omega arith)
      some_terminates (w ∷ ws) h pos = stop_all-spawned w ws h

  -- A worker whose thread reads.
  pub record IsReading (w : Worker F) : Type 0 where
    pub at : w.ws.phase ≡ Phase.reading
    pub up : w.ws.running ≡ true
    pub joinable : w.ws.joinable ≡ true

  -- The worker that a proper stop leaves to be destroyed.
  ended : Worker F → Worker F
  ended w = record w {
    ws = record (w.ws) { running = false; joinable = false; phase = Phase.finished };
  }

  close_ws-reading :
      (m : Moment) (w : Worker F)
      → (m ≡ Moment.closed) ⊎ (m ≡ Moment.aborted) ⊎ (m ≡ Moment.broken)
      → IsReading w
      → close_ws J (m ∷ []) w ≡ closed (ended w)
  unfolding close_ws worker_run react WebSocket.stop WebSocket.join step ended
  close_ws-reading m w e h = ground (arith, h.at, h.up, h.joinable)

  each_worker-reading :
      (m : Moment) (ws : List (Worker F))
      → (m ≡ Moment.closed) ⊎ (m ≡ Moment.aborted) ⊎ (m ≡ Moment.broken)
      → All (λ w. IsReading w) ws
      → each_worker (close_ws J) (map (λ w. m ∷ []) ws) ws ≡ closed (map ended ws)
  each_worker-reading m [] e h = unfold each_worker in refl
  each_worker-reading m (w ∷ ws) e h =
      each_worker-both (close_ws J) (m ∷ []) (map (λ w. m ∷ []) ws) w (ended w) ws (map ended ws)
        (close_ws-reading m w e h.0) (each_worker-reading m ws e h.1)

  destroy_ws-ended :
      (w : Worker F) → destroy_ws J [] (stop_consumer (ended w)) ≡ closed (stop_consumer (ended w))
  unfolding destroy_ws close_ws worker_run WebSocket.stop stop_consumer ended
  destroy_ws-ended w = refl

  each_worker-ended :
      (ws : List (Worker F))
      → each_worker (destroy_ws J) [] (map stop_consumer (map ended ws))
        ≡ closed (map stop_consumer (map ended ws))
  each_worker-ended [] = unfold each_worker in refl
  each_worker-ended (w ∷ ws) =
      each_worker-short (destroy_ws J) (stop_consumer (ended w)) (stop_consumer (ended w))
        (map stop_consumer (map ended ws)) (map stop_consumer (map ended ws)) (destroy_ws-ended w)
        (each_worker-ended ws)

  -- A running sharder whose connection threads all read is stopped properly once the stop makes each
  -- read fail, with the same of the three kinds of error: every join returns, no destructor
  -- terminates, and no worker is left.
  pub stop_reading :
      (s : Sharder F) (m : Moment)
      → (m ≡ Moment.closed) ⊎ (m ≡ Moment.aborted) ⊎ (m ≡ Moment.broken)
      → s.running ≡ true
      → All (λ w. IsReading w) s.workers
      → stop J (map (λ w. m ∷ []) s.workers) [] s
        ≡ (Stopping.stopped, record s { workers = []; running = false })
  unfolding stop stop_all
  stop_reading s m e on h =
      ground (arith, each_worker-reading m s.workers e h, each_worker-ended s.workers)
