-- ===== src/Sharder/Launch.antt =====
-- Starting the sharder, and when a new token list takes effect.
use real_time_market_data.Base.{
  suc, ◌+◌, ◌-◌, ◌/◌, ◌^◌, max, ◌<◌, ◌≡◌, refl, ap, ◌∙◌, Bool, true, false, List, [], ◌∷◌, ◌++◌,
  some, Text, length, arith, All,
}
use real_time_market_data.Base.Word.{word_mod}
use real_time_market_data.Batches.{effective}
use real_time_market_data.Json.{Floats, JsonLib}
use real_time_market_data.WebSocket.{Phase, Moment, Effect, step}
use real_time_market_data.Sharder.Workers.{
  Worker, on_message, send_subscribes, react, worker_run, start_consumer,
}
use real_time_market_data.Sharder.{
  Sharder, Environment, start_consumers, start_sockets, initial_subscribes, send_initial_subscribes,
  start, build_workers, set_tokens, desired_tokens_snapshot,
}
use real_time_market_data.Sharder.Shards.{all_tokens, build_workers-Built, IsFresh, All-fresh}
use real_time_market_data.Sharder.Subscribing.{start_socket-fresh}

-- A worker whose thread was started and has not got to run.
pub record IsSpawned {F : Floats} (w : Worker F) : Type 0 where
  pub at : w.ws.phase ≡ Phase.spawned
  pub down : w.ws.running ≡ false
  pub joinable : w.ws.joinable ≡ true
  pub off : w.ws.connected ≡ false

module _ {F : Floats} (J : JsonLib F) where
  react-tokens :
      (es : List Effect) (writes : List Bool) (w : Worker F)
      → (react J es writes w).1.tokens ≡ w.tokens
  unfolding react send_subscribes
  react-tokens [] writes w = refl
  react-tokens (Effect.message msg ∷ es) writes w =
      react-tokens es writes (on_message msg w) ∙ unfold on_message in ground arith
  react-tokens (Effect.resubscribe ∷ es) writes w = react-tokens es _ _
  react-tokens (Effect.state s ∷ es) writes w = react-tokens es writes w
  react-tokens (Effect.sleep ms ∷ es) writes w = react-tokens es writes w

  pub worker_run-tokens :
      (ms : List Moment) (writes : List Bool) (w : Worker F)
      → (worker_run J ms writes w).1.tokens ≡ w.tokens
  unfolding worker_run
  worker_run-tokens [] writes w = refl
  worker_run-tokens (m ∷ ms) writes w =
      let (c, es) = step m w.ws in
      worker_run-tokens ms (react J es writes (record w { ws = c })).0
        (react J es writes (record w { ws = c })).1
      ∙ react-tokens es writes (record w { ws = c })

  initial_subscribes-tokens :
      (e : Environment) (w : Worker F) → (initial_subscribes J e w).tokens ≡ w.tokens
  unfolding initial_subscribes send_subscribes
  initial_subscribes-tokens (before, writes) w = worker_run-tokens before writes w

  send_initial_subscribes-tokens :
      (env : List Environment) (ws : List (Worker F))
      → all_tokens (send_initial_subscribes J env ws) ≡ all_tokens ws
  unfolding send_initial_subscribes
  send_initial_subscribes-tokens env [] = refl
  send_initial_subscribes-tokens [] (w ∷ ws) =
      rw (initial_subscribes-tokens ([], []) w, send_initial_subscribes-tokens [] ws)
  send_initial_subscribes-tokens (e ∷ env) (w ∷ ws) =
      rw (initial_subscribes-tokens e w, send_initial_subscribes-tokens env ws)

  length-send_initial_subscribes :
      (env : List Environment) (ws : List (Worker F))
      → length (send_initial_subscribes J env ws) ≡ length ws
  unfolding send_initial_subscribes
  length-send_initial_subscribes env [] = refl
  length-send_initial_subscribes [] (w ∷ ws) = ap suc (length-send_initial_subscribes [] ws)
  length-send_initial_subscribes (e ∷ env) (w ∷ ws) = ap suc (length-send_initial_subscribes env ws)

  -- Fresh workers' threads can be started; each keeps its tokens and is then spawned.
  pub start_sockets-fresh :
      (ws : List (Worker F))
      → All (λ w. IsFresh w) ws
      → (ws' : List (Worker F)) × (start_sockets (start_consumers ws) ≡ some ws')
        × (all_tokens ws' ≡ all_tokens ws)
        × All (λ w. IsSpawned w) ws'
        × (length ws' ≡ length ws)
  unfolding start_sockets start_consumers start_consumer
  start_sockets-fresh [] f = ([], refl, refl, tt, refl)
  start_sockets-fresh (w ∷ ws) f =
      let (ws', rest, together, spawned, count) = start_sockets-fresh ws f.1 in
      let fresh : IsFresh (start_consumer w) = record {
        idle = f.0.idle;
        down = f.0.down;
        unjoinable = f.0.unjoinable;
        off = f.0.off;
      } in
      (
        record (start_consumer w) { ws = record (w.ws) { joinable = true; phase = Phase.spawned } }
            ∷ ws',
        rw (start_socket-fresh J (start_consumer w) fresh, rest),
        ap (λ l. w.tokens ++ l) together,
        (record { at = refl; down = f.0.down; joinable = refl; off = f.0.off }, spawned),
        ap suc count,
      )

  pub start_down :
      (env : List Environment) (s : Sharder F) (ws : List (Worker F))
      → s.running ≡ false
      → start_sockets (start_consumers (build_workers s).workers) ≡ some ws
      → start J env s
        ≡ some (record s { workers = send_initial_subscribes J env ws; running = true }, true)
  unfolding start
  start_down env s ws off e = ground arith

  -- What a start makes of a sharder that is down.
  pub record Started (s t : Sharder F) : Type 0 where
    pub staff : List (Worker F)
    pub rest : t ≡ record s { workers = staff; running = true }
    pub together : all_tokens staff ≡ s.desired_tokens
    pub count :
        let n = effective 800 s.opts.max_tokens_per_conn in
        length staff ≡ max 1 ((length s.desired_tokens + n - 1) / n)

  pub start-Started :
      (env : List Environment) (s : Sharder F)
      → s.running ≡ false
      → s.opts.max_tokens_per_conn < word_mod
      → length s.desired_tokens < 2 ^ 63
      → (t : Sharder F) × (start J env s ≡ some (t, true)) × Started s t
  start-Started env s off word small =
      let built = build_workers-Built s word small in
      let (ws, e, same, spawned, count) = start_sockets-fresh (build_workers s).workers (
        All-fresh s (effective 800 s.opts.max_tokens_per_conn) (build_workers s).workers
          built.each) in
      (
        record s { workers = send_initial_subscribes J env ws; running = true },
        start_down env s ws off e,
        record {
          staff = send_initial_subscribes J env ws;
          rest = refl;
          together = send_initial_subscribes-tokens env ws ∙ same ∙ built.together;
          count = length-send_initial_subscribes env ws ∙ count ∙ built.count;
        },
      )

  -- On a running sharder a token list is stored and takes no effect: the workers stay as they are,
  -- the call warns, and a start that follows succeeds and changes nothing.
  set_tokens_running :
      (tokens : List Text) (env : List Environment) (s : Sharder F)
      → s.running ≡ true
      → let (s', warned) = set_tokens tokens s in
        (s'.workers ≡ s.workers)
        × (warned ≡ true)
        × (desired_tokens_snapshot s' ≡ tokens)
        × (start J env s' ≡ some (s', true))
  unfolding set_tokens start desired_tokens_snapshot
  set_tokens_running tokens env s on = (refl, on, refl, rw on refl)

  -- For a sharder that is down, with max_tokens_per_conn in a word and a list of fewer than 2 ^ 63
  -- tokens: a start succeeds whatever the threads and the network do meanwhile, and the workers then
  -- share out the list last set, in order and each token once.
  start-set_tokens :
      (tokens : List Text) (env : List Environment) (s : Sharder F)
      → s.running ≡ false
      → s.opts.max_tokens_per_conn < word_mod
      → length tokens < 2 ^ 63
      → (t : Sharder F) × (start J env (set_tokens tokens s).0 ≡ some (t, true))
        × (all_tokens t.workers ≡ tokens)
        × (t.running ≡ true)
  unfolding set_tokens
  start-set_tokens tokens env s off word small =
      let (t, started, r) =
        start-Started env (record s { desired_tokens = tokens }) off word small in
      (t, started, rw r.rest r.together, rw r.rest refl)
