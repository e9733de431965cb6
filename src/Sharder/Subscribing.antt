-- ===== src/Sharder/Subscribing.antt =====
-- What reaches the server: the resubscription after a lost connection, and the initial subscription.
use real_time_market_data.Base.{
  ℕ, ◌^◌, ◌<◌, ◌≡◌, refl, ap, sym, subst, ◌∙◌, ◌⊎◌, inl, inr, Bool, true, false, List, [], ◌∷◌,
  ◌++◌, some, Text, is_some, length, arith, replicate, append_assoc, append-nil, some_inj, map,
}
use real_time_market_data.Json.{Floats, JsonLib}
use real_time_market_data.Subscription.{build_subscribe_batches}
use real_time_market_data.Subscription.Sets.{IsManager}
use real_time_market_data.Subscription.Payloads.{Covers, build_batches-Covers}
use real_time_market_data.WebSocket
use real_time_market_data.WebSocket.{
  Client, Phase, Moment, Effect, step, run, send_text, parse_wss, Sent, text_message,
}
use real_time_market_data.WebSocket.Public.{send_text_down, send_text_up, step-written}
use real_time_market_data.WebSocket.Thread.{
  has, is_resubscribe, is_reconnecting, is_retrying, has-append, run_no_resubscribe,
}
use real_time_market_data.Sharder.Workers.{
  Worker, on_message, send_all, send_subscribes, react, worker_run, start_socket,
}
use real_time_market_data.Sharder.{initial_subscribes}
use real_time_market_data.Sharder.Shards.{IsFresh}

send_all_down :
    (ps : List Text) (writes : List Bool) (c : Client)
    → c.connected ≡ false
    → (send_all ps writes c).1 ≡ c
unfolding send_all
send_all_down [] writes c off = refl
send_all_down (p ∷ ps) [] c off =
    ap (λ (r : Bool × Client). (send_all ps [] r.1).1) (send_text_down p false c off)
    ∙ send_all_down ps [] c off
send_all_down (p ∷ ps) (b ∷ writes) c off =
    ap (λ (r : Bool × Client). (send_all ps writes r.1).1) (send_text_down p b c off)
    ∙ send_all_down ps writes c off

-- On a connection whose writes succeed every payload is written, in order.
send_all_up :
    (ps : List Text) (c : Client)
    → c.has_ws ≡ true
    → c.connected ≡ true
    → (send_all ps (replicate (length ps) true) c).1
      ≡ record c { written = c.written ++ map text_message ps }
unfolding send_all
send_all_up [] c made on = ground (arith, append-nil c.written)
send_all_up (p ∷ ps) c made on =
    ap (λ (r : Bool × Client). (send_all ps (replicate (length ps) true) r.1).1)
      (send_text_up p c made on)
    ∙ send_all_up ps (record c { written = c.written ++ text_message p ∷ [] }) made on
    ∙ ap (λ (l : List Sent). record c { written = l })
        (append_assoc c.written (text_message p ∷ []) (map text_message ps))

module _ {F : Floats} (J : JsonLib F) where
  on_message-ws : (msg : Text) (w : Worker F) → (on_message msg w).ws ≡ w.ws
  unfolding on_message
  on_message-ws msg w = ground arith

  react_quiet :
      (es : List Effect) (writes : List Bool) (w : Worker F)
      → has is_resubscribe es ≡ false
      → (react J es writes w).1.ws ≡ w.ws
  unfolding react
  react_quiet [] writes w quiet = refl
  react_quiet (Effect.message msg ∷ es) writes w quiet =
      react_quiet es writes (on_message msg w) quiet ∙ on_message-ws msg w
  react_quiet (Effect.resubscribe ∷ es) writes w quiet = cc
  react_quiet (Effect.state s ∷ es) writes w quiet = react_quiet es writes w quiet
  react_quiet (Effect.sleep ms ∷ es) writes w quiet = react_quiet es writes w quiet

  -- A thread that never calls the resubscribe hook writes nothing.
  worker_run_quiet :
      (ms : List Moment) (writes : List Bool) (w : Worker F)
      → has is_resubscribe (run w.ws ms).1 ≡ false
      → (worker_run J ms writes w).1.ws.written ≡ w.ws.written
  unfolding worker_run run
  worker_run_quiet [] writes w quiet = refl
  worker_run_quiet (m ∷ ms) writes w quiet =
      let (c, es) = step m w.ws in
      let split = has-append is_resubscribe es (run c ms).1 in
      let w' = react J es writes (record w { ws = c }) in
      let same : w'.1.ws ≡ c = react_quiet es writes (record w { ws = c }) (ground arith) in
      worker_run_quiet ms w'.0 w'.1 (rw same (ground arith))
      ∙ ap (λ (d : Client). d.written) same
      ∙ step-written m w.ws

  pub start_socket-fresh :
      (w : Worker F)
      → IsFresh w
      → start_socket w
        ≡ some (record w { ws = record (w.ws) { joinable = true; phase = Phase.spawned } })
  unfolding start_socket WebSocket.start
  start_socket-fresh w f = ground arith

  pub subscribes_down :
      (writes : List Bool) (w : Worker F)
      → w.ws.connected ≡ false
      → (send_subscribes J writes w).1.ws ≡ w.ws
  unfolding send_subscribes
  subscribes_down writes w off = send_all_down (build_subscribe_batches J w.sub) writes w.ws off

  -- The worker once its thread is started, and perhaps got to run.
  launched : Worker F → Phase → Bool → Worker F
  launched w phase running = record w {
    ws = record (w.ws) { joinable = true; phase = phase; running = running };
  }

  launched_quiet :
      (w : Worker F) (phase : Phase) (running : Bool) (writes : List Bool)
      → w.ws.connected ≡ false
      → is_retrying phase ≡ false
      → let v = (send_subscribes J writes (launched w phase running)).1 in
        (is_retrying v.ws.phase ≡ false) × (v.ws.written ≡ w.ws.written)
  unfolding launched
  launched_quiet w phase running writes off first =
      let same = subscribes_down writes (launched w phase running) off in
      (ap (λ (c : Client). is_retrying c.phase) same ∙ first, ap (λ (c : Client). c.written) same)

  start_early :
      (w : Worker F) (before : List Moment) (writes : List Bool)
      → IsFresh w
      → (before ≡ []) ⊎ (before ≡ Moment.begins ∷ [])
      → let v = initial_subscribes J (before, writes) (launched w Phase.spawned w.ws.running) in
        (is_retrying v.ws.phase ≡ false) × (v.ws.written ≡ w.ws.written)
  unfolding initial_subscribes worker_run react step launched
  start_early w before writes f (inl e) =
      rw e (launched_quiet w Phase.spawned w.ws.running writes f.off refl)
  start_early w before writes f (inr e) =
      rw e (launched_quiet w Phase.attempting_first true writes f.off refl)

  -- Where a fresh worker's thread is started and its initial subscription is sent before the thread
  -- has connected (it has not got to run, or has only begun), no payload is written as long as the
  -- thread has not reported "reconnecting", whatever else happens, a successful first connection
  -- included.
  pub initial_subscription_lost :
      (w v : Worker F) (before ms : List Moment) (writes later : List Bool)
      → IsFresh w
      → (before ≡ []) ⊎ (before ≡ Moment.begins ∷ [])
      → start_socket w ≡ some v
      → has is_reconnecting (run (initial_subscribes J (before, writes) v).ws ms).1 ≡ false
      → (worker_run J ms later (initial_subscribes J (before, writes) v)).1.ws.written
        ≡ w.ws.written
  initial_subscription_lost w v before ms writes later f early h quiet =
      let same : launched w Phase.spawned w.ws.running ≡ v =
        unfold launched in some_inj (sym (start_socket-fresh w f) ∙ h) in
      let (first, unwritten) =
        subst
          (λ (v : Worker F).
            (is_retrying (initial_subscribes J (before, writes) v).ws.phase ≡ false)
            × ((initial_subscribes J (before, writes) v).ws.written ≡ w.ws.written))
          same (start_early w before writes f early) in
      worker_run_quiet ms later (initial_subscribes J (before, writes) v)
        (run_no_resubscribe ms (initial_subscribes J (before, writes) v).ws first quiet)
      ∙ unwritten

  -- Where the thread of a worker is in an attempt of its reconnect loop, the URL is a wss one, and
  -- the manager is well formed with nothing active and fewer than 2 ^ 63 tokens: if the attempt
  -- connects and the writes succeed, then all subscribe payloads are written in order, and they
  -- cover exactly the desired tokens.
  pub resubscribe-Covers :
      (w : Worker F) (backoff : ℕ)
      → w.ws.phase ≡ Phase.attempting backoff
      → w.ws.running ≡ true
      → is_some (parse_wss w.ws.url) ≡ true
      → IsManager w.sub
      → length w.sub.desired < 2 ^ 63
      → w.sub.active ≡ []
      → let sent = build_subscribe_batches J w.sub in
        ((worker_run J (Moment.connects ∷ []) (replicate (length sent) true) w).1.ws.written
          ≡ w.ws.written ++ map text_message sent)
        × Covers J w.sub true w.sub.desired [] sent
  unfolding worker_run react send_subscribes step
  resubscribe-Covers w backoff at on ok v small none_active = (
    ap (λ (v : Worker F). v.ws.written) reached
        ∙ ap (λ (c : Client). c.written)
            (send_all_up (build_subscribe_batches J w.sub) up refl refl),
    subst
        (λ (active : List Text).
          Covers J w.sub true w.sub.desired active (build_subscribe_batches J w.sub))
        none_active (build_batches-Covers J w.sub v small (rw none_active (omega arith))).0,
  )
    where
      up : Client
      up = record (w.ws) { has_ws = true; connected = true; phase = Phase.reading }

      reached :
          (worker_run J
            (Moment.connects ∷ [])
            (replicate (length (build_subscribe_batches J w.sub)) true)
            w).1
          ≡ record w {
            ws =
                (send_all
                  (build_subscribe_batches J w.sub)
                  (replicate (length (build_subscribe_batches J w.sub)) true)
                  up).1;
          }
      reached = ground arith
