-- ===== src/Sharder/Handshakes.antt =====
-- The headers of the handshakes: src/sharder.cpp hands them to a worker's connection when it builds the
-- worker, and nothing that comes later reaches them.
use real_time_market_data.Base.{
  ℕ, zero, suc, ◌≡◌, refl, sym, subst, ap, ◌∙◌, Bool, false, List, [], ◌∷◌, some, some-bind,
  some_inj, Text, modify, arith, All, or_else,
}
use real_time_market_data.Json.{Floats, JsonLib}
use real_time_market_data.WebSocket.{Client, Moment, Effect, step, send_text}
use real_time_market_data.WebSocket
use real_time_market_data.WebSocket.Handshake.{decorate, find-decorate}
use real_time_market_data.Http.{Beast}
use real_time_market_data.Http.Headers.{FieldLaws, last_of}
use real_time_market_data.Subscription.{build_subscribe_batches}
use real_time_market_data.Sharder.Workers.{
  Worker, worker_run, react, send_all, send_subscribes, on_message, start_socket, start_consumer,
}
use real_time_market_data.Sharder.{
  Sharder, Environment, start_consumers, start_sockets, initial_subscribes, send_initial_subscribes,
  broadcast, effective_headers,
}
use real_time_market_data.Sharder.Shards.{IsWorker}

step-opts : (m : Moment) (c : Client) → (step m c).0.opts ≡ c.opts
unfolding step
step-opts Moment.stops c = refl
step-opts m c = ground arith

send_text-opts :
    (payload : Text) (sent : Bool) (c : Client) → (send_text payload sent c).1.opts ≡ c.opts
unfolding send_text
send_text-opts payload sent c = ground arith

send_all-opts :
    (ps : List Text) (writes : List Bool) (c : Client) → (send_all ps writes c).1.opts ≡ c.opts
unfolding send_all
send_all-opts [] writes c = refl
send_all-opts (p ∷ ps) [] c = send_all-opts ps [] (send_text p false c).1 ∙ send_text-opts p false c
send_all-opts (p ∷ ps) (b ∷ writes) c =
    send_all-opts ps writes (send_text p b c).1 ∙ send_text-opts p b c

module _ {F : Floats} (J : JsonLib F) where
  on_message-ws : (msg : Text) (w : Worker F) → (on_message msg w).ws ≡ w.ws
  unfolding on_message
  on_message-ws msg w = ground arith

  react-opts :
      (es : List Effect) (writes : List Bool) (w : Worker F)
      → (react J es writes w).1.ws.opts ≡ w.ws.opts
  unfolding react send_subscribes
  react-opts [] writes w = refl
  react-opts (Effect.message msg ∷ es) writes w =
      react-opts es writes (on_message msg w) ∙ ap (λ (c : Client). c.opts) (on_message-ws msg w)
  react-opts (Effect.resubscribe ∷ es) writes w =
      react-opts es _ _ ∙ send_all-opts (build_subscribe_batches J w.sub) writes w.ws
  react-opts (Effect.state s ∷ es) writes w = react-opts es writes w
  react-opts (Effect.sleep ms ∷ es) writes w = react-opts es writes w

  worker_run-opts :
      (ms : List Moment) (writes : List Bool) (w : Worker F)
      → (worker_run J ms writes w).1.ws.opts ≡ w.ws.opts
  unfolding worker_run
  worker_run-opts [] writes w = refl
  worker_run-opts (m ∷ ms) writes w =
      let (c, es) = step m w.ws in
      worker_run-opts ms (react J es writes (record w { ws = c })).0
        (react J es writes (record w { ws = c })).1
      ∙ react-opts es writes (record w { ws = c })
      ∙ step-opts m w.ws

  initial_subscribes-opts :
      (e : Environment) (w : Worker F) → (initial_subscribes J e w).ws.opts ≡ w.ws.opts
  unfolding initial_subscribes send_subscribes
  initial_subscribes-opts (before, writes) w =
      send_all-opts (build_subscribe_batches J (worker_run J before writes w).1.sub) _ _
      ∙ worker_run-opts before writes w

module _ {F : Floats} (J : JsonLib F) (headers : List (Text × Text)) where
  -- Every worker has these headers for its next handshake.
  abbrev pub AllCarry : List (Worker F) → Type 0
  AllCarry ws = All (λ w. w.ws.opts.headers ≡ headers) ws

  same_headers : {o o' : WebSocket.Options} → o' ≡ o → o.headers ≡ headers → o'.headers ≡ headers
  same_headers e h = ap (λ (o : WebSocket.Options). o.headers) e ∙ h

  pub modify-AllCarry :
      (ms : List Moment) (writes : List Bool) (i : ℕ) (ws : List (Worker F))
      → AllCarry ws
      → AllCarry (modify i (λ w. (worker_run J ms writes w).1) ws)
  modify-AllCarry ms writes i [] h = tt
  modify-AllCarry ms writes zero (w ∷ ws) h =
      (same_headers (worker_run-opts J ms writes w) h.0, h.1)
  modify-AllCarry ms writes (suc i) (w ∷ ws) h = (h.0, modify-AllCarry ms writes i ws h.1)

  pub broadcast-AllCarry :
      (payload : Text) (writes : List Bool) (ws : List (Worker F))
      → AllCarry ws
      → AllCarry (broadcast J payload writes ws).1
  unfolding broadcast
  broadcast-AllCarry payload writes [] h = tt
  broadcast-AllCarry payload [] (w ∷ ws) h =
      (same_headers (send_text-opts payload false w.ws) h.0, broadcast-AllCarry payload [] ws h.1)
  broadcast-AllCarry payload (b ∷ writes) (w ∷ ws) h =
      (same_headers (send_text-opts payload b w.ws) h.0, broadcast-AllCarry payload writes ws h.1)

  pub subscribes-AllCarry :
      (env : List Environment) (ws : List (Worker F))
      → AllCarry ws
      → AllCarry (send_initial_subscribes J env ws)
  unfolding send_initial_subscribes
  subscribes-AllCarry env [] h = tt
  subscribes-AllCarry [] (w ∷ ws) h =
      (same_headers (initial_subscribes-opts J ([], []) w) h.0, subscribes-AllCarry [] ws h.1)
  subscribes-AllCarry (e ∷ env) (w ∷ ws) h =
      (same_headers (initial_subscribes-opts J e w) h.0, subscribes-AllCarry env ws h.1)

  start_socket-headers :
      (w w' : Worker F)
      → start_socket w ≡ some w'
      → w.ws.opts.headers ≡ headers
      → w'.ws.opts.headers ≡ headers
  unfolding start_socket WebSocket.start
  start_socket-headers w w' e h = ground arith

  pub start_sockets-AllCarry :
      (ws ws' : List (Worker F))
      → start_sockets (start_consumers ws) ≡ some ws'
      → AllCarry ws
      → AllCarry ws'
  unfolding start_sockets start_consumers
  start_sockets-AllCarry [] ws' e h = subst AllCarry (some_inj e) tt
  start_sockets-AllCarry (w ∷ ws) ws' e h =
      let (w', first, e1) = some-bind (start_socket (start_consumer w)) _ e in
      let (rest, others, e2) = some-bind (start_sockets (start_consumers ws)) _ e1 in
      subst AllCarry (some_inj e2) (
        start_socket-headers (start_consumer w) w' first h.0,
        start_sockets-AllCarry ws rest others h.1,
      )

  pub built-AllCarry :
      (s : Sharder F) (n : ℕ) (ws : List (Worker F))
      → headers ≡ effective_headers s
      → All (IsWorker s n) ws
      → AllCarry ws
  built-AllCarry s n [] same h = tt
  built-AllCarry s n (w ∷ ws) same h = (h.0.headers ∙ sym same, built-AllCarry s n ws same h.1)

-- What a worker's next handshake has under each name: the last of the headers of that name, or else what
-- the request had before the decorator.
abbrev pub AllSend :
    {F : Floats} (B : Beast) → FieldLaws B → List (Text × Text) → List (Worker F) → Type 0
AllSend B L headers ws =
    All
      (λ w.
        (k : Text) (fs : B.Fields)
        → L.find k (decorate B w.ws fs) ≡ or_else (last_of k headers) (L.find k fs))
      ws

pub AllCarry-AllSend :
    {F : Floats} (J : JsonLib F) (B : Beast) (L : FieldLaws B) (headers : List (Text × Text))
    (ws : List (Worker F))
    → AllCarry J headers ws
    → AllSend B L headers ws
AllCarry-AllSend J B L headers [] h = tt
AllCarry-AllSend J B L headers (w ∷ ws) h = (
  λ k fs. find-decorate B L k w.ws fs ∙ ap (λ hs. or_else (last_of k hs) (L.find k fs)) h.0,
  AllCarry-AllSend J B L headers ws h.1,
)
