-- ===== src/Sharder/Life/Headers.antt =====
-- The headers in force at a start stay those of the handshakes until the next one: what
-- set_access_token and set_common_headers of src/sharder.cpp set later does not reach the connections.
use real_time_market_data.Base.{
  ◌^◌, ◌<◌, ◌≡◌, refl, ap, true, false, List, [], ◌∷◌, Text, length, arith,
}
use real_time_market_data.Base.Word.{word_mod}
use real_time_market_data.Batches.{effective}
use real_time_market_data.Json.{Floats, JsonLib}
use real_time_market_data.Http.{Beast}
use real_time_market_data.Http.Headers.{FieldLaws}
use real_time_market_data.WebSocket.Thread.{has}
use real_time_market_data.Sharder.{
  Sharder, Environment, build_workers, send_initial_subscribes, broadcast, effective_headers,
  set_access_token, set_common_headers, set_tokens,
}
use real_time_market_data.Sharder.Shards.{All-fresh, build_workers-Built}
use real_time_market_data.Sharder.Launch.{start_sockets-fresh, start_down}
use real_time_market_data.Sharder.Life.{
  Op, gets_token, gets_headers, gets_tokens, starts, stops, broadcasts, runs, is_stop, alive,
  operate, operate_all,
}
use real_time_market_data.Sharder.Life.Staff.{starts_up, starts_built, broadcast_up}
use real_time_market_data.Sharder.Handshakes.{
  AllCarry, AllSend, AllCarry-AllSend, modify-AllCarry, broadcast-AllCarry, subscribes-AllCarry,
  start_sockets-AllCarry, built-AllCarry,
}

-- The access token after an operation, and after several.
abbrev token_now : Op → Text → Text
token_now (gets_token value) old = value
token_now _ old = old

abbrev pub token_after : List Op → Text → Text
token_after [] old = old
token_after (o ∷ os) old = token_after os (token_now o old)

module _ {F : Floats} (J : JsonLib F) (headers : List (Text × Text)) where
  -- A running sharder whose workers carry the headers, and which has an access token that may be another.
  record Stale (token : Text) (t : Sharder F) : Type 0 where
    pub up : t.running ≡ true
    pub carry : AllCarry J headers t.workers
    pub token_set : t.auth_header_value ≡ token

  -- The operations that leave the workers in place.
  operate-Stale :
      (o : Op) (s : Sharder F) (token : Text)
      → is_stop o ≡ false
      → Stale token s
      → (t : Sharder F) × (operate J o s ≡ alive t) × Stale (token_now o token) t
  unfolding operate set_access_token set_common_headers set_tokens
  operate-Stale (gets_token value) s token quiet h =
      (_, refl, record { up = h.up; carry = h.carry; token_set = refl })
  operate-Stale (gets_headers hs) s token quiet h =
      (_, refl, record { up = h.up; carry = h.carry; token_set = h.token_set })
  operate-Stale (gets_tokens tokens) s token quiet h =
      (_, refl, record { up = h.up; carry = h.carry; token_set = h.token_set })
  operate-Stale (starts env) s token quiet h = (s, starts_up J env s h.up, h)
  operate-Stale (stops env later) s token quiet h = cc
  operate-Stale (broadcasts payload writes) s token quiet h = (
    record s { workers = (broadcast J payload writes s.workers).1 },
    ap alive (broadcast_up J payload writes s h.up),
    record {
      up = h.up;
      carry = broadcast-AllCarry J headers payload writes s.workers h.carry;
      token_set = h.token_set;
    },
  )
  operate-Stale (runs i ms writes) s token quiet h = (
    _,
    refl,
    record {
      up = h.up;
      carry = modify-AllCarry J headers ms writes i s.workers h.carry;
      token_set = h.token_set;
    },
  )

  operate_all-Stale :
      (os : List Op) (s : Sharder F) (token : Text)
      → has is_stop os ≡ false
      → Stale token s
      → (t : Sharder F) × (operate_all J os s ≡ alive t) × Stale (token_after os token) t
  unfolding operate_all
  operate_all-Stale [] s token quiet h = (s, refl, h)
  operate_all-Stale (o ∷ os) s token quiet h =
      let (t, e, now) = operate-Stale o s token (ground arith) h in
      let (u, f, then_) = operate_all-Stale os t (token_now o token) (ground arith) now in
      (u, rw (e, operate_all) f, then_)

module _ {F : Floats} (J : JsonLib F) where
  -- What was started carries the headers of the start.
  start-AllCarry :
      (env : List Environment) (os : List Op) (s : Sharder F)
      → s.running ≡ false
      → s.opts.max_tokens_per_conn < word_mod
      → length s.desired_tokens < 2 ^ 63
      → has is_stop os ≡ false
      → (t : Sharder F) × (operate_all J (starts env ∷ os) s ≡ alive t)
        × (t.running ≡ true)
        × AllCarry J (effective_headers s) t.workers
        × (t.auth_header_value ≡ token_after os s.auth_header_value)
  unfolding operate_all
  start-AllCarry env os s off word small quiet =
      let headers = effective_headers s in
      let built = build_workers-Built s word small in
      let n = effective 800 s.opts.max_tokens_per_conn in
      let made = (build_workers s).workers in
      let (ws, e, _, _, _) = start_sockets-fresh J made (All-fresh s n made built.each) in
      let t : Sharder F = record s { workers = send_initial_subscribes J env ws; running = true } in
      let (u, f, h) = operate_all-Stale J headers os t s.auth_header_value quiet (record {
        up = refl;
        carry = subscribes-AllCarry J headers env ws (
            start_sockets-AllCarry J headers made ws e
              (built-AllCarry J headers s n made refl built.each));
        token_set = refl;
      }) in
      (
        u,
        rw (starts_built J env s t (start_down J env s ws off e), operate_all) f,
        h.up,
        h.carry,
        h.token_set,
      )

  -- For a sharder that is down, with max_tokens_per_conn in a word and fewer than 2 ^ 63 tokens, all
  -- of whose texts are UTF-8, and a start followed by any operations but a stop, whatever the
  -- network and the threads do, where the fields of a request behave as a map whose names ignore
  -- case: they succeed, the sharder is running, its access token is the one last set, and the
  -- decorator of every worker still gives a handshake, under each name, the last of the headers of
  -- that name that were in force at the start, or else what the request had.
  pub start-AllSend :
      (B : Beast) (L : FieldLaws B) (env : List Environment) (os : List Op) (s : Sharder F)
      → s.running ≡ false
      → s.opts.max_tokens_per_conn < word_mod
      → length s.desired_tokens < 2 ^ 63
      → has is_stop os ≡ false
      → (t : Sharder F) × (operate_all J (starts env ∷ os) s ≡ alive t)
        × (t.running ≡ true)
        × AllSend B L (effective_headers s) t.workers
        × (t.auth_header_value ≡ token_after os s.auth_header_value)
  start-AllSend B L env os s off word small quiet =
      let (t, e, on, carry, token) = start-AllCarry env os s off word small quiet in
      (t, e, on, AllCarry-AllSend J B L (effective_headers s) t.workers carry, token)
