-- ===== src/Sharder/Shards.antt =====
-- The workers that a start builds: which tokens each has, what it asks for, and with which headers.
use real_time_market_data.Base.{
  ℕ, suc, ◌+◌, ◌-◌, ◌/◌, ◌^◌, ◌<◌, ◌≤◌, ◌≡◌, refl, ap, ◌∙◌, false, not, ◌&&◌, List, [], ◌∷◌, ◌++◌,
  some, Text, text_eq, codes, map, flatten, is_empty, length, if◌then◌else◌, max, arith, All,
}
use real_time_market_data.Base.Map.{contains, lookup, lookup-put}
use real_time_market_data.Base.Word.{word_mod}
use real_time_market_data.Batches.{effective}
use real_time_market_data.Batches.Pieces.{Cuts, cut-Cuts}
use real_time_market_data.Json.{Floats}
use real_time_market_data.Parser.{Parser, normalize}
use real_time_market_data.Parser.Frame.{normalize-append}
use real_time_market_data.Subscription.{add_many}
use real_time_market_data.Subscription
use real_time_market_data.WebSocket
use real_time_market_data.Subscription.Sets.{contains-insert_all}
use real_time_market_data.Sharder.{Sharder, shard, shards_or_idle, effective_headers, build_workers}
use real_time_market_data.Sharder.Workers.{Worker, make_worker, token_fmt}

module _ {F : Floats} where
  abbrev pub all_tokens : List (Worker F) → List Text
  all_tokens [] = []
  all_tokens (w ∷ ws) = w.tokens ++ all_tokens ws

  -- A worker with no thread and no connection yet.
  pub record IsFresh (w : Worker F) : Type 0 where
    pub idle : w.ws.phase ≡ WebSocket.Phase.idle
    pub down : w.ws.running ≡ false
    pub unjoinable : w.ws.joinable ≡ false
    pub off : w.ws.connected ≡ false

  -- What one worker is.
  pub record IsWorker (s : Sharder F) (n : ℕ) (w : Worker F) : Type 0 where
    pub fits : length w.tokens ≤ n
    pub asks : (t : Text) → contains t w.sub.desired ≡ contains t w.tokens
    pub unacknowledged : w.sub.active ≡ []
    pub headers : w.ws.opts.headers ≡ effective_headers s
    pub fresh : IsFresh w

  make_worker-IsWorker :
      (s : Sharder F) (n : ℕ) (tokens : List Text)
      → length tokens ≤ n
      → IsWorker s n (make_worker s.opts (effective_headers s) s.parser s.store tokens)
  unfolding make_worker add_many Subscription.init WebSocket.init
  make_worker-IsWorker s n [] h = record {
    fits = h;
    asks = λ t. refl;
    unacknowledged = refl;
    headers = refl;
    fresh = record { idle = refl; down = refl; unjoinable = refl; off = refl };
  }
  make_worker-IsWorker s n (x ∷ tokens) h = record {
    fits = h;
    asks = λ t. contains-insert_all t (x ∷ tokens) [] ∙ ground arith;
    unacknowledged = refl;
    headers = refl;
    fresh = record { idle = refl; down = refl; unjoinable = refl; off = refl };
  }

  make-All :
      (s : Sharder F) (n : ℕ) (shards : List (List Text))
      → All (λ piece. length piece ≤ n) shards
      → let ws = map (make_worker s.opts (effective_headers s) s.parser s.store) shards in
        All (IsWorker s n) ws × (all_tokens ws ≡ flatten shards) × (length ws ≡ length shards)
  unfolding flatten make_worker
  make-All s n [] h = (tt, refl, refl)
  make-All s n (tokens ∷ shards) h =
      let (w, e, l) = make-All s n shards h.1 in
      ((make_worker-IsWorker s n tokens h.0, w), ap (λ r. tokens ++ r) e, ap suc l)

  -- What all the workers are together.
  pub record Built (s : Sharder F) (n : ℕ) (ws : List (Worker F)) : Type 0 where
    pub each : All (IsWorker s n) ws
    pub together : all_tokens ws ≡ s.desired_tokens
    pub count : length ws ≡ max 1 ((length s.desired_tokens + n - 1) / n)

  pub All-fresh :
      (s : Sharder F) (n : ℕ) (ws : List (Worker F))
      → All (IsWorker s n) ws
      → All (λ w. IsFresh w) ws
  All-fresh s n [] h = tt
  All-fresh s n (w ∷ ws) h = (h.0.fresh, All-fresh s n ws h.1)

  -- For an option max_tokens_per_conn that fits a word and fewer than 2 ^ 63 tokens: the workers
  -- share out the desired tokens in order, none has more than the option says (800 where it is 0),
  -- there are as many as the rounded-up quotient and one where there are no tokens, and each has no
  -- thread and no connection, wants its own tokens and none besides, and has the headers in force.
  pub build_workers-Built :
      (s : Sharder F)
      → s.opts.max_tokens_per_conn < word_mod
      → length s.desired_tokens < 2 ^ 63
      → Built s (effective 800 s.opts.max_tokens_per_conn) (build_workers s).workers
  unfolding build_workers shard shards_or_idle flatten
  build_workers-Built s word small = built (shard s.desired_tokens s.opts.max_tokens_per_conn) (
      cut-Cuts 800 s.desired_tokens s.opts.max_tokens_per_conn (omega arith) (omega arith) word
        small)
    where
      n : ℕ
      n = effective 800 s.opts.max_tokens_per_conn

      pos : 0 < n
      pos = ground arith

      at_most :
          (shards : List (List Text))
          → All (λ piece. (0 < length piece) × (length piece ≤ n)) shards
          → All (λ piece. length piece ≤ n) shards
      at_most [] h = tt
      at_most (p ∷ shards) h = (h.0.1, at_most shards h.1)

      built :
          (shards : List (List Text))
          → Cuts s.desired_tokens n shards
          → Built s n (
              map
                (make_worker s.opts (effective_headers s) s.parser s.store)
                (shards_or_idle shards))
      built [] c =
          let (w, e, l) = make-All s n ([] ∷ []) (omega arith, tt) in
          record { each = w; together = e ∙ c.together; count = l ∙ omega (arith, c.count) }
      built (tokens ∷ shards) c =
          let (w, e, l) = make-All s n (tokens ∷ shards) (at_most (tokens ∷ shards) c.sizes) in
          record { each = w; together = e ∙ c.together; count = l ∙ omega (arith, c.count) }

  -- The handshake headers have the access token under "Authorization" where one is set, and what the
  -- common headers have under every other name, or under every name where none is set.
  pub effective_headers_lem :
      (s : Sharder F) (name : Text)
      → lookup name (effective_headers s) ≡ (
          if not (is_empty s.auth_header_value) && text_eq (codes "Authorization") name
          then some s.auth_header_value
          else lookup name s.common_headers)
  unfolding effective_headers
  effective_headers_lem s name =
      ground (arith, lookup-put (codes "Authorization") name s.auth_header_value s.common_headers)

token_fmt-append : (prefix t : Text) → token_fmt prefix t ≡ prefix ++ t
unfolding token_fmt
token_fmt-append [] t = refl
token_fmt-append (c ∷ prefix) t = refl

-- A token that goes out with the prefix comes back without it, where the parser strips that prefix.
normalize-token_fmt :
    (parser : Parser) (token : Text)
    → normalize parser (token_fmt parser.strip_prefix token) ≡ token
normalize-token_fmt parser token =
    ap (normalize parser) (token_fmt-append parser.strip_prefix token)
    ∙ normalize-append parser token
