-- ===== src/Sharder/Books.antt =====
-- The books of the workers of src/sharder.cpp: what they are, and how one changes.
use real_time_market_data.Base.{
  ℕ, ◌≡◌, ◌≢◌, refl, sym, subst, ap, ◌∙◌, inl, inr, true, false, List, [], ◌∷◌, ◌++◌, Option, some,
  Text, arith, ◌==◌, if◌then◌else◌, append_assoc, append-nil, Bool, Bool-cases, get_elem?, set,
  get_elem?-set_self, get_elem?-set_ne, some_inj, length,
}
use real_time_market_data.Json.{Floats, JsonLib}
use real_time_market_data.Ingest.{try_push}
use real_time_market_data.Ingest.Fifo
use real_time_market_data.Ingest.Invariant.{IsValid, try_push-IsValid}
use real_time_market_data.Ingest.Window.{contents}
use real_time_market_data.Ingest.Refine.{try_push_refines}
use real_time_market_data.Parser.{Parser}
use real_time_market_data.Store.{LtpStore}
use real_time_market_data.Store.Latest.{write_all}
use real_time_market_data.WebSocket.{Effect}
use real_time_market_data.Consumer.{Consumer}
use real_time_market_data.Consumer.Pipeline.{parsed}
use real_time_market_data.Sharder.{Sharder}
use real_time_market_data.Sharder.Workers.{Worker, on_message, react, send_subscribes}
use real_time_market_data.Sharder.Feeding.{
  taken, of_worker, OfWorkers, frames, index_fits, Hands, hold, in_hand, Fed,
}

module _ {F : Floats} (J : JsonLib F) where
  -- The books of one worker: its accepted frames are the processed ones, the one in hand and then the
  -- queued ones.
  pub record Sound (p : Parser) (accepted processed : List Text) (hand : Option Text) (w : Worker F)
      : Type 0 where
    pub valid : IsValid w.cons.queue
    pub running : w.cons.running ≡ true
    pub same_parser : w.cons.parser ≡ p
    pub split : accepted ≡ processed ++ (in_hand hand ++ contents w.cons.queue)

  -- The books of all: the store has seen the prices of the frames that were processed, in that order.
  pub record Books (p : Parser) (first : LtpStore F) (r : Fed F) : Type 0 where
    pub processed : List (ℕ × Text)
    pub theirs : OfWorkers (length (r.0).workers) processed
    pub each :
        (i : ℕ) (w : Worker F)
        → get_elem? (r.0).workers i ≡ some w
        → Sound p (of_worker i r.1) (of_worker i processed) (r.2 i) w
    pub stored : (r.0).store ≡ write_all first (parsed J p (frames processed))

  on_message-cons :
      (msg : Text) (w : Worker F)
      → (on_message msg w).cons ≡ record (w.cons) { queue = (try_push msg w.cons.queue).1 }
  unfolding on_message
  on_message-cons msg w = ground arith

  on_message-Sound :
      (p : Parser) (accepted processed : List Text) (hand : Option Text) (w : Worker F) (msg : Text)
      → Sound p accepted processed hand w
      → Sound p
          (if (try_push msg w.cons.queue).0 then accepted ++ msg ∷ [] else accepted)
          processed
          hand
          (on_message msg w)
  unfolding Fifo.push
  on_message-Sound p accepted processed hand w msg b =
      let e = on_message-cons msg w in
      record {
        valid = rw e (try_push-IsValid msg b.valid);
        running = rw e b.running;
        same_parser = rw e b.same_parser;
        split = rw e (
            ground (
              arith,
              b.split,
              try_push_refines msg b.valid,
              append_assoc processed (in_hand hand ++ contents w.cons.queue) (msg ∷ []),
              append_assoc (in_hand hand) (contents w.cons.queue) (msg ∷ []),
            ));
      }

  accepted-append :
      (ok : Bool) (accepted : List Text) (msg : Text) (rest : List Text)
      → (if ok then accepted ++ msg ∷ [] else accepted) ++ rest
        ≡ accepted ++ (if ok then msg ∷ rest else rest)
  accepted-append true accepted msg rest = append_assoc accepted (msg ∷ []) rest
  accepted-append false accepted msg rest = refl

  -- What the callbacks of a thread do to its worker's books.
  pub react-Sound :
      (es : List Effect) (writes : List Bool) (p : Parser) (accepted processed : List Text)
      (hand : Option Text) (w : Worker F)
      → Sound p accepted processed hand w
      → Sound p (accepted ++ taken es w.cons.queue) processed hand (react J es writes w).1
  unfolding react taken send_subscribes
  react-Sound [] writes p accepted processed hand w b = rw (append-nil accepted) b
  react-Sound (Effect.message msg ∷ es) writes p accepted processed hand w b =
      let queue = ap (λ (c : Consumer F). c.queue) (on_message-cons msg w) in
      subst (λ (a : List Text). Sound p a processed hand (react J es writes (on_message msg w)).1)
        (ap
            (λ q.
              (if (try_push msg w.cons.queue).0 then accepted ++ msg ∷ [] else accepted)
              ++ taken es q)
            queue
          ∙ accepted-append (try_push msg w.cons.queue).0 accepted msg
              (taken es (try_push msg w.cons.queue).1))
        (react-Sound es writes p
          (if (try_push msg w.cons.queue).0 then accepted ++ msg ∷ [] else accepted) processed hand
          (on_message msg w) (on_message-Sound p accepted processed hand w msg b))
  react-Sound (Effect.resubscribe ∷ es) writes p accepted processed hand w b =
      react-Sound es _ p accepted processed hand _ (record {
        valid = b.valid;
        running = b.running;
        same_parser = b.same_parser;
        split = b.split;
      })
  react-Sound (Effect.state s ∷ es) writes p accepted processed hand w b =
      react-Sound es writes p accepted processed hand w b
  react-Sound (Effect.sleep ms ∷ es) writes p accepted processed hand w b =
      react-Sound es writes p accepted processed hand w b

  -- The books after one worker has changed.
  pub set-each :
      (p : Parser) (s : Sharder F) (i : ℕ) (w w' : Worker F)
      (accepted accepted' processed processed' : List (ℕ × Text)) (hands hands' : Hands)
      → get_elem? s.workers i ≡ some w
      → ((j : ℕ) (v : Worker F)
          → get_elem? s.workers j ≡ some v
          → Sound p (of_worker j accepted) (of_worker j processed) (hands j) v)
      → Sound p (of_worker i accepted') (of_worker i processed') (hands' i) w'
      → ((j : ℕ)
          → i ≢ j
          → (of_worker j accepted' ≡ of_worker j accepted)
            × (of_worker j processed' ≡ of_worker j processed)
            × (hands' j ≡ hands j))
      → (j : ℕ) (v : Worker F) → get_elem? (set s.workers i w') j ≡ some v
      → Sound p (of_worker j accepted') (of_worker j processed') (hands' j) v
  set-each p s i w w' accepted accepted' processed processed' hands hands' at each changed others j
        v h =
      elim (Bool-cases (i == j)) [
        | inl e ↦
            let same : i ≡ j = ground arith in
            let found : w' ≡ v = some_inj (
              sym (get_elem?-set_self s.workers i w' (index_fits s.workers i w at))
              ∙ ap (get_elem? (set s.workers i w')) same
              ∙ h) in
            rw (← same, ← found) changed
        | inr e ↦
            let differ : i ≢ j = ground arith in
            let (a, b, c) = others j differ in
            rw (a, b, c) (each j v (sym (get_elem?-set_ne s.workers w' differ) ∙ h))
      ]

  pub hold_self : (i : ℕ) (o : Option Text) (hands : Hands) → hold i o hands i ≡ o
  unfolding hold
  hold_self i o hands = ground arith

  pub hold_other : (i j : ℕ) (o : Option Text) (hands : Hands) → i ≢ j → hold i o hands j ≡ hands j
  unfolding hold
  hold_other i j o hands ne = ground arith
