-- ===== src/Sharder/Steps.antt =====
-- What every frame and every part of a round does to the books of the workers of src/sharder.cpp.
use real_time_market_data.Base.{
  ℕ, Bool, ◌≡◌, refl, ◌∙◌, inl, inr, List, [], ◌∷◌, ◌++◌, none, some, Text, append_assoc,
  Option-cases, get_elem?, set, length, length-set,
}
use real_time_market_data.Json.{Floats, JsonLib}
use real_time_market_data.Ingest.Window.{contents}
use real_time_market_data.Parser.{Parser, parse_ltp}
use real_time_market_data.Store.{LtpStore}
use real_time_market_data.Store.Latest.{write_all-append}
use real_time_market_data.WebSocket.{Moment, step}
use real_time_market_data.Consumer.{ingest, take_frame}
use real_time_market_data.Consumer.Pipeline.{parsed-append}
use real_time_market_data.Consumer.Halves.{take_frame_idle, take_frame_oldest, ingest-Stores}
use real_time_market_data.Sharder.{Sharder}
use real_time_market_data.Sharder.Workers.{Worker, react, send_subscribes}
use real_time_market_data.Sharder.Feeding.{
  Feed, moves, subscribes, taken, tagged, of_worker-tagged, of_worker-tagged_other, takes, stores,
  of_worker, of_worker_own, of_worker_other, map-snoc, OfWorkers-snoc, index_fits, Hands, hold, Fed,
  store_one, feed,
}
use real_time_market_data.Sharder.Books.{Books, react-Sound, set-each, hold_self, hold_other}

module _ {F : Floats} (J : JsonLib F) where
  -- A frame is taken from a queue, if it holds one.
  takes-Books :
      (p : Parser) (first : LtpStore F) (s : Sharder F) (accepted : List (ℕ × Text)) (hands : Hands)
      (i : ℕ) (w : Worker F) (waiting : List Text)
      → get_elem? s.workers i ≡ some w
      → hands i ≡ none
      → contents w.cons.queue ≡ waiting
      → Books J p first (s, accepted, hands)
      → Books J p first (
        record s { workers = set s.workers i (record w { cons = (take_frame w.cons).1 }) },
        accepted,
        hold i (take_frame w.cons).0 hands,
      )
  takes-Books p first s accepted hands i w [] at free e b =
      let mine = b.each i w at in
      let idle = take_frame_idle w.cons mine.valid e in
      rw idle (record {
        processed = b.processed;
        theirs = rw (length-set s.workers i w) b.theirs;
        each =
            set-each J p s i w w accepted accepted b.processed b.processed hands (hold i none hands)
              at b.each (rw (hold_self J i none hands, ← free) mine)
              (λ j ne. (refl, refl, hold_other J i j none hands ne));
        stored = b.stored;
      })
  takes-Books p first s accepted hands i w (x ∷ rest) at free e b =
      let mine = b.each i w at in
      let (q, v, left, took) = take_frame_oldest w.cons x rest mine.valid mine.running e in
      rw took (record {
        processed = b.processed;
        theirs =
            rw (length-set s.workers i (record w { cons = record (w.cons) { queue = q; msg = x } }))
              b.theirs;
        each =
            set-each J p s i w (record w { cons = record (w.cons) { queue = q; msg = x } }) accepted
              accepted b.processed b.processed hands (hold i (some x) hands) at b.each
              (rw (hold_self J i (some x) hands) (record {
                valid = v;
                running = mine.running;
                same_parser = mine.same_parser;
                split = mine.split ∙ rw (free, e, left) refl;
              }))
              (λ j ne. (refl, refl, hold_other J i j (some x) hands ne));
        stored = b.stored;
      })

  stores-Books :
      (p : Parser) (first : LtpStore F) (s : Sharder F) (accepted : List (ℕ × Text)) (hands : Hands)
      (i : ℕ) (w : Worker F) (x : Text)
      → get_elem? s.workers i ≡ some w
      → hands i ≡ some x
      → Books J p first (s, accepted, hands)
      → Books J p first (store_one J s i w x, accepted, hold i none hands)
  unfolding store_one
  stores-Books p first s accepted hands i w x at has b =
      let c = record (w.cons) { store = s.store } in
      let mine = b.each i w at in
      let t = ingest-Stores J c x in
      record {
        processed = b.processed ++ (i, x) ∷ [];
        theirs =
            rw
              (length-set s.workers i
                (record w { cons = ingest J c (parse_ltp J w.cons.parser x) }))
              (OfWorkers-snoc (length s.workers) b.processed (i, x) b.theirs
                (index_fits s.workers i w at));
        each =
            set-each J p s i w (record w { cons = ingest J c (parse_ltp J w.cons.parser x) })
              accepted accepted b.processed (b.processed ++ (i, x) ∷ []) hands (hold i none hands)
              at b.each
              (rw (hold_self J i none hands) (record {
                valid = rw t.same_queue mine.valid;
                running = t.same_flag ∙ mine.running;
                same_parser = t.same_parser ∙ mine.same_parser;
                split =
                    mine.split
                    ∙ rw (has, t.same_queue, of_worker_own i b.processed x, append_assoc) refl;
              }))
              (λ j ne.
                (refl, of_worker_other i j b.processed x ne, hold_other J i j none hands ne));
        stored =
            t.stored
            ∙ rw
                (
                  b.stored,
                  mine.same_parser,
                  map-snoc b.processed (i, x),
                  parsed-append,
                  write_all-append,
                )
                refl;
      }

  moves-Books :
      (p : Parser) (first : LtpStore F) (s : Sharder F) (accepted : List (ℕ × Text)) (hands : Hands)
      (i : ℕ) (w : Worker F) (m : Moment) (writes : List Bool)
      → get_elem? s.workers i ≡ some w
      → Books J p first (s, accepted, hands)
      → let (c, es) = step m w.ws in
        Books J p first (
          record s { workers = set s.workers i (react J es writes (record w { ws = c })).1 },
          accepted ++ tagged i (taken es w.cons.queue),
          hands,
        )
  moves-Books p first s accepted hands i w m writes at b =
      let (c, es) = step m w.ws in
      let new = taken es w.cons.queue in
      let w' = (react J es writes (record w { ws = c })).1 in
      let mine = b.each i w at in
      let moved =
        react-Sound J es writes p (of_worker i accepted) (of_worker i b.processed) (hands i)
          (record w { ws = c })
          (record {
            valid = mine.valid;
            running = mine.running;
            same_parser = mine.same_parser;
            split = mine.split;
          }) in
      record {
        processed = b.processed;
        theirs = rw (length-set s.workers i w') b.theirs;
        each =
            set-each J p s i w w' accepted (accepted ++ tagged i new) b.processed b.processed hands
              hands at b.each (rw (of_worker-tagged i accepted new) moved)
              (λ j ne. (of_worker-tagged_other i j accepted new ne, refl, refl));
        stored = b.stored;
      }

  subscribes-Books :
      (p : Parser) (first : LtpStore F) (s : Sharder F) (accepted : List (ℕ × Text)) (hands : Hands)
      (i : ℕ) (w : Worker F) (writes : List Bool)
      → get_elem? s.workers i ≡ some w
      → Books J p first (s, accepted, hands)
      → Books J p first
          (record s { workers = set s.workers i (send_subscribes J writes w).1 }, accepted, hands)
  unfolding send_subscribes
  subscribes-Books p first s accepted hands i w writes at b =
      let mine = b.each i w at in
      record {
        processed = b.processed;
        theirs = rw (length-set s.workers i (send_subscribes J writes w).1) b.theirs;
        each =
            set-each J p s i w (send_subscribes J writes w).1 accepted accepted b.processed
              b.processed hands hands at b.each
              (record {
                valid = mine.valid;
                running = mine.running;
                same_parser = mine.same_parser;
                split = mine.split;
              })
              (λ j ne. (refl, refl, refl));
        stored = b.stored;
      }

  pub feed-Books :
      (p : Parser) (first : LtpStore F) (r : Fed F) (e : Feed)
      → Books J p first r
      → Books J p first (feed J r e)
  unfolding feed
  feed-Books p first (s, accepted, hands) (moves i m writes) b =
      elim (Option-cases (get_elem? s.workers i)) [
        | inl out ↦ rw (out, feed) b
        | inr (w, at) ↦ rw (at, feed) (moves-Books p first s accepted hands i w m writes at b)
      ]
  feed-Books p first (s, accepted, hands) (subscribes i writes) b =
      elim (Option-cases (get_elem? s.workers i)) [
        | inl out ↦ rw (out, feed) b
        | inr (w, at) ↦ rw (at, feed) (subscribes-Books p first s accepted hands i w writes at b)
      ]
  feed-Books p first (s, accepted, hands) (takes i) b = elim (Option-cases (hands i)) [
    | inr (x, has) ↦ rw (has, feed) b
    | inl free ↦ elim (Option-cases (get_elem? s.workers i)) [
      | inl out ↦ rw (free, out, feed) b
      | inr (w, at) ↦
          rw (free, at, feed)
            (takes-Books p first s accepted hands i w (contents w.cons.queue) at free refl b)
    ]
  ]
  feed-Books p first (s, accepted, hands) (stores i) b = elim (Option-cases (hands i)) [
    | inl free ↦ rw (free, feed) b
    | inr (x, has) ↦ elim (Option-cases (get_elem? s.workers i)) [
      | inl out ↦ rw (has, out, feed) b
      | inr (w, at) ↦ rw (has, at, feed) (stores-Books p first s accepted hands i w x at has b)
    ]
  ]
