-- ===== src/Sharder/Arrival.antt =====
-- A frame that reaches a connection of src/sharder.cpp: its queue takes it, or it is dropped and counted.
use real_time_market_data.Base.{
  ℕ, ◌+◌, ◌≡◌, refl, ap, Bool, true, false, List, [], ◌∷◌, ◌++◌, some, Text, ◌==◌, arith, length,
  get_elem?, set, get_elem?-set_self, get_elem?-set_ne, ◌≢◌,
}
use real_time_market_data.Json.{Floats, JsonLib}
use real_time_market_data.Ingest.Fifo
use real_time_market_data.Ingest.Invariant.{IsValid}
use real_time_market_data.Ingest.Window.{contents}
use real_time_market_data.Ingest.Refine.{try_push_refines}
use real_time_market_data.WebSocket.{Phase, Moment, Effect, Client, step}
use real_time_market_data.Sharder.{Sharder}
use real_time_market_data.Sharder.Workers.{Worker, react, on_message}
use real_time_market_data.Sharder.Feeding.{
  Feed, moves, taken, tagged, index_fits, Fed, feed, feed_all,
}
use real_time_market_data.Sharder.Prices.{launched, no_frames, feed_all-Books, launched-Books}

module _ {F : Floats} (J : JsonLib F) where
  -- A worker after a frame has reached it, and the frames of its queue that are new.
  pub record Reached (i : ℕ) (x : Text) (w w' : Worker F) (new : List (ℕ × Text)) : Type 0 where
    pub same_socket : w'.ws ≡ w.ws
    pub room :
        (length (contents w.cons.queue) == length w.cons.queue.buf) ≡ false
        → (contents w'.cons.queue ≡ contents w.cons.queue ++ x ∷ [])
          × (w'.dropped ≡ w.dropped)
          × (new ≡ (i, x) ∷ [])
    pub no_room :
        (length (contents w.cons.queue) == length w.cons.queue.buf) ≡ true
        → (contents w'.cons.queue ≡ contents w.cons.queue)
          × (w'.dropped ≡ w.dropped + 1)
          × (new ≡ [])

  step-frame :
      (x : Text) (c : Client)
      → c.phase ≡ Phase.reading
      → c.running ≡ true
      → step (Moment.frame x) c ≡ (c, Effect.message x ∷ [])
  unfolding step
  step-frame x c at on = ground arith

  on_message-Reached :
      (i : ℕ) (x : Text) (w : Worker F)
      → IsValid w.cons.queue
      → Reached i x w (on_message x w) (tagged i (taken (Effect.message x ∷ []) w.cons.queue))
  unfolding on_message taken Fifo.push
  on_message-Reached i x w v = record {
    same_socket = ground arith;
    room = λ e. ground (arith, try_push_refines x v, e);
    no_room = λ e. ground (arith, try_push_refines x v, e);
  }

  feed-frame :
      (r : Fed F) (i : ℕ) (x : Text) (writes : List Bool) (w : Worker F)
      → get_elem? (r.0).workers i ≡ some w
      → w.ws.phase ≡ Phase.reading
      → w.ws.running ≡ true
      → feed J r (moves i (Moment.frame x) writes) ≡ (
        record (r.0) { workers = set (r.0).workers i (on_message x w) },
        r.1 ++ tagged i (taken (Effect.message x ∷ []) w.cons.queue),
        r.2,
      )
  unfolding feed react
  feed-frame (s, accepted, hands) i x writes w at reads on =
      rw (at, feed) (rw (step-frame x w.ws reads on) refl)

  -- In any state that the launched workers can come to, where a worker's connection thread reads and
  -- its flag is up: a frame that comes is appended to the worker's queue and to the accepted ones if
  -- the queue has a free slot; if not, the queue and the accepted ones stay as they are and one more
  -- warning of a dropped frame is counted. The connection, the other workers and the store are
  -- unchanged.
  pub frame_arrives :
      (s : Sharder F) (es : List Feed) (i : ℕ) (x : Text) (writes : List Bool) (w : Worker F)
      → let r = feed_all J (launched J s, [], no_frames J) es in
        get_elem? (r.0).workers i ≡ some w
        → w.ws.phase ≡ Phase.reading
        → w.ws.running ≡ true
        → let r' = feed J r (moves i (Moment.frame x) writes) in
          (w' : Worker F) × (new : List (ℕ × Text)) × (get_elem? (r'.0).workers i ≡ some w')
          × (r'.1 ≡ r.1 ++ new)
          × ((j : ℕ) → i ≢ j → get_elem? (r'.0).workers j ≡ get_elem? (r.0).workers j)
          × ((r'.0).store ≡ (r.0).store)
          × Reached i x w w' new
  frame_arrives s es i x writes w at reads on =
      let r = feed_all J (launched J s, [], no_frames J) es in
      let b =
        feed_all-Books J es s.parser s.store (launched J s, [], no_frames J) (launched-Books J s) in
      let v = (b.each i w at).valid in
      let e = feed-frame r i x writes w at reads on in
      (
        on_message x w,
        tagged i (taken (Effect.message x ∷ []) w.cons.queue),
        rw e
            (get_elem?-set_self (r.0).workers i (on_message x w) (index_fits (r.0).workers i w at)),
        ap (λ (f : Fed F). f.1) e,
        λ j ne. rw e (get_elem?-set_ne (r.0).workers (on_message x w) ne),
        ap (λ (f : Fed F). (f.0).store) e,
        on_message-Reached i x w v,
      )
