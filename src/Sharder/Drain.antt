-- ===== src/Sharder/Drain.antt =====
-- The consumers of src/sharder.cpp left alone: what the queues took is processed in the end, in whatever
-- order the threads get to run.
use real_time_market_data.Base.{
  ℕ, ◌≤◌, ◌≡◌, refl, sym, ap, ◌∙◌, inl, inr, List, [], ◌∷◌, Option, none, some, Text, arith,
  append-nil, Option-cases, get_elem?, length, length-set, or_else,
}
use real_time_market_data.Json.{Floats, JsonLib}
use real_time_market_data.Ingest.Window.{contents}
use real_time_market_data.Parser.{Parser}
use real_time_market_data.Store.{LtpStore, get}
use real_time_market_data.Store.Latest.{last_for, get-write_all}
use real_time_market_data.Consumer.Pipeline.{parsed}
use real_time_market_data.Sharder.{Sharder}
use real_time_market_data.Sharder.Workers.{Worker}
use real_time_market_data.Sharder.Feeding.{
  Feed, moves, subscribes, takes, stores, of_worker, OfWorkers, frames, Fed, store_one, feed,
  feed_all,
}
use real_time_market_data.Sharder.Books.{Books}
use real_time_market_data.Sharder.Steps.{feed-Books}
use real_time_market_data.Sharder.Prices.{launched, no_frames, feed_all-Books, launched-Books}
use real_time_market_data.Sharder.Needs.{weight, share, advance, advance_all, Needs, advance-Needs}

module _ {F : Floats} (J : JsonLib F) where
  advance-Books :
      (p : Parser) (first : LtpStore F) (r : Fed F) (i : ℕ)
      → Books J p first r
      → Books J p first (advance J r i)
  unfolding advance
  advance-Books p first (s, accepted, hands) i b =
      feed-Books J p first (s, accepted, hands)
        (elim (hands i) [ none ↦ takes i | some x ↦ stores i ]) b

  -- No frame comes in meanwhile.
  advance-accepted : (r : Fed F) (i : ℕ) → (advance J r i).1 ≡ r.1
  unfolding advance feed
  advance-accepted (s, accepted, hands) i = ground arith

  feed-workers : (r : Fed F) (e : Feed) → length ((feed J r e).0).workers ≡ length (r.0).workers
  unfolding feed store_one
  feed-workers (s, accepted, hands) (moves i m writes) =
      elim (Option-cases (get_elem? s.workers i)) [
        | inl out ↦ rw (out, feed) refl
        | inr (w, at) ↦ rw (at, feed) (length-set s.workers i _)
      ]
  feed-workers (s, accepted, hands) (subscribes i writes) =
      elim (Option-cases (get_elem? s.workers i)) [
        | inl out ↦ rw (out, feed) refl
        | inr (w, at) ↦ rw (at, feed) (length-set s.workers i _)
      ]
  feed-workers (s, accepted, hands) (takes i) = elim (Option-cases (hands i)) [
    | inr (x, has) ↦ rw (has, feed) refl
    | inl free ↦ elim (Option-cases (get_elem? s.workers i)) [
      | inl out ↦ rw (free, out, feed) refl
      | inr (w, at) ↦ rw (free, at, feed) (length-set s.workers i _)
    ]
  ]
  feed-workers (s, accepted, hands) (stores i) = elim (Option-cases (hands i)) [
    | inl free ↦ rw (free, feed) refl
    | inr (x, has) ↦ elim (Option-cases (get_elem? s.workers i)) [
      | inl out ↦ rw (has, out, feed) refl
      | inr (w, at) ↦ rw (has, at, feed) (length-set s.workers i _)
    ]
  ]

  advance-workers : (r : Fed F) (i : ℕ) → length ((advance J r i).0).workers ≡ length (r.0).workers
  unfolding advance
  advance-workers (s, accepted, hands) i =
      feed-workers (s, accepted, hands) (elim (hands i) [ none ↦ takes i | some x ↦ stores i ])

  -- Once each worker has got to run often enough, the books are sound and nothing is left.
  record Done (p : Parser) (first : LtpStore F) (r r' : Fed F) : Type 0 where
    pub books : Books J p first r'
    pub no_more : r'.1 ≡ r.1
    pub as_many : length (r'.0).workers ≡ length (r.0).workers
    pub nothing : Needs J r' (λ i. 0)

  advance_all-Done :
      (is : List ℕ) (p : Parser) (first : LtpStore F) (r : Fed F)
      → Books J p first r
      → Needs J r (λ i. share i is)
      → Done p first r (advance_all J r is)
  unfolding advance_all
  advance_all-Done [] p first r b each = record {
    books = b;
    no_more = refl;
    as_many = refl;
    nothing = each;
  }
  advance_all-Done (i ∷ is) p first r b each =
      let d =
        advance_all-Done is p first (advance J r i) (advance-Books p first r i b)
          (advance-Needs J p first r i (λ j. share j is) b each) in
      record {
        books = d.books;
        no_more = d.no_more ∙ advance-accepted r i;
        as_many = d.as_many ∙ advance-workers r i;
        nothing = d.nothing;
      }

  idle_of_weight :
      (hand : Option Text) (queued : List Text)
      → weight hand queued ≤ 0
      → (hand ≡ none) × (queued ≡ [])
  idle_of_weight none [] h = (refl, refl)
  idle_of_weight none (x ∷ queued) h = absurd (omega arith)
  idle_of_weight (some x) queued h = absurd (omega arith)

  -- For the workers that a sharder builds, with their consumers and their connection threads
  -- started, after moments of the threads, initial subscriptions, takes and stores in any order:
  -- once the threads are left alone, and each consumer gets to run at least as often as the frames
  -- it holds need parts of rounds (two for a waiting frame, one for a frame it has taken), in
  -- whatever order, the workers are as many, every queue is empty and no frame is in a hand, all
  -- frames that each queue accepted have been processed, in order, and a token's price is the one of
  -- the last processed frame that gives it one, or the price it had before if none does.
  pub advance_all_lem :
      (s : Sharder F) (es : List Feed) (is : List ℕ)
      → ((i : ℕ) (w : Worker F)
          → let (s', accepted, hands) = feed_all J (launched J s, [], no_frames J) es in
            get_elem? s'.workers i ≡ some w → weight (hands i) (contents w.cons.queue) ≤ share i is)
      → let r = feed_all J (launched J s, [], no_frames J) es in
        let (s', accepted, hands) = advance_all J r is in
        (processed : List (ℕ × Text)) × OfWorkers (length s'.workers) processed
        × (length s'.workers ≡ length (r.0).workers)
        × ((i : ℕ) (w : Worker F)
            → get_elem? s'.workers i ≡ some w
            → (contents w.cons.queue ≡ [])
              × (hands i ≡ none)
              × (of_worker i r.1 ≡ of_worker i processed))
        × ((token : Text)
            → get token s'.store
              ≡ or_else (last_for token (parsed J s.parser (frames processed))) (get token s.store))
  advance_all_lem s es is enough =
      let r = feed_all J (launched J s, [], no_frames J) es in
      let b =
        feed_all-Books J es s.parser s.store (launched J s, [], no_frames J) (launched-Books J s) in
      let d = advance_all-Done is s.parser s.store r b enough in
      let b' = d.books in
      (
        b'.processed,
        b'.theirs,
        d.as_many,
        λ i w h.
            let (free, drained) =
              idle_of_weight ((advance_all J r is).2 i) (contents w.cons.queue) (d.nothing i w h) in
            (
              drained,
              free,
              ap (of_worker i) (sym d.no_more)
                  ∙ (b'.each i w h).split
                  ∙ rw (free, drained) (append-nil (of_worker i b'.processed)),
            ),
        λ token.
            ap (get token) b'.stored
            ∙ get-write_all (parsed J s.parser (frames b'.processed)) s.store token,
      )
