-- ===== src/Sharder/Needs.antt =====
-- How much work is left to the consumers of src/sharder.cpp, and that each part of a round that a worker
-- does is one part less.
use real_time_market_data.Base.{
  ℕ, ◌+◌, ◌*◌, ◌≤◌, ◌≡◌, ◌≢◌, refl, sym, ap, ◌∙◌, inl, inr, List, [], ◌∷◌, Option, none, some, Text,
  arith, ◌==◌, if◌then◌else◌, Bool-cases, Option-cases, get_elem?, set, get_elem?-set_self,
  get_elem?-set_ne, some_inj, length,
}
use real_time_market_data.Json.{Floats, JsonLib}
use real_time_market_data.Ingest.Window.{contents}
use real_time_market_data.Parser.{Parser, parse_ltp}
use real_time_market_data.Store.{LtpStore}
use real_time_market_data.Consumer.{ingest, take_frame}
use real_time_market_data.Consumer.Halves.{take_frame_idle, take_frame_oldest, ingest-Stores}
use real_time_market_data.Sharder.{Sharder}
use real_time_market_data.Sharder.Workers.{Worker}
use real_time_market_data.Sharder.Feeding.{
  takes, stores, index_fits, Hands, hold, Fed, store_one, feed,
}
use real_time_market_data.Sharder.Books.{Books, hold_self, hold_other}

-- The parts of a round that a worker still needs for what it holds.
abbrev pub weight : Option Text → List Text → ℕ
weight none queued = 2 * length queued
weight (some x) queued = 2 * length queued + 1

-- How often a worker gets to run.
abbrev pub share : ℕ → List ℕ → ℕ
share i [] = 0
share i (j ∷ js) = (if j == i then 1 else 0) + share i js

module _ {F : Floats} (J : JsonLib F) where
  -- The next part of a round of a worker's consumer.
  unfoldable pub advance : Fed F → ℕ → Fed F
  advance (s, accepted, hands) i =
      feed J (s, accepted, hands) (elim (hands i) [ none ↦ takes i | some x ↦ stores i ])

  unfoldable pub advance_all : Fed F → List ℕ → Fed F
  unfolding advance
  advance_all r [] = r
  advance_all r (i ∷ is) = advance_all (advance r i) is

  -- Each worker needs at most so many parts.
  abbrev pub Needs : Fed F → (ℕ → ℕ) → Type 0
  Needs r n =
      (i : ℕ) (w : Worker F)
      → get_elem? (r.0).workers i ≡ some w
      → weight (r.2 i) (contents w.cons.queue) ≤ n i

  abbrev spent : ℕ → (ℕ → ℕ) → ℕ → ℕ
  spent i n j = (if i == j then 1 else 0) + n j

  -- The needs after one worker has changed.
  set-Needs :
      (s : Sharder F) (i : ℕ) (w w' : Worker F) (hands : Hands) (o : Option Text) (n : ℕ → ℕ)
      → get_elem? s.workers i ≡ some w
      → ((j : ℕ) (v : Worker F)
          → get_elem? s.workers j ≡ some v
          → weight (hands j) (contents v.cons.queue) ≤ spent i n j)
      → weight o (contents w'.cons.queue) ≤ n i
      → (j : ℕ) (v : Worker F) → get_elem? (set s.workers i w') j ≡ some v
      → weight (hold i o hands j) (contents v.cons.queue) ≤ n j
  set-Needs s i w w' hands o n at each own j v h = elim (Bool-cases (i == j)) [
    | inl e ↦
        let same : i ≡ j = ground arith in
        let found : w' ≡ v = some_inj (
          sym (get_elem?-set_self s.workers i w' (index_fits s.workers i w at))
          ∙ ap (get_elem? (set s.workers i w')) same
          ∙ h) in
        rw (← same, ← found, hold_self J i o hands) own
    | inr e ↦
        let differ : i ≢ j = ground arith in
        let before = each j v (sym (get_elem?-set_ne s.workers w' differ) ∙ h) in
        rw (hold_other J i j o hands differ) (omega (arith, rw e at before))
  ]

  out_of_range :
      (s : Sharder F) (i : ℕ) (hands : Hands) (n : ℕ → ℕ)
      → get_elem? s.workers i ≡ none
      → ((j : ℕ) (v : Worker F)
          → get_elem? s.workers j ≡ some v
          → weight (hands j) (contents v.cons.queue) ≤ spent i n j)
      → (j : ℕ) (v : Worker F) → get_elem? s.workers j ≡ some v
      → weight (hands j) (contents v.cons.queue) ≤ n j
  out_of_range s i hands n out each j v h = elim (Bool-cases (i == j)) [
    | inl e ↦ let same : i ≡ j = ground arith in cc (out, h, ap (get_elem? s.workers) same)
    | inr e ↦ omega (arith, rw e at (each j v h))
  ]

  -- One part of a round, done by the worker that gets to run, is one part less to do.
  takes-Needs :
      (p : Parser) (first : LtpStore F) (s : Sharder F) (accepted : List (ℕ × Text)) (hands : Hands)
      (i : ℕ) (w : Worker F) (n : ℕ → ℕ) (waiting : List Text)
      → get_elem? s.workers i ≡ some w
      → hands i ≡ none
      → contents w.cons.queue ≡ waiting
      → Books J p first (s, accepted, hands)
      → Needs (s, accepted, hands) (spent i n)
      → Needs
          (
            record s { workers = set s.workers i (record w { cons = (take_frame w.cons).1 }) },
            accepted,
            hold i (take_frame w.cons).0 hands,
          )
          n
  takes-Needs p first s accepted hands i w n [] at free e b each =
      let idle = take_frame_idle w.cons (b.each i w at).valid e in
      rw idle (set-Needs s i w w hands none n at each (omega (arith, ap length e)))
  takes-Needs p first s accepted hands i w n (x ∷ rest) at free e b each =
      let mine = b.each i w at in
      let (q, v, left, took) = take_frame_oldest w.cons x rest mine.valid mine.running e in
      let mine_before = rw (free, e) at (each i w at) in
      rw took (
        set-Needs s i w (record w { cons = record (w.cons) { queue = q; msg = x } }) hands (some x)
          n at each (rw left (ground (arith, mine_before))))

  stores-Needs :
      (s : Sharder F) (accepted : List (ℕ × Text)) (hands : Hands) (i : ℕ) (w : Worker F)
      (n : ℕ → ℕ) (x : Text)
      → get_elem? s.workers i ≡ some w
      → hands i ≡ some x
      → Needs (s, accepted, hands) (spent i n)
      → Needs (store_one J s i w x, accepted, hold i none hands) n
  unfolding store_one
  stores-Needs s accepted hands i w n x at has each =
      let c = record (w.cons) { store = s.store } in
      let t = ingest-Stores J c x in
      let mine_before = rw has at (each i w at) in
      set-Needs s i w (record w { cons = ingest J c (parse_ltp J w.cons.parser x) }) hands none n at
        each (rw t.same_queue (ground (arith, mine_before)))

  feed_takes-Needs :
      (p : Parser) (first : LtpStore F) (s : Sharder F) (accepted : List (ℕ × Text)) (hands : Hands)
      (i : ℕ) (n : ℕ → ℕ)
      → hands i ≡ none
      → Books J p first (s, accepted, hands)
      → Needs (s, accepted, hands) (spent i n)
      → Needs (feed J (s, accepted, hands) (takes i)) n
  unfolding feed
  feed_takes-Needs p first s accepted hands i n free b each =
      elim (Option-cases (get_elem? s.workers i)) [
        | inl out ↦ rw (free, out, feed) (out_of_range s i hands n out each)
        | inr (w, at) ↦
            rw (free, at, feed)
              (takes-Needs p first s accepted hands i w n (contents w.cons.queue) at free refl b
                each)
      ]

  feed_stores-Needs :
      (s : Sharder F) (accepted : List (ℕ × Text)) (hands : Hands) (i : ℕ) (n : ℕ → ℕ) (x : Text)
      → hands i ≡ some x
      → Needs (s, accepted, hands) (spent i n)
      → Needs (feed J (s, accepted, hands) (stores i)) n
  unfolding feed
  feed_stores-Needs s accepted hands i n x has each = elim (Option-cases (get_elem? s.workers i)) [
    | inl out ↦ rw (has, out, feed) (out_of_range s i hands n out each)
    | inr (w, at) ↦ rw (has, at, feed) (stores-Needs s accepted hands i w n x at has each)
  ]

  pub advance-Needs :
      (p : Parser) (first : LtpStore F) (r : Fed F) (i : ℕ) (n : ℕ → ℕ)
      → Books J p first r
      → Needs r (spent i n)
      → Needs (advance r i) n
  unfolding advance
  advance-Needs p first (s, accepted, hands) i n b each = elim (Option-cases (hands i)) [
    | inl free ↦ rw free (feed_takes-Needs p first s accepted hands i n free b each)
    | inr (x, has) ↦ rw has (feed_stores-Needs s accepted hands i n x has each)
  ]
