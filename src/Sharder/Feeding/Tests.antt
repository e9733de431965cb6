-- ===== src/Sharder/Feeding/Tests.antt =====
-- Two workers at work: their threads connect, frames come, and their consumers take them.
use real_time_market_data.Base.{
  ℕ, ◌≢◌, ◌++◌, get_elem?, or_else, ◌≡◌, refl, true, List, [], ◌∷◌, Text, arith, none, some, length,
  zero, suc, ◌≤◌, some_inj,
}
use real_time_market_data.Ingest
use real_time_market_data.Parser.{has_prefix}
use real_time_market_data.Url.{split_url, split_rest, split_host, cut_at}
use real_time_market_data.Samples.{Whole, Small, quote_frame, priceless_frame}
use real_time_market_data.Store.{empty_store}
use real_time_market_data.Consumer
use real_time_market_data.WebSocket
use real_time_market_data.WebSocket.{Client, Phase, Moment, parse_wss, step, run, text_message}
use real_time_market_data.Sharder.Workers.{Worker, start_consumer, make_worker, on_message, react}
use real_time_market_data.Sharder.{build_workers, shard, start_consumers}
use real_time_market_data.Sharder.Feeding.{
  Feed, moves, subscribes, takes, stores, of_worker, OfWorkers, in_hand, frames, feed, feed_all,
}
use real_time_market_data.Sharder.Needs.{weight, share, advance_all}
use real_time_market_data.Sharder.Arrival.{Reached, frame_arrives}
use real_time_market_data.Sharder.Drain.{advance_all_lem}
use real_time_market_data.Sharder.Prices.{launched, no_frames, feed_all_lem}
use real_time_market_data.Ingest.Window.{contents}
use real_time_market_data.Store.{get}
use real_time_market_data.Store.Latest.{last_for}
use real_time_market_data.Consumer.Pipeline.{parsed}
use real_time_market_data.Sharder.Samples.{parser, sharder}

-- A thread begins and connects.
abbrev connected : ℕ → List Feed
connected i = moves i Moment.begins [] ∷ moves i Moment.connects [] ∷ []

abbrev feeds : List Feed
feeds =
    connected 0
    ++ connected 1
    ++ subscribes 0 (true ∷ [])
      ∷ moves 0 (Moment.frame quote_frame) []
      ∷ moves 1 (Moment.frame priceless_frame) []
      ∷ takes 0
      ∷ takes 1
      ∷ stores 1
      ∷ stores 0
      ∷ []

feed_all_lem_example :
    let (s', accepted, hands) =
      feed_all Small (launched Small sharder, [], no_frames Small) feeds in
    (processed : List (ℕ × Text)) × OfWorkers (length s'.workers) processed
    × ((i : ℕ) (w : Worker Whole)
        → get_elem? s'.workers i ≡ some w
        → of_worker i accepted
          ≡ of_worker i processed ++ (in_hand (hands i) ++ contents w.cons.queue))
    × ((token : Text)
        → get token s'.store
          ≡ or_else
              (last_for token (parsed Small sharder.parser (frames processed)))
              (get token sharder.store))
feed_all_lem_example = feed_all_lem Small sharder feeds

-- Each queue has a frame.
abbrev arrived : List Feed
arrived =
    connected 0
    ++ connected 1
    ++ moves 0 (Moment.frame quote_frame) [] ∷ moves 1 (Moment.frame priceless_frame) [] ∷ []

abbrev later : List ℕ
later = 1 ∷ 0 ∷ 1 ∷ 0 ∷ []

enough :
    (i : ℕ) (w : Worker Whole)
    → let (s', accepted, hands) =
        feed_all Small (launched Small sharder, [], no_frames Small) arrived in
      get_elem? s'.workers i ≡ some w → weight (hands i) (contents w.cons.queue) ≤ share i later
unfolding feed_all build_workers Ingest.try_push Ingest.init Ingest.next_pow2 Ingest.capacity
    Consumer.init Consumer.start start_consumers start_consumer make_worker on_message shard step
    react parse_wss split_url split_rest split_host cut_at has_prefix WebSocket.init
enough zero w h = rw (← some_inj h) (omega arith)
enough (suc zero) w h = rw (← some_inj h) (omega arith)
enough (suc (suc i)) w h = cc

advance_all_lem_example :
    let r = feed_all Small (launched Small sharder, [], no_frames Small) arrived in
    let (s', accepted, hands) = advance_all Small r later in
    (processed : List (ℕ × Text)) × OfWorkers (length s'.workers) processed
    × (length s'.workers ≡ length (r.0).workers)
    × ((i : ℕ) (w : Worker Whole)
        → get_elem? s'.workers i ≡ some w
        → (contents w.cons.queue ≡ [])
          × (hands i ≡ none)
          × (of_worker i r.1 ≡ of_worker i processed))
    × ((token : Text)
        → get token s'.store
          ≡ or_else
              (last_for token (parsed Small sharder.parser (frames processed)))
              (get token sharder.store))
advance_all_lem_example = advance_all_lem Small sharder arrived later enough

-- The first worker's connection is up, and a frame comes.
abbrev up : List Feed
up = connected 0

abbrev first : Worker Whole
first =
    elim (get_elem? (feed_all Small (launched Small sharder, [], no_frames Small) up).0.workers 0) [
      | some w ↦ w
      | none ↦ make_worker sharder.opts [] parser empty_store []
    ]

frame_arrives_example :
    let r = feed_all Small (launched Small sharder, [], no_frames Small) up in
    let r' = feed Small r (moves 0 (Moment.frame quote_frame) []) in
    (w' : Worker Whole) × (new : List (ℕ × Text)) × (get_elem? (r'.0).workers 0 ≡ some w')
    × (r'.1 ≡ r.1 ++ new)
    × ((j : ℕ) → 0 ≢ j → get_elem? (r'.0).workers j ≡ get_elem? (r.0).workers j)
    × ((r'.0).store ≡ (r.0).store)
    × Reached Small 0 quote_frame first w' new
unfolding feed_all build_workers start_consumers start_consumer make_worker shard step react
    parse_wss split_url split_rest split_host cut_at has_prefix WebSocket.init
frame_arrives_example = frame_arrives Small sharder up 0 quote_frame [] first refl refl refl
