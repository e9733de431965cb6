-- ===== src/Consumer/Halves.antt =====
-- A round in two parts: a frame is taken, and its price is stored.
use real_time_market_data.Base.{
  ◌≡◌, refl, sym, inl, inr, Option-cases, true, List, [], ◌∷◌, none, some, Text, arith,
}
use real_time_market_data.Json.{Floats, JsonLib}
use real_time_market_data.Ingest.{IngestQueue, try_pop}
use real_time_market_data.Ingest.Fifo
use real_time_market_data.Ingest.Invariant.{IsValid, try_pop-IsValid}
use real_time_market_data.Ingest.Window.{contents}
use real_time_market_data.Ingest.Refine.{try_pop_refines, try_pop_nothing}
use real_time_market_data.Parser.{parse_ltp}
use real_time_market_data.Store.Latest.{write_all, write_all-nil, write_all_one}
use real_time_market_data.Consumer.Pipeline.{parsed, parsed_one}
use real_time_market_data.Consumer.{Consumer, ingest, turn, take_frame}

module _ {F : Floats} where
  -- The two parts, one after the other, are the round.
  turn-take_frame :
      (J : JsonLib F) (c : Consumer F)
      → turn J c ≡ (
          let (taken, c') = take_frame c in
          elim taken [ none ↦ c' | some x ↦ ingest J c' (parse_ltp J c'.parser x) ])
  unfolding turn take_frame
  turn-take_frame J c = ground arith

  pub take_frame_idle :
      (c : Consumer F) → IsValid c.queue → contents c.queue ≡ [] → take_frame c ≡ (none, c)
  unfolding take_frame
  take_frame_idle c v e = rw (try_pop_nothing c.msg v e) (ground arith)

  -- What is taken is the oldest frame.
  pub take_frame_oldest :
      (c : Consumer F) (x : Text) (rest : List Text)
      → IsValid c.queue
      → c.running ≡ true
      → contents c.queue ≡ x ∷ rest
      → (q : IngestQueue) × IsValid q
        × (contents q ≡ rest)
        × (take_frame c ≡ (some x, record c { queue = q; msg = x }))
  unfolding take_frame Fifo.pop
  take_frame_oldest c x rest v on e =
      let (found, left, out) = rw e at (try_pop_refines c.msg v) in
      ((try_pop c.msg c.queue).2, try_pop-IsValid c.msg v, left, rw (on, found, out) refl)

module _ {F : Floats} (J : JsonLib F) where
  -- What storing changes is the store, and the sink's record.
  pub record Stores (c : Consumer F) (x : Text) (c' : Consumer F) : Type 0 where
    pub same_queue : c'.queue ≡ c.queue
    pub same_parser : c'.parser ≡ c.parser
    pub same_flag : c'.running ≡ c.running
    pub stored : c'.store ≡ write_all c.store (parsed J c.parser (x ∷ []))

  pub ingest-Stores : (c : Consumer F) (x : Text) → Stores c x (ingest J c (parse_ltp J c.parser x))
  unfolding ingest
  ingest-Stores c x = elim (Option-cases (parse_ltp J c.parser x)) [
    | inl e ↦ rw e (record {
      same_queue = refl;
      same_parser = refl;
      same_flag = refl;
      stored = rw (parsed_one, e) (sym (write_all-nil c.store));
    })
    | inr (v, e) ↦ rw e (record {
      same_queue = refl;
      same_parser = refl;
      same_flag = refl;
      stored = rw (parsed_one, e) (sym (write_all_one c.store v));
    })
  ]
