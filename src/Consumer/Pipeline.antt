-- ===== src/Consumer/Pipeline.antt =====
-- A consumer under a schedule of arriving frames and rounds: what the store holds is what the accepted
-- frames say, in their order, and a queue that is left alone is drained.
use real_time_market_data.Base.{
  ◌≡◌, refl, sym, ◌∙◌, inl, inr, true, List, [], ◌∷◌, ◌++◌, none, some, Text, arith, if◌then◌else◌,
  append_assoc, append-nil, Option-cases,
}
use real_time_market_data.Json.{Floats, JsonLib}
use real_time_market_data.Ingest.{IngestQueue, try_push, try_pop}
use real_time_market_data.Ingest.Fifo
use real_time_market_data.Ingest.Invariant.{IsValid, try_push-IsValid, try_pop-IsValid}
use real_time_market_data.Ingest.Window.{contents}
use real_time_market_data.Ingest.Refine.{try_push_refines, try_pop_refines, try_pop_nothing}
use real_time_market_data.Parser.{Parser, Ltp, parse_ltp}
use real_time_market_data.Store.Latest.{write_all, write_all-append, write_all-nil, write_all_one}
use real_time_market_data.Consumer.{Consumer, ingest, turn}

-- What happens between the rounds: a frame arrives and is pushed, or dropped on a full queue.
pub data Event : Type 0 where
  arrives : Text → Event
  round : Event

-- The consumer, and the frames that its queue took, oldest first.
abbrev pub Run : Floats → Type 0
Run F = Consumer F × List Text

module _ {F : Floats} (J : JsonLib F) where
  -- The prices that a run of frames gives, in order.
  pub parsed : Parser → List Text → List (Ltp F)
  parsed p [] = []
  parsed p (t ∷ ts) =
      let rest = parsed p ts in elim (parse_ltp J p t) [ none ↦ rest | some v ↦ v ∷ rest ]

  pub parsed-nil : (p : Parser) → parsed p [] ≡ []
  unfolding parsed
  parsed-nil p = refl

  pub parsed-append :
      (p : Parser) (ts us : List Text) → parsed p (ts ++ us) ≡ parsed p ts ++ parsed p us
  unfolding parsed
  parsed-append p [] us = refl
  parsed-append p (t ∷ ts) us = ground (arith, parsed-append p ts us)

  -- What a round does on a queue that holds a frame: everything but the queue and the outputs stays.
  pub record Took (c : Consumer F) (x : Text) (rest : List Text) (c' : Consumer F) : Type 0 where
    pub valid : IsValid c'.queue
    pub left : contents c'.queue ≡ rest
    pub same_parser : c'.parser ≡ c.parser
    pub same_sink : c'.has_sink ≡ c.has_sink
    pub same_flag : c'.running ≡ c.running
    pub stored : c'.store ≡ write_all c.store (parsed c.parser (x ∷ []))
    pub passed_on : c'.sunk ≡ c.sunk ++ (if c.has_sink then parsed c.parser (x ∷ []) else [])

  pub parsed_one :
      (p : Parser) (x : Text)
      → parsed p (x ∷ []) ≡ elim (parse_ltp J p x) [ none ↦ [] | some v ↦ v ∷ [] ]
  unfolding parsed
  parsed_one p x = ground arith

  ingest-Took :
      (c : Consumer F) (q : IngestQueue) (x : Text)
      → IsValid q
      → Took c x (contents q) (ingest J (record c { queue = q; msg = x }) (parse_ltp J c.parser x))
  unfolding ingest
  ingest-Took c q x v = elim (Option-cases (parse_ltp J c.parser x)) [
    | inl e ↦ rw e (record {
      valid = v;
      left = refl;
      same_parser = refl;
      same_sink = refl;
      same_flag = refl;
      stored = rw (parsed_one, e) (sym (write_all-nil c.store));
      passed_on = rw (parsed_one, e) (ground (arith, append-nil c.sunk));
    })
    | inr (a, e) ↦ rw e (record {
      valid = v;
      left = refl;
      same_parser = refl;
      same_sink = refl;
      same_flag = refl;
      stored = rw (parsed_one, e) (sym (write_all_one c.store a));
      passed_on = rw (parsed_one, e) (ground (arith, append-nil c.sunk));
    })
  ]

  turn-eq :
      (c : Consumer F) (x : Text) (rest : List Text)
      → IsValid c.queue
      → c.running ≡ true
      → contents c.queue ≡ x ∷ rest
      → (turn J c
          ≡ ingest J
              (record c { queue = (try_pop c.msg c.queue).2; msg = x })
              (parse_ltp J c.parser x))
        × (contents (try_pop c.msg c.queue).2 ≡ rest)
  unfolding turn Fifo.pop
  turn-eq c x rest v on e =
      let popped = rw e at (try_pop_refines c.msg v) in (rw (on, popped.0, popped.2), popped.1)

  pub turn-Took :
      (c : Consumer F) (x : Text) (rest : List Text)
      → IsValid c.queue
      → c.running ≡ true
      → contents c.queue ≡ x ∷ rest
      → Took c x rest (turn J c)
  turn-Took c x rest v on e =
      let (eq, left) = turn-eq c x rest v on e in
      rw (eq, ← left) (ingest-Took c (try_pop c.msg c.queue).2 x (try_pop-IsValid c.msg v))

  pub turn_idle : (c : Consumer F) → IsValid c.queue → contents c.queue ≡ [] → turn J c ≡ c
  unfolding turn
  turn_idle c v e = rw (try_pop_nothing c.msg v e) (ground arith)

  pub happen : Run F → Event → Run F
  happen (c, accepted) (arrives x) =
      let (taken, q) = try_push x c.queue in
      (record c { queue = q }, if taken then accepted ++ x ∷ [] else accepted)
  happen (c, accepted) round = (turn J c, accepted)

  pub happen_all : Run F → List Event → Run F
  happen_all r [] = r
  happen_all r (e ∷ es) = happen_all (happen r e) es

  -- The frames that were accepted are those processed and those queued, in order; the store and the
  -- sink have seen exactly the prices of those processed.
  pub record Accounts (c₀ : Consumer F) (r : Run F) : Type 0 where
    pub processed : List Text
    pub valid : IsValid (r.0).queue
    pub running : (r.0).running ≡ true
    pub same_parser : (r.0).parser ≡ c₀.parser
    pub same_sink : (r.0).has_sink ≡ c₀.has_sink
    pub accepted : r.1 ≡ processed ++ contents (r.0).queue
    pub stored : (r.0).store ≡ write_all c₀.store (parsed c₀.parser processed)
    pub passed_on : (r.0).sunk ≡ c₀.sunk ++ (if c₀.has_sink then parsed c₀.parser processed else [])

  arrives-Accounts :
      (c₀ : Consumer F) (r : Run F) (x : Text) → Accounts c₀ r → Accounts c₀ (happen r (arrives x))
  unfolding happen Fifo.push
  arrives-Accounts c₀ (c, accepted) x a = record {
    processed = a.processed;
    valid = try_push-IsValid x a.valid;
    running = a.running;
    same_parser = a.same_parser;
    same_sink = a.same_sink;
    accepted =
        ground
          (arith, try_push_refines x a.valid, append_assoc a.processed (contents c.queue) (x ∷ []));
    stored = a.stored;
    passed_on = a.passed_on;
  }

  Took-Accounts :
      (c₀ c c' : Consumer F) (accepted : List Text) (x : Text) (rest : List Text)
      → contents c.queue ≡ x ∷ rest
      → Took c x rest c'
      → Accounts c₀ (c, accepted)
      → Accounts c₀ (c', accepted)
  Took-Accounts c₀ c c' accepted x rest e t a = record {
    processed = a.processed ++ x ∷ [];
    valid = t.valid;
    running = t.same_flag ∙ a.running;
    same_parser = t.same_parser ∙ a.same_parser;
    same_sink = t.same_sink ∙ a.same_sink;
    accepted = a.accepted ∙ rw (e, t.left, append_assoc);
    stored = rw (t.stored, a.stored, a.same_parser, parsed-append, write_all-append);
    passed_on = ground (
      arith,
      t.passed_on,
      parsed-append c₀.parser a.processed (x ∷ []),
      append_assoc c₀.sunk (parsed c₀.parser a.processed) (parsed c₀.parser (x ∷ [])),
      append-nil (c₀.sunk ++ []),
    );
  }

  round-Accounts :
      (c₀ c : Consumer F) (accepted held : List Text)
      → contents c.queue ≡ held
      → Accounts c₀ (c, accepted)
      → Accounts c₀ (turn J c, accepted)
  round-Accounts c₀ c accepted [] e a = rw (turn_idle c a.valid e) a
  round-Accounts c₀ c accepted (x ∷ rest) e a =
      Took-Accounts c₀ c (turn J c) accepted x rest e (turn-Took c x rest a.valid a.running e) a

  happen-Accounts :
      (c₀ : Consumer F) (r : Run F) (e : Event) → Accounts c₀ r → Accounts c₀ (happen r e)
  unfolding happen
  happen-Accounts c₀ r (arrives x) a = arrives-Accounts c₀ r x a
  happen-Accounts c₀ (c, accepted) round a = round-Accounts c₀ c accepted (contents c.queue) refl a

  -- Where the books of a consumer are in order (the accepted frames are the processed ones and then
  -- the queued ones, and the store and the sink have seen exactly the prices of the processed ones),
  -- they still are after any further schedule of arrivals and rounds.
  pub happen_all-Accounts :
      (es : List Event) (c₀ : Consumer F) (r : Run F)
      → Accounts c₀ r
      → Accounts c₀ (happen_all r es)
  unfolding happen_all
  happen_all-Accounts [] c₀ r a = a
  happen_all-Accounts (e ∷ es) c₀ r a =
      happen_all-Accounts es c₀ (happen r e) (happen-Accounts c₀ r e a)
