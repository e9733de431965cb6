-- ===== src/Consumer/Drain.antt =====
-- What the store holds after any schedule, and that enough rounds empty the queue.
use real_time_market_data.Base.{
  ℕ, zero, suc, ◌≤◌, ◌≡◌, refl, sym, ap, subst, ◌∙◌, true, List, [], ◌∷◌, ◌++◌, Text, arith, length,
  or_else, append-nil,
}
use real_time_market_data.Json.{Floats, JsonLib}
use real_time_market_data.Ingest.Invariant.{IsValid}
use real_time_market_data.Ingest.Window.{contents}
use real_time_market_data.Store.{get}
use real_time_market_data.Store.Latest.{
  write_all, write_all-append, write_all-nil, last_for, get-write_all,
}
use real_time_market_data.Consumer.{Consumer, turn}
use real_time_market_data.Consumer.Pipeline.{
  parsed, parsed-nil, parsed-append, turn-Took, turn_idle, Event, happen_all, Accounts,
  happen_all-Accounts,
}

module _ {F : Floats} (J : JsonLib F) where
  start-Accounts :
      (c : Consumer F)
      → IsValid c.queue
      → c.running ≡ true
      → contents c.queue ≡ []
      → Accounts J c (c, [])
  start-Accounts c v on e = record {
    processed = [];
    valid = v;
    running = on;
    same_parser = refl;
    same_sink = refl;
    accepted = sym e;
    stored = rw parsed-nil (sym (write_all-nil c.store));
    passed_on = rw parsed-nil (ground (arith, append-nil c.sunk));
  }

  -- For a running consumer that begins with a valid and empty queue, and any schedule of arrivals
  -- and rounds: the frames that the queue accepted are some that were processed and then those that
  -- wait, in the order of their arrival, and a token's price is the one of the last processed frame
  -- that gives it one, or the price it had before if none does.
  happen_all_lem :
      (es : List Event) (c : Consumer F)
      → IsValid c.queue
      → c.running ≡ true
      → contents c.queue ≡ []
      → let (c', accepted) = happen_all J (c, []) es in
        (processed : List Text) × (accepted ≡ processed ++ contents c'.queue)
        × ((token : Text)
            → get token c'.store
              ≡ or_else (last_for token (parsed J c.parser processed)) (get token c.store))
  happen_all_lem es c v on e =
      let a = happen_all-Accounts J es c (c, []) (start-Accounts c v on e) in
      (
        a.processed,
        a.accepted,
        λ token.
            ap (get token) a.stored ∙ get-write_all (parsed J c.parser a.processed) c.store token,
      )

  pub rounds : ℕ → Consumer F → Consumer F
  rounds zero c = c
  rounds (suc n) c = rounds n (turn J c)

  drain :
      (n : ℕ) (c : Consumer F) (held : List Text)
      → IsValid c.queue
      → c.running ≡ true
      → contents c.queue ≡ held
      → length held ≤ n
      → (contents (rounds n c).queue ≡ [])
        × ((rounds n c).store ≡ write_all c.store (parsed J c.parser held))
  unfolding rounds
  drain zero c [] v on e h = (e, rw parsed-nil (sym (write_all-nil c.store)))
  drain zero c (x ∷ held) v on e h = absurd (omega arith)
  drain (suc n) c [] v on e h =
      subst
        (λ (d : Consumer F).
          (contents (rounds n d).queue ≡ [])
          × ((rounds n d).store ≡ write_all c.store (parsed J c.parser [])))
        (sym (turn_idle J c v e)) (drain n c [] v on e (omega arith))
  drain (suc n) c (x ∷ held) v on e h =
      let t = turn-Took J c x held v on e in
      let ih = drain n (turn J c) held t.valid (t.same_flag ∙ on) t.left (omega arith) in
      (
        ih.0,
        ih.1
            ∙ rw (t.stored, t.same_parser)
                (sym (
                  ap (write_all c.store) (parsed-append J c.parser (x ∷ []) held)
                  ∙ write_all-append c.store (parsed J c.parser (x ∷ []))
                      (parsed J c.parser held))),
      )

  -- For a running consumer with a valid queue of at most n frames, n rounds without arrivals empty
  -- the queue and leave the store with the prices of all its frames written in order.
  rounds_drain :
      (n : ℕ) (c : Consumer F)
      → IsValid c.queue
      → c.running ≡ true
      → length (contents c.queue) ≤ n
      → (contents (rounds n c).queue ≡ [])
        × ((rounds n c).store ≡ write_all c.store (parsed J c.parser (contents c.queue)))
  rounds_drain n c v on h = drain n c (contents c.queue) v on refl h
