-- ===== src/Ingest/Tests.antt =====
-- The ring at work on a few frames.
use real_time_market_data.Base.{
  ◌-◌, ◌^◌, ◌≡◌, refl, true, false, List, [], ◌∷◌, codes, arith, length,
}
use real_time_market_data.Ingest.{
  IngestQueue, smear, next_pow2, init, capacity, try_push, try_pop, size, empty, full, clear,
}
use real_time_market_data.Ingest.Fifo
use real_time_market_data.Ingest.Fifo.{Op, put, get, ask_size, ask_empty, ask_full, reset, Reply}
use real_time_market_data.Ingest.Window.{contents}
use real_time_market_data.Ingest.Pow2.{IsRounded, next_pow2-IsRounded}
use real_time_market_data.Ingest.Invariant.{IsValid, init-IsValid}
use real_time_market_data.Ingest.Refine.{run, run_refines, init_refines}
use real_time_market_data.Base.{◌++◌}
use real_time_market_data.Ingest.Threads.{
  Turn, produces, consumes, at_rest, interleave, access, push_access, pop_access, load, resting,
  away,
}
use real_time_market_data.Ingest.Threads.Slots.{waiting}
use real_time_market_data.Ingest.Threads.Exchange.{interleave_exchanges}
use real_time_market_data.Ingest.Threads.Races.{RaceFree, interleave-RaceFree}
use real_time_market_data.Ingest.Threads.Alone.{
  push_rest, pop_rest, Pushed, Popped, calls_alone_refine,
}

abbrev some_calls : List Op
some_calls =
    put (codes "a")
    ∷ put (codes "b")
    ∷ ask_size
    ∷ get
    ∷ get
    ∷ get
    ∷ ask_empty
    ∷ reset
    ∷ ask_full
    ∷ []

abbrev some_replies : List Reply
some_replies =
    Reply.pushed true
    ∷ Reply.pushed true
    ∷ Reply.sized 2
    ∷ Reply.popped true (codes "a")
    ∷ Reply.popped true (codes "b")
    ∷ Reply.popped false []
    ∷ Reply.told true
    ∷ Reply.done
    ∷ Reply.told false
    ∷ []

-- A capacity of 5 is rounded to 8; the calls give what a queue gives.
capacity_5 : capacity (init 5) ≡ 8
unfolding capacity init next_pow2
capacity_5 = refl

next_pow2_100 : next_pow2 100 ≡ 128
unfolding next_pow2 smear
next_pow2_100 = refl

run-some_calls : run (init 5) some_calls ≡ some_replies
unfolding run init try_push try_pop clear next_pow2 size empty full
run-some_calls = refl

-- Counters just below the wrap at 2 ^ 64.
abbrev late : IngestQueue
late = record {
  buf = [] ∷ [] ∷ [] ∷ [] ∷ [] ∷ [] ∷ codes "x" ∷ [] ∷ [];
  mask = 7;
  head = 2 ^ 64 - 1;
  tail = 2 ^ 64 - 2;
}

late-IsValid : IsValid late
late-IsValid = record {
  bits = 3;
  at_least = omega arith;
  at_most = omega arith;
  slots = refl;
  masks = refl;
  head_fits = omega arith;
  tail_fits = omega arith;
  held = omega arith;
}

init_refines_example : run (init 5) some_calls ≡ Fifo.run (next_pow2 5) [] some_calls
init_refines_example = init_refines 5 some_calls (omega arith)

run_refines_example : run late some_calls ≡ Fifo.run 8 (codes "x" ∷ []) some_calls
run_refines_example = run_refines some_calls late-IsValid

next_pow2-IsRounded_example : IsRounded 100 (next_pow2 100)
next_pow2-IsRounded_example = next_pow2-IsRounded 100 (omega arith)

-- The consumer starts between the producer's write and its publication, and misses the frame; so does
-- its next call, whose load is late; the one after that gets it.
abbrev some_turns : List Turn
some_turns =
    produces 0 (codes "a")
    ∷ produces 0 []
    ∷ produces 0 []
    ∷ consumes 0
    ∷ consumes 0
    ∷ produces 0 []
    ∷ consumes 0
    ∷ consumes 1
    ∷ consumes 0
    ∷ consumes 0
    ∷ consumes 0
    ∷ consumes 0
    ∷ []

interleave_exchanges_example :
    ((interleave (at_rest (init 8)) some_turns).sent
      ≡ (interleave (at_rest (init 8)) some_turns).got
        ++ waiting
            (interleave (at_rest (init 8)) some_turns).taker
            (interleave (at_rest (init 8)) some_turns).q)
    × IsValid (interleave (at_rest (init 8)) some_turns).q
interleave_exchanges_example =
    interleave_exchanges (init 8) some_turns (init-IsValid 8 (omega arith)) (unfold init in refl)

got_some_turns : (interleave (at_rest (init 8)) some_turns).got ≡ codes "a" ∷ []
unfolding interleave access push_access pop_access load init next_pow2 capacity
got_some_turns = refl

calls_alone_refine_example :
    Pushed
      (codes "a")
      (push_rest 2 3 (codes "a") (push_access 2 (codes "a") resting (at_rest late)))
      (length late.buf)
      (contents late)
    × Popped (pop_rest 2 3 (pop_access 2 away (at_rest late))) (contents late)
calls_alone_refine_example = calls_alone_refine 2 late (codes "a") late-IsValid

interleave-RaceFree_example : RaceFree (interleave (at_rest (init 8)) some_turns)
interleave-RaceFree_example =
    interleave-RaceFree (init 8) some_turns (init-IsValid 8 (omega arith)) (unfold init in refl)
