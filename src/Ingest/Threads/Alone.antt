-- ===== src/Ingest/Threads/Alone.antt =====
-- A call of src/ingest_queue.cpp, cut at its accesses, that no access of the other thread interrupts.
use real_time_market_data.Base.{
  ℕ, zero, suc, ◌≡◌, refl, ap, Bool, List, [], ◌∷◌, Text, arith, if◌then◌else◌, length,
}
use real_time_market_data.Ingest.{IngestQueue, try_push, try_pop}
use real_time_market_data.Ingest.Fifo
use real_time_market_data.Ingest.Window.{contents}
use real_time_market_data.Ingest.Invariant.{IsValid}
use real_time_market_data.Ingest.Refine.{try_push_refines, try_pop_refines}
use real_time_market_data.Ingest.Threads.{
  Threads, push_access, pop_access, load, at_rest, resting, away,
}

-- The accesses that are left of the producer's call, four in all at most.
pub push_rest : ℕ → ℕ → Text → Threads → Threads
unfolding push_access
push_rest lag zero msg s = s
push_rest lag (suc n) msg s =
    let rest = push_rest lag n msg (push_access lag msg s.producer s) in
    elim s.producer [ resting ↦ s | _ ↦ rest ]

pub pop_rest : ℕ → ℕ → Threads → Threads
unfolding pop_access
pop_rest lag zero s = s
pop_rest lag (suc n) s =
    let rest = pop_rest lag n (pop_access lag s.taker s) in elim s.taker [ away ↦ s | _ ↦ rest ]

-- Cut at its accesses, a call does what the operation in one piece does.
calls_alone :
    (lag : ℕ) (q : IngestQueue) (msg : Text)
    → let (sent, q') = try_push msg q in
      let (found, out, q'') = try_pop [] q in
      (push_rest lag 3 msg (push_access lag msg resting (at_rest q)) ≡ record (at_rest q) {
        q = q';
        sent = if sent then msg ∷ [] else [];
        refused = if sent then [] else msg ∷ [];
        old_heads = if sent then q.head ∷ [] else [];
      })
      × (pop_rest lag 3 (pop_access lag away (at_rest q)) ≡ record (at_rest q) {
        q = q'';
        got = if found then out ∷ [] else [];
        old_tails = if found then q.tail ∷ [] else [];
      })
unfolding push_rest pop_rest push_access pop_access load try_push try_pop
calls_alone lag q msg = (ground arith, ground arith)

-- What a push that ended has done, and what a pop that ended has taken.
pub record Pushed (msg : Text) (s : Threads) (cap : ℕ) (held : List Text) : Type 0 where
  pub ended : s.producer ≡ resting
  pub holds : contents s.q ≡ (Fifo.push cap msg held).1
  pub sent : s.sent ≡ (if (Fifo.push cap msg held).0 then msg ∷ [] else [])
  pub refused : s.refused ≡ (if (Fifo.push cap msg held).0 then [] else msg ∷ [])

pub record Popped (s : Threads) (held : List Text) : Type 0 where
  pub ended : s.taker ≡ away
  pub holds : contents s.q ≡ (Fifo.pop held).2
  pub got : s.got ≡ (if (Fifo.pop held).0 then (Fifo.pop held).1 ∷ [] else [])

-- On a valid ring, with all stores read: the accesses of a push that the other thread does not
-- interrupt end the call, and append the frame to the frames held and report it as sent, or report
-- it as refused and leave them, as the FIFO bounded by the number of slots does; those of a pop end
-- the call with the oldest frame, or with none, as those of the FIFO.
pub calls_alone_refine :
    (lag : ℕ) (q : IngestQueue) (msg : Text)
    → IsValid q
    → Pushed msg
        (push_rest lag 3 msg (push_access lag msg resting (at_rest q)))
        (length q.buf)
        (contents q)
      × Popped (pop_rest lag 3 (pop_access lag away (at_rest q))) (contents q)
calls_alone_refine lag q msg v =
    let (p, t) = calls_alone lag q msg in
    let push = try_push_refines msg v in
    let (b, rest, out) = try_pop_refines [] v in
    (
      rw p (record {
        ended = refl;
        holds = ap (λ (r : Bool × List Text). r.1) push;
        sent = ap (λ (r : Bool × List Text). if r.0 then msg ∷ [] else []) push;
        refused = ap (λ (r : Bool × List Text). if r.0 then [] else msg ∷ []) push;
      }),
      rw t (record { ended = refl; holds = rest; got = ground (arith, b, out) }),
    )
