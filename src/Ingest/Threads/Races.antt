-- ===== src/Ingest/Threads/Races.antt =====
-- The slots that the two threads touch: src/ingest_queue.cpp reads and writes them without a lock, so the
-- indices alone have to keep the threads apart.
use Prim.Native.Nat.{bit_and}
use real_time_market_data.Base.{
  ℕ, ◌+◌, ◌<◌, ◌≤◌, ◌≡◌, ◌≢◌, sym, ◌∙◌, List, [], Option, none, some, some_inj, length,
}
use real_time_market_data.Base.Word.{sub_size}
use real_time_market_data.Ingest.{IngestQueue, size}
use real_time_market_data.Ingest.Invariant.{IsValid, in_bounds, held-le}
use real_time_market_data.Ingest.Window.{contents}
use real_time_market_data.Ingest.Threads.{
  Producer, Taker, Threads, Turn, interleave, at_rest, resting, knows_head, may_write, wrote, away,
  knows_tail, may_take, took,
}
use real_time_market_data.Ingest.Threads.Stale.{Room, Stock}
use real_time_market_data.Ingest.Threads.Slots.{held, ProducerFits, TakerFits, slots_apart}
use real_time_market_data.Ingest.Threads.Exchange.{Agrees, interleave-Agrees, at_rest-Agrees}

-- The index of the slot that the producer is about to write, or has written and not published.
unfoldable pub writes : Producer → Option ℕ
writes (may_write m h) = some h
writes (wrote m h) = some h
writes _ = none

-- The index of the slot that the consumer is about to empty, or has emptied and not given back.
pub takes : Taker → Option ℕ
takes (may_take t) = some t
takes (took out t) = some t
takes _ = none

-- The slots that are in use are in the buffer, and never one and the same. The producer writes to no slot
-- whose last emptying it may not have seen, even where its load of `tail_` was late; the consumer empties
-- none whose filling it may not have seen.
pub record RaceFree (s : Threads) : Type 0 where
  pub bounded : size s.q ≤ length s.q.buf
  pub write_fits : (h : ℕ) → writes s.producer ≡ some h → bit_and h s.q.mask < length s.q.buf
  pub take_fits : (t : ℕ) → takes s.taker ≡ some t → bit_and t s.q.mask < length s.q.buf
  pub apart :
      (h t : ℕ)
      → writes s.producer ≡ some h
      → takes s.taker ≡ some t
      → bit_and h s.q.mask ≢ bit_and t s.q.mask
  pub emptied :
      (h : ℕ)
      → writes s.producer ≡ some h
      → sub_size h s.q.tail + length s.old_tails < length s.q.buf
  pub filled : (t : ℕ) → takes s.taker ≡ some t → length s.old_heads < sub_size s.q.head t

-- What a thread that uses a slot knows.
writes-head :
    (p : Producer) (q : IngestQueue) (h olds : ℕ)
    → ProducerFits p q
    → Room p (held q + olds) (length q.buf)
    → writes p ≡ some h
    → (h ≡ q.head) × (held q < length q.buf) × (held q + olds < length q.buf)
unfolding writes
writes-head resting q h olds f r e = cc
writes-head (knows_head m k) q h olds f r e = cc
writes-head (may_write m k) q h olds f r e = (sym (some_inj e) ∙ f.0, f.1, r)
writes-head (wrote m k) q h olds f r e = (sym (some_inj e) ∙ f.0, f.1, r)

takes-tail :
    (p : Taker) (q : IngestQueue) (t olds : ℕ)
    → TakerFits p q
    → Stock p olds (held q)
    → takes p ≡ some t
    → (t ≡ q.tail) × (0 < held q) × (olds < held q)
unfolding takes
takes-tail away q t olds f r e = cc
takes-tail (knows_tail k) q t olds f r e = cc
takes-tail (may_take k) q t olds f r e = (sym (some_inj e) ∙ f.0, f.1, r)
takes-tail (took out k) q t olds f r e = (sym (some_inj e) ∙ f.0, f.1, r)

Agrees-RaceFree : (s : Threads) → Agrees s → RaceFree s
Agrees-RaceFree s a = record {
  bounded = held-le a.valid;
  write_fits = λ h e. rw (writing h e).0 (in_bounds a.valid).0;
  take_fits = λ t e. rw (taking t e).0 (in_bounds a.valid).1;
  apart = λ h t w e same.
      slots_apart a.valid (taking t e).1 (writing h w).1
        (rw (← (taking t e).0, ← (writing h w).0) (sym same));
  emptied = λ h e. rw (writing h e).0 (writing h e).2;
  filled = λ t e. rw (taking t e).0 (taking t e).2;
}
  where
    writing :
        (h : ℕ)
        → writes s.producer ≡ some h
        → (h ≡ s.q.head)
          × (held s.q < length s.q.buf)
          × (held s.q + length s.old_tails < length s.q.buf)
    writing h e = writes-head s.producer s.q h (length s.old_tails) a.producer a.room e

    taking :
        (t : ℕ)
        → takes s.taker ≡ some t
        → (t ≡ s.q.tail) × (0 < held s.q) × (length s.old_heads < held s.q)
    taking t e = takes-tail s.taker s.q t (length s.old_heads) a.taker a.stock e

-- For a valid and empty ring and any interleaving as before, at every moment: the size is at most
-- the number of slots; the slot that the producer is about to write, or has written and not
-- published, and the one that the consumer is about to empty, or has emptied and not given back, are
-- in the buffer and are not the same; between the index that the producer writes and the oldest
-- tail_ that it may still read there are fewer frames than slots; and the index that the consumer
-- takes is below the oldest head_ that it may still read.
pub interleave-RaceFree :
    (q : IngestQueue) (ts : List Turn)
    → IsValid q
    → contents q ≡ []
    → RaceFree (interleave (at_rest q) ts)
interleave-RaceFree q ts v idle =
    Agrees-RaceFree (interleave (at_rest q) ts)
      (interleave-Agrees ts (at_rest q) (at_rest-Agrees v idle))
