-- ===== src/Ingest/Threads.antt =====
-- One producer and one consumer on the ring at the same time: src/ingest_queue.cpp, try_push and try_pop
-- cut at their accesses to what the threads share. A load of the other thread's index need not read the
-- last store: it may read any store from the one on that the thread has read before. What a thread reads
-- with acquire it reads with the slot that was written before, so the slots are as they were last written.
pub mod Slots
pub mod Stale
pub mod Exchange
pub mod Alone
pub mod Races
use Prim.Native.Nat.{bit_and}
use real_time_market_data.Base.{
  ℕ, zero, suc, Bool, true, false, List, [], ◌∷◌, ◌++◌, Text, ◌==◌, if◌then◌else◌, get_or, set,
}
use real_time_market_data.Base.Word.{add_size, sub_size}
use real_time_market_data.Ingest.{IngestQueue, capacity}

-- Where the producer is in `try_push`: before it, after the load of `head_`, after that of `tail_` and
-- the test, after the write to the slot. With the frame, and the local variable `head`.
pub data Producer : Type 0 where
  resting : Producer
  knows_head may_write wrote : Text → ℕ → Producer

-- Where the consumer is in `try_pop`, with the local variable `tail` and what it took.
pub data Taker : Type 0 where
  away : Taker
  knows_tail may_take : ℕ → Taker
  took : Text → ℕ → Taker

-- `sent` and `refused` are the frames for which `try_push` has returned true and false, `got` those
-- that `try_pop` has returned. `old_tails` are the stores of `tail_` before the last one that the producer
-- may still read, the newest first; `old_heads` those of `head_` that the consumer may.
pub record Threads : Type 0 where
  pub q : IngestQueue
  pub producer : Producer
  pub taker : Taker
  pub sent : List Text
  pub refused : List Text
  pub got : List Text
  pub old_tails : List ℕ
  pub old_heads : List ℕ

-- A load that reads the store `lag` before the last one, or the oldest one that it may. What is older is
-- not read again.
unfoldable pub load : ℕ → ℕ → List ℕ → ℕ × List ℕ
load lag last [] = (last, [])
load zero last (o ∷ olds) = (last, [])
load (suc lag) last (o ∷ olds) = let (read, rest) = load lag o olds in (read, o ∷ rest)

-- The next access of the producer, which sends `msg` if it is at the start of a call.
unfoldable pub push_access : ℕ → Text → Producer → Threads → Threads
unfolding capacity load
push_access lag msg resting s = record s { producer = knows_head msg s.q.head }
push_access lag msg (knows_head m h) s =
    let (tail, rest) = load lag s.q.tail s.old_tails in
    if sub_size h tail == capacity s.q
    then record s { producer = resting; refused = s.refused ++ m ∷ []; old_tails = rest }
    else record s { producer = may_write m h; old_tails = rest }
push_access lag msg (may_write m h) s = record s {
  q = record (s.q) { buf = set s.q.buf (bit_and h s.q.mask) m };
  producer = wrote m h;
}
push_access lag msg (wrote m h) s = record s {
  q = record (s.q) { head = add_size h 1 };
  producer = resting;
  sent = s.sent ++ m ∷ [];
  old_heads = s.q.head ∷ s.old_heads;
}

-- The next access of the consumer.
unfoldable pub pop_access : ℕ → Taker → Threads → Threads
unfolding load
pop_access lag away s = record s { taker = knows_tail s.q.tail }
pop_access lag (knows_tail t) s =
    let (head, rest) = load lag s.q.head s.old_heads in
    if head == t
    then record s { taker = away; old_heads = rest }
    else record s { taker = may_take t; old_heads = rest }
pop_access lag (may_take t) s = record s {
  q = record (s.q) { buf = set s.q.buf (bit_and t s.q.mask) [] };
  taker = took (get_or s.q.buf (bit_and t s.q.mask) []) t;
}
pop_access lag (took out t) s = record s {
  q = record (s.q) { tail = add_size t 1 };
  taker = away;
  got = s.got ++ out ∷ [];
  old_tails = s.q.tail ∷ s.old_tails;
}

-- Whose access comes next, and how late it is if it loads the other's index.
pub data Turn : Type 0 where
  produces : ℕ → Text → Turn
  consumes : ℕ → Turn

unfoldable pub access : Threads → Turn → Threads
unfolding push_access pop_access
access s (produces lag msg) = push_access lag msg s.producer s
access s (consumes lag) = pop_access lag s.taker s

unfoldable pub interleave : Threads → List Turn → Threads
unfolding access
interleave s [] = s
interleave s (t ∷ ts) = interleave (access s t) ts

-- A ring that nobody is working on.
abbrev pub at_rest : IngestQueue → Threads
at_rest q = record {
  q = q;
  producer = resting;
  taker = away;
  sent = [];
  refused = [];
  got = [];
  old_tails = [];
  old_heads = [];
}
