-- ===== src/Ingest/Threads/Exchange.antt =====
-- What the consumer gets is what the producer sent, whatever the order of their accesses.
use Prim.Native.Nat.{bit_and}
use real_time_market_data.Base.{
  ℕ, length, ◌+◌, ◌-◌, ◌≡◌, refl, sym, ap, ◌∙◌, inl, inr, List, [], ◌∷◌, ◌++◌, Text, arith, ◌==◌,
  set, length-set, get_or-set_self, append_assoc, Bool-cases,
}
use real_time_market_data.Base.Word.{sub_size}
use real_time_market_data.Ingest.{IngestQueue, capacity}
use real_time_market_data.Ingest.Invariant.{IsValid, in_bounds}
use real_time_market_data.Ingest.Window.{window, contents, grown}
use real_time_market_data.Ingest.Threads.{
  Producer, Taker, Threads, Turn, push_access, pop_access, access, interleave, load, at_rest,
  resting, knows_head, may_write, wrote, away, knows_tail, may_take, took, produces, consumes,
}
use real_time_market_data.Ingest.Threads.Stale.{
  AreOlds, load-Read, Room, Stock, Room-less, Stock-more, spare_slot, spare_frame,
}
use real_time_market_data.Ingest.Threads.Slots.{
  held, waiting, ProducerFits, TakerFits, IsValid-set, IsValid-head, IsValid-tail, waiting-write,
  waiting-publish, waiting-take, contents-release, ProducerFits-take, ProducerFits-release,
  TakerFits-publish, TakerFits-write,
}

-- The threads agree: the ring is valid, each knows what is so or was so, and what was sent is what was
-- got and then what waits.
pub record Agrees (s : Threads) : Type 0 where
  pub valid : IsValid s.q
  pub producer : ProducerFits s.producer s.q
  pub taker : TakerFits s.taker s.q
  pub exchanged : s.sent ≡ s.got ++ waiting s.taker s.q
  pub tails : AreOlds s.q.tail s.old_tails
  pub heads : AreOlds s.q.head s.old_heads
  pub room : Room s.producer (held s.q + length s.old_tails) (length s.q.buf)
  pub stock : Stock s.taker (length s.old_heads) (held s.q)

push_access-Agrees :
    (lag : ℕ) (msg : Text) (p : Producer) (s : Threads)
    → Agrees (record s { producer = p })
    → Agrees (push_access lag msg p s)
unfolding push_access
push_access-Agrees lag msg resting s a = record {
  valid = a.valid;
  producer = refl;
  taker = a.taker;
  exchanged = a.exchanged;
  tails = a.tails;
  heads = a.heads;
  room = a.room;
  stock = a.stock;
}
push_access-Agrees lag msg (knows_head m h) s a =
    let r = load-Read lag s.q.tail s.old_tails a.valid.tail_fits a.tails in
    elim (Bool-cases (sub_size h (load lag s.q.tail s.old_tails).0 == capacity s.q)) [
      | inl full ↦ rw full (record {
        valid = a.valid;
        producer = tt;
        taker = a.taker;
        exchanged = a.exchanged;
        tails = r.olds_left;
        heads = a.heads;
        room = omega (arith, a.room, r.fewer);
        stock = a.stock;
      })
      | inr free ↦ rw free (record {
        valid = a.valid;
        producer =
            (a.producer, omega (arith, spare_slot a.valid r a.room (rw (sym a.producer) free)));
        taker = a.taker;
        exchanged = a.exchanged;
        tails = r.olds_left;
        heads = a.heads;
        room = spare_slot a.valid r a.room (rw (sym a.producer) free);
        stock = a.stock;
      })
    ]
push_access-Agrees lag msg (may_write m h) s a = rw a.producer.0 (record {
  valid = IsValid-set (bit_and s.q.head s.q.mask) m a.valid;
  producer = (
    refl,
    rw (length-set s.q.buf (bit_and s.q.head s.q.mask) m) a.producer.1,
    get_or-set_self s.q.buf (bit_and s.q.head s.q.mask) m [] (in_bounds a.valid).0,
  );
  taker = TakerFits-write s.taker s.q (set s.q.buf (bit_and s.q.head s.q.mask) m) a.taker;
  exchanged =
      a.exchanged
      ∙ ap (λ r. s.got ++ r) (sym (waiting-write s.taker m a.valid a.taker a.producer.1));
  tails = a.tails;
  heads = a.heads;
  room = rw (length-set s.q.buf (bit_and s.q.head s.q.mask) m) a.room;
  stock = a.stock;
})
push_access-Agrees lag msg (wrote m h) s a = rw a.producer.0 (record {
  valid = IsValid-head a.valid a.producer.1;
  producer = tt;
  taker = TakerFits-publish s.taker a.valid a.producer.1 a.taker;
  exchanged =
      ap (λ r. r ++ m ∷ []) a.exchanged
      ∙ append_assoc s.got (waiting s.taker s.q) (m ∷ [])
      ∙ ap (λ r. s.got ++ r)
          (sym (
            waiting-publish s.taker a.valid a.taker a.producer.1
            ∙ ap (λ x. waiting s.taker s.q ++ x ∷ []) a.producer.2));
  tails = a.tails;
  heads = (refl, a.valid.head_fits, a.heads);
  room = omega (arith, grown a.valid (omega (arith, a.producer.1)), a.room);
  stock =
      Stock-more s.taker (length s.old_heads) (held s.q) (length (s.q.head ∷ s.old_heads)) _
        (omega (arith, grown a.valid (omega (arith, a.producer.1)))) a.stock;
})

pop_access-Agrees :
    (lag : ℕ) (t : Taker) (s : Threads)
    → Agrees (record s { taker = t })
    → Agrees (pop_access lag t s)
unfolding pop_access
pop_access-Agrees lag away s a = record {
  valid = a.valid;
  producer = a.producer;
  taker = refl;
  exchanged = a.exchanged;
  tails = a.tails;
  heads = a.heads;
  room = a.room;
  stock = a.stock;
}
pop_access-Agrees lag (knows_tail t) s a =
    let r = load-Read lag s.q.head s.old_heads a.valid.head_fits a.heads in
    elim (Bool-cases ((load lag s.q.head s.old_heads).0 == t)) [
      | inl empty ↦ rw empty (record {
        valid = a.valid;
        producer = a.producer;
        taker = tt;
        exchanged = a.exchanged;
        tails = a.tails;
        heads = r.olds_left;
        room = a.room;
        stock = omega (arith, a.stock, r.fewer);
      })
      | inr some_held ↦ rw some_held (record {
        valid = a.valid;
        producer = a.producer;
        taker =
            (a.taker, omega (arith, spare_frame a.valid r a.stock (rw (sym a.taker) some_held)));
        exchanged = a.exchanged;
        tails = a.tails;
        heads = r.olds_left;
        room = a.room;
        stock = spare_frame a.valid r a.stock (rw (sym a.taker) some_held);
      })
    ]
pop_access-Agrees lag (may_take t) s a = rw a.taker.0 (record {
  valid = IsValid-set (bit_and s.q.tail s.q.mask) [] a.valid;
  producer = ProducerFits-take s.producer a.valid a.taker.1 a.producer;
  taker = (refl, a.taker.1);
  exchanged = a.exchanged ∙ ap (λ r. s.got ++ r) (sym (waiting-take a.valid a.taker.1));
  tails = a.tails;
  heads = a.heads;
  room = rw (length-set s.q.buf (bit_and s.q.tail s.q.mask) []) a.room;
  stock = a.stock;
})
pop_access-Agrees lag (took out t) s a = rw a.taker.0 (record {
  valid = IsValid-tail a.valid a.taker.1;
  producer = ProducerFits-release s.producer a.valid a.taker.1 a.producer;
  taker = tt;
  exchanged =
      a.exchanged
      ∙ sym (append_assoc s.got (out ∷ []) (window s.q.buf (s.q.tail + 1) (held s.q - 1)))
      ∙ ap (λ r. (s.got ++ out ∷ []) ++ r) (sym (contents-release a.valid a.taker.1));
  tails = (refl, a.valid.tail_fits, a.tails);
  heads = a.heads;
  room =
      Room-less s.producer (held s.q + length s.old_tails) _ (length s.q.buf)
        (omega (arith, a.valid.head_fits, a.valid.tail_fits, a.taker.1)) a.room;
  stock = omega (arith, a.valid.head_fits, a.valid.tail_fits, a.taker.1, a.stock);
})

access-Agrees : (s : Threads) (t : Turn) → Agrees s → Agrees (access s t)
unfolding access
access-Agrees s (produces lag msg) a = push_access-Agrees lag msg s.producer s a
access-Agrees s (consumes lag) a = pop_access-Agrees lag s.taker s a

pub interleave-Agrees : (ts : List Turn) (s : Threads) → Agrees s → Agrees (interleave s ts)
unfolding interleave
interleave-Agrees [] s a = a
interleave-Agrees (t ∷ ts) s a = interleave-Agrees ts (access s t) (access-Agrees s t a)

pub at_rest-Agrees : {q : IngestQueue} → IsValid q → contents q ≡ [] → Agrees (at_rest q)
at_rest-Agrees v none = record {
  valid = v;
  producer = tt;
  taker = tt;
  exchanged = sym none;
  tails = tt;
  heads = tt;
  room = omega (arith, v.held, v.slots);
  stock = omega arith;
}

-- For a valid and empty ring, one producer and one consumer, and any interleaving of their accesses
-- to the shared state (loads, slot accesses and stores), where a load of the other thread's index
-- may read any store from the one on that the thread has read before: the frames whose push has
-- returned true are those that the consumer got and then those that wait, in order, and the ring
-- stays valid.
pub interleave_exchanges :
    (q : IngestQueue) (ts : List Turn)
    → IsValid q
    → contents q ≡ []
    → let s = interleave (at_rest q) ts in (s.sent ≡ s.got ++ waiting s.taker s.q) × IsValid s.q
interleave_exchanges q ts v none =
    let a = interleave-Agrees ts (at_rest q) (at_rest-Agrees v none) in (a.exchanged, a.valid)
