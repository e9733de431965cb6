-- ===== src/Ingest/Threads/Stale.antt =====
-- How far behind a load of the other thread's index can be.
use real_time_market_data.Base.{
  ℕ, zero, suc, ◌+◌, ◌≤◌, ◌<◌, ◌≡◌, false, ◌==◌, List, [], ◌∷◌, length, arith,
}
use real_time_market_data.Base.Word.{word_mod, add_size, sub_size, pow_le}
use real_time_market_data.Ingest.{IngestQueue, capacity}
use real_time_market_data.Ingest.Invariant.{IsValid, capacity-eq}
use real_time_market_data.Ingest.Threads.{
  Producer, Taker, resting, knows_head, may_write, wrote, away, knows_tail, may_take, took, load,
}

-- The stores before `last`, the newest first: each is one less than the next.
abbrev pub AreOlds : ℕ → List ℕ → Type 0
AreOlds last [] = Unit {0}
AreOlds last (o ∷ olds) = (add_size o 1 ≡ last) × (o < word_mod) × AreOlds o olds

-- What a load reads is as far behind as the stores that are still to be read.
pub record Read (last : ℕ) (olds : List ℕ) (read : ℕ) (rest : List ℕ) : Type 0 where
  pub fits : read < word_mod
  pub behind : add_size read (length rest) ≡ last
  pub fewer : length rest ≤ length olds
  pub olds_left : AreOlds last rest

pub load-Read :
    (lag last : ℕ) (olds : List ℕ)
    → last < word_mod
    → AreOlds last olds
    → Read last olds (load lag last olds).0 (load lag last olds).1
unfolding load
load-Read lag last [] h a = record {
  fits = h;
  behind = omega arith;
  fewer = omega arith;
  olds_left = tt;
}
load-Read zero last (o ∷ olds) h a = record {
  fits = h;
  behind = omega arith;
  fewer = omega arith;
  olds_left = tt;
}
load-Read (suc lag) last (o ∷ olds) h a =
    let r = load-Read lag o olds a.1 a.2 in
    record {
      fits = r.fits;
      behind = omega (arith, r.behind, a.0);
      fewer = omega (arith, r.fewer);
      olds_left = (a.0, a.1, r.olds_left);
    }

-- The producer has room for what it still takes for waiting (`used` slots of `size`), and a slot to spare
-- once it may write. The consumer takes `late` frames too few for waiting of those that are `there`.
abbrev pub Room : Producer → ℕ → ℕ → Type 0
Room (may_write m h) used size = used < size
Room (wrote m h) used size = used < size
Room _ used size = used ≤ size

abbrev pub Stock : Taker → ℕ → ℕ → Type 0
Stock (may_take t) late there = late < there
Stock (took out t) late there = late < there
Stock _ late there = late ≤ there

pub Room-less :
    (p : Producer) (used used' size : ℕ) → used' ≤ used → Room p used size → Room p used' size
Room-less resting used used' size l r = omega arith
Room-less (knows_head m h) used used' size l r = omega arith
Room-less (may_write m h) used used' size l r = omega arith
Room-less (wrote m h) used used' size l r = omega arith

pub Stock-more :
    (t : Taker) (late there late' there' : ℕ)
    → late' + there ≤ there' + late
    → Stock t late there
    → Stock t late' there'
Stock-more away late there late' there' l r = omega arith
Stock-more (knows_tail t) late there late' there' l r = omega arith
Stock-more (may_take t) late there late' there' l r = omega arith
Stock-more (took out t) late there late' there' l r = omega arith

module _ {q : IngestQueue} (v : IsValid q) where
  -- What a late `tail` makes of the size, and that a test against it is on the safe side.
  pub spare_slot :
      {olds rest : List ℕ} {read : ℕ}
      → Read q.tail olds read rest
      → sub_size q.head q.tail + length olds ≤ length q.buf
      → (sub_size q.head read == capacity q) ≡ false
      → sub_size q.head q.tail + length rest < length q.buf
  spare_slot {olds = olds} {rest = rest} {read = read} r room free =
      let seen : sub_size q.head read ≡ sub_size q.head q.tail + length rest = omega (
        arith,
        r.behind,
        r.fits,
        r.fewer,
        v.head_fits,
        v.tail_fits,
        v.slots,
        pow_le v.bits 63 v.at_most,
      ) in
      ground (arith, seen, room, capacity-eq v, r.fewer)

  pub spare_frame :
      {olds rest : List ℕ} {read : ℕ}
      → Read q.head olds read rest
      → length olds ≤ sub_size q.head q.tail
      → (read == q.tail) ≡ false
      → length rest < sub_size q.head q.tail
  spare_frame {olds = olds} {rest = rest} {read = read} r stock some_held =
      ground (arith, r.behind, r.fits, r.fewer, v.head_fits, v.tail_fits)
