-- ===== src/Ingest/Invariant.antt =====
-- The representation invariant of the ring: sizes, counters, and no access out of range.
use Prim.Native.Nat.{bit_and}
use native.Mathlib.Nat.{mod-mod_of_dvd, mod-lt}
use real_time_market_data.Base.{
  ℕ, ◌-◌, ◌%◌, ◌^◌, ◌≤◌, ◌<◌, ◌≡◌, ◌∙◌, [], Text, arith, ◌==◌, length, length-set, length-map,
  length-replicate, Bool-cases, inl, inr,
}
use real_time_market_data.Base.Word.{
  word_mod, sub_size, bit_and_mask, pow_two-pos, pow_le, pow_two_dvd,
}
use real_time_market_data.Ingest.{
  IngestQueue, next_pow2, init, capacity, try_push, try_pop, size, clear,
}
use real_time_market_data.Ingest.Pow2.{next_pow2-IsRounded}

-- `head_` and `tail_` are counters modulo 2 ^ 64 that are at most a ring apart.
pub record IsValid (q : IngestQueue) : Type 0 where
  pub bits : ℕ
  pub at_least : 3 ≤ bits
  pub at_most : bits ≤ 63
  pub slots : length q.buf ≡ 2 ^ bits
  pub masks : q.mask ≡ 2 ^ bits - 1
  pub head_fits : q.head < word_mod
  pub tail_fits : q.tail < word_mod
  pub held : sub_size q.head q.tail ≤ 2 ^ bits

module _ {q : IngestQueue} (v : IsValid q) where
  slots-pos : 0 < length q.buf
  slots-pos = omega (arith, pow_two-pos v.bits, v.slots)

  pub capacity-eq : capacity q ≡ length q.buf
  unfolding capacity
  capacity-eq = omega (arith, v.masks, v.slots, pow_two-pos v.bits, pow_le v.bits 63 v.at_most)

  -- `i & mask_` is the remainder by the number of slots.
  pub mask-eq-mod : (i : ℕ) → bit_and i q.mask ≡ i % length q.buf
  mask-eq-mod i = rw (v.masks, v.slots) (bit_and_mask v.bits i)

  -- What wraps at 2 ^ 64 still names the same slot.
  pub wrap-mod : (i : ℕ) → i % word_mod % length q.buf ≡ i % length q.buf
  wrap-mod i =
      rw v.slots (mod-mod_of_dvd (2 ^ v.bits) i (pow_two_dvd v.bits 64 (omega (arith, v.at_most))))

  -- On a valid ring the slot that try_push writes and the one that try_pop reads are inside the
  -- buffer.
  pub in_bounds : (bit_and q.head q.mask < length q.buf) × (bit_and q.tail q.mask < length q.buf)
  in_bounds = (
    rw (mask-eq-mod q.head) (mod-lt q.head slots-pos),
    rw (mask-eq-mod q.tail) (mod-lt q.tail slots-pos),
  )

  pub held-le : size q ≤ length q.buf
  unfolding size
  held-le = omega (arith, v.held, v.slots)

-- The constructor's queue is valid, for a capacity that can be rounded up.
pub init-IsValid : (cap : ℕ) → cap ≤ 2 ^ 63 → IsValid (init cap)
unfolding init
init-IsValid cap fits =
    let r = next_pow2-IsRounded cap fits in
    record {
      bits = r.bits;
      at_least = r.at_least;
      at_most = r.at_most;
      slots = length-replicate (next_pow2 cap) [] ∙ r.value;
      masks = omega (arith, r.value, pow_two-pos r.bits, pow_le r.bits 63 r.at_most);
      head_fits = omega arith;
      tail_fits = omega arith;
      held = omega arith;
    }

-- A push keeps the invariant, taken or refused.
pub try_push-IsValid : {q : IngestQueue} (msg : Text) → IsValid q → IsValid (try_push msg q).1
unfolding try_push
try_push-IsValid {q} msg v = elim (Bool-cases (sub_size q.head q.tail == capacity q)) [
  | inl stop ↦ rw stop v
  | inr go ↦ rw go (record {
    bits = v.bits;
    at_least = v.at_least;
    at_most = v.at_most;
    slots = length-set q.buf (bit_and q.head q.mask) msg ∙ v.slots;
    masks = v.masks;
    head_fits = omega arith;
    tail_fits = v.tail_fits;
    held = ground (arith, capacity-eq v, v.slots);
  })
]

-- So does a pop.
pub try_pop-IsValid : {q : IngestQueue} (out : Text) → IsValid q → IsValid (try_pop out q).2
unfolding try_pop
try_pop-IsValid {q} out v = elim (Bool-cases (q.head == q.tail)) [
  | inl stop ↦ rw stop v
  | inr go ↦ rw go (record {
    bits = v.bits;
    at_least = v.at_least;
    at_most = v.at_most;
    slots = length-set q.buf (bit_and q.tail q.mask) [] ∙ v.slots;
    masks = v.masks;
    head_fits = v.head_fits;
    tail_fits = omega arith;
    held = ground arith;
  })
]

pub clear-IsValid : {q : IngestQueue} → IsValid q → IsValid (clear q)
unfolding clear
clear-IsValid {q} v = ground (arith, length-map {B = Text} q.buf (λ _. []))
