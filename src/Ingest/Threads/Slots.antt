-- ===== src/Ingest/Threads/Slots.antt =====
-- What one access of a thread does to the frames that wait, and to what the other thread knows.
use Prim.Native.Nat.{bit_and}
use real_time_market_data.Base.{
  ℕ, suc, ◌+◌, ◌-◌, ◌%◌, ◌<◌, ◌≡◌, ◌≢◌, sym, ap, ◌∙◌, List, [], ◌∷◌, ◌++◌, Text, arith, get_or, set,
  length, length-set, get_or-set_ne, mod_ne,
}
use real_time_market_data.Base.Word.{add_size, sub_size}
use real_time_market_data.Ingest.{IngestQueue}
use real_time_market_data.Ingest.Invariant.{IsValid, mask-eq-mod, wrap-mod}
use real_time_market_data.Ingest.Window.{
  window, contents, window-suc, window-mod, window-set_past, window-last, window_emptied, head_slot,
  grown,
}
use real_time_market_data.Ingest.Threads.{
  Producer, Taker, resting, knows_head, may_write, wrote, away, knows_tail, may_take, took,
}

-- The number of frames between the counters.
abbrev pub held : IngestQueue → ℕ
held q = sub_size q.head q.tail

-- What was sent and not yet got: the window, or a frame in the consumer's hand and the rest of it.
abbrev pub waiting : Taker → IngestQueue → List Text
waiting (took out t) q = out ∷ window q.buf (q.tail + 1) (held q - 1)
waiting _ q = contents q

-- What a thread knows in the middle of its call is so.
abbrev pub ProducerFits : Producer → IngestQueue → Type 0
ProducerFits resting q = Unit {0}
ProducerFits (knows_head m h) q = h ≡ q.head
ProducerFits (may_write m h) q = (h ≡ q.head) × (held q < length q.buf)
ProducerFits (wrote m h) q =
    (h ≡ q.head) × (held q < length q.buf) × (get_or q.buf (bit_and q.head q.mask) [] ≡ m)

abbrev pub TakerFits : Taker → IngestQueue → Type 0
TakerFits away q = Unit {0}
TakerFits (knows_tail t) q = t ≡ q.tail
TakerFits (may_take t) q = (t ≡ q.tail) × (0 < held q)
TakerFits (took out t) q = (t ≡ q.tail) × (0 < held q)

pub IsValid-set :
    {q : IngestQueue} (i : ℕ) (x : Text) → IsValid q → IsValid (record q { buf = set q.buf i x })
IsValid-set {q} i x v = record {
  bits = v.bits;
  at_least = v.at_least;
  at_most = v.at_most;
  slots = length-set q.buf i x ∙ v.slots;
  masks = v.masks;
  head_fits = v.head_fits;
  tail_fits = v.tail_fits;
  held = v.held;
}

pub IsValid-head :
    {q : IngestQueue}
    → IsValid q
    → held q < length q.buf
    → IsValid (record q { head = add_size q.head 1 })
IsValid-head {q} v l = record {
  bits = v.bits;
  at_least = v.at_least;
  at_most = v.at_most;
  slots = v.slots;
  masks = v.masks;
  head_fits = omega arith;
  tail_fits = v.tail_fits;
  held = omega (arith, grown v (omega arith), v.slots, l);
}

pub IsValid-tail :
    {q : IngestQueue} → IsValid q → 0 < held q → IsValid (record q { tail = add_size q.tail 1 })
IsValid-tail {q} v l = record {
  bits = v.bits;
  at_least = v.at_least;
  at_most = v.at_most;
  slots = v.slots;
  masks = v.masks;
  head_fits = v.head_fits;
  tail_fits = omega arith;
  held = omega (arith, v.held, v.head_fits, v.tail_fits, l);
}

-- The slot past the window, seen from the frame after the oldest one.
past_oldest :
    {q : IngestQueue}
    → IsValid q
    → 0 < held q
    → bit_and q.head q.mask ≡ (q.tail + 1 + (held q - 1)) % length q.buf
past_oldest {q} v l = head_slot v ∙ ap (λ (k : ℕ). k % length q.buf) (omega arith)

pub waiting-write :
    (t : Taker) {q : IngestQueue} (m : Text)
    → IsValid q
    → TakerFits t q
    → held q < length q.buf
    → waiting t (record q { buf = set q.buf (bit_and q.head q.mask) m }) ≡ waiting t q
waiting-write (took out t) {q} m v f l =
    ap (λ r. out ∷ r)
      (window-set_past q.buf (q.tail + 1) (held q - 1) (bit_and q.head q.mask) m (omega arith)
        (past_oldest v f.1))
waiting-write away {q} m v f l =
    window-set_past q.buf q.tail (held q) (bit_and q.head q.mask) m l (head_slot v)
waiting-write (knows_tail t) {q} m v f l =
    window-set_past q.buf q.tail (held q) (bit_and q.head q.mask) m l (head_slot v)
waiting-write (may_take t) {q} m v f l =
    window-set_past q.buf q.tail (held q) (bit_and q.head q.mask) m l (head_slot v)

contents-publish :
    {q : IngestQueue}
    → IsValid q
    → held q < length q.buf
    → contents (record q { head = add_size q.head 1 })
      ≡ contents q ++ get_or q.buf (bit_and q.head q.mask) [] ∷ []
contents-publish {q} v l =
    ap (window q.buf q.tail) (grown v (omega arith))
    ∙ window-last q.buf q.tail (held q)
    ∙ ap (λ (i : ℕ). contents q ++ get_or q.buf i [] ∷ []) (sym (head_slot v))

pub waiting-publish :
    (t : Taker) {q : IngestQueue}
    → IsValid q
    → TakerFits t q
    → held q < length q.buf
    → waiting t (record q { head = add_size q.head 1 })
      ≡ waiting t q ++ get_or q.buf (bit_and q.head q.mask) [] ∷ []
waiting-publish (took out t) {q} v f l =
    ap (λ r. out ∷ r)
      (ap (window q.buf (q.tail + 1)) {y = suc (held q - 1)}
          (omega (arith, grown v (omega arith), f.1))
        ∙ window-last q.buf (q.tail + 1) (held q - 1)
        ∙ ap (λ (i : ℕ). window q.buf (q.tail + 1) (held q - 1) ++ get_or q.buf i [] ∷ [])
            (sym (past_oldest v f.1)))
waiting-publish away v f l = contents-publish v l
waiting-publish (knows_tail t) v f l = contents-publish v l
waiting-publish (may_take t) v f l = contents-publish v l

pub waiting-take :
    {q : IngestQueue}
    → IsValid q
    → 0 < held q
    → waiting
        (took (get_or q.buf (bit_and q.tail q.mask) []) q.tail)
        (record q { buf = set q.buf (bit_and q.tail q.mask) [] })
      ≡ contents q
waiting-take {q} v l =
    ap (λ r. get_or q.buf (bit_and q.tail q.mask) [] ∷ r) (window_emptied v)
    ∙ ap (λ (i : ℕ). get_or q.buf i [] ∷ window q.buf (q.tail + 1) (held q - 1))
        (mask-eq-mod v q.tail)
    ∙ sym (window-suc q.buf q.tail (held q) (omega arith))

pub contents-release :
    {q : IngestQueue}
    → IsValid q
    → 0 < held q
    → contents (record q { tail = add_size q.tail 1 }) ≡ window q.buf (q.tail + 1) (held q - 1)
contents-release {q} v l =
    ap (window q.buf (add_size q.tail 1)) (omega (arith, v.head_fits, v.tail_fits, l))
    ∙ window-mod q.buf (add_size q.tail 1) (q.tail + 1) (held q - 1) (wrap-mod v (q.tail + 1))

-- The slot that the producer has written is not the one that the consumer empties.
pub slots_apart :
    {q : IngestQueue}
    → IsValid q
    → 0 < held q
    → held q < length q.buf
    → bit_and q.tail q.mask ≢ bit_and q.head q.mask
slots_apart {q} v l g e =
    mod_ne q.tail (held q) (length q.buf) l g (sym (head_slot v) ∙ sym e ∙ mask-eq-mod v q.tail)

pub ProducerFits-take :
    (p : Producer) {q : IngestQueue}
    → IsValid q
    → 0 < held q
    → ProducerFits p q
    → ProducerFits p (record q { buf = set q.buf (bit_and q.tail q.mask) [] })
ProducerFits-take resting v l f = tt
ProducerFits-take (knows_head m h) v l f = f
ProducerFits-take (may_write m h) {q} v l f =
    (f.0, rw (length-set q.buf (bit_and q.tail q.mask) []) f.1)
ProducerFits-take (wrote m h) {q} v l f = (
  f.0,
  rw (length-set q.buf (bit_and q.tail q.mask) []) f.1,
  get_or-set_ne q.buf [] [] (slots_apart v l f.1) ∙ f.2,
)

pub ProducerFits-release :
    (p : Producer) {q : IngestQueue}
    → IsValid q
    → 0 < held q
    → ProducerFits p q
    → ProducerFits p (record q { tail = add_size q.tail 1 })
ProducerFits-release resting v l f = tt
ProducerFits-release (knows_head m h) v l f = f
ProducerFits-release (may_write m h) {q} v l f =
    (f.0, omega (arith, f.1, v.head_fits, v.tail_fits, l))
ProducerFits-release (wrote m h) {q} v l f =
    (f.0, omega (arith, f.1, v.head_fits, v.tail_fits, l), f.2)

pub TakerFits-publish :
    (t : Taker) {q : IngestQueue}
    → IsValid q
    → held q < length q.buf
    → TakerFits t q
    → TakerFits t (record q { head = add_size q.head 1 })
TakerFits-publish away v l f = tt
TakerFits-publish (knows_tail t) v l f = f
TakerFits-publish (may_take t) v l f = (f.0, omega (arith, grown v (omega arith)))
TakerFits-publish (took out t) v l f = (f.0, omega (arith, grown v (omega arith)))

pub TakerFits-write :
    (t : Taker) (q : IngestQueue) (buf : List Text)
    → TakerFits t q
    → TakerFits t (record q { buf = buf })
TakerFits-write away q buf f = tt
TakerFits-write (knows_tail t) q buf f = f
TakerFits-write (may_take t) q buf f = f
TakerFits-write (took out t) q buf f = f
