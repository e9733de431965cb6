-- ===== src/Ingest/Refine.antt =====
-- The ring refines a bounded FIFO of frames, wrap-around of the counters included.
use Prim.Native.Nat.{bit_and}
use real_time_market_data.Base.{
  ℕ, zero, suc, ◌≤◌, ◌<◌, ◌≡◌, refl, sym, ap, ap₂, ◌∙◌, false, List, [], ◌∷◌, Text, arith, ◌==◌,
  length, length-set, length-map, length-replicate, is_empty, ◌^◌, if◌then◌else◌,
}
use real_time_market_data.Base.Word.{sub_size}
use real_time_market_data.Ingest.{
  IngestQueue, next_pow2, init, try_push, try_pop, size, empty, full, clear,
}
use real_time_market_data.Ingest.Fifo
use real_time_market_data.Ingest.Fifo.{Op, put, get, ask_size, ask_empty, ask_full, reset, Reply}
use real_time_market_data.Ingest.Window.{
  window, contents, length-window, window-suc, window-set, head_slot, grown, shrunk, window_popped,
  held_pos,
}
use real_time_market_data.Ingest.Invariant.{
  IsValid, capacity-eq, mask-eq-mod, held-le, init-IsValid, try_push-IsValid, try_pop-IsValid,
  clear-IsValid,
}

-- `try_push` appends the frame, or reports that the ring is full.
pub try_push_refines :
    {q : IngestQueue} (msg : Text)
    → IsValid q
    → let (b, q') = try_push msg q in (b, contents q') ≡ Fifo.push (length q.buf) msg (contents q)
unfolding try_push Fifo.push
try_push_refines {q} msg v = ground (
  arith,
  capacity-eq v,
  length-window q.buf q.tail (sub_size q.head q.tail),
  grown v,
  held-le v,
  λ (lt : sub_size q.head q.tail < length q.buf).
      window-set q.buf q.tail (sub_size q.head q.tail) (bit_and q.head q.mask) msg lt (head_slot v),
)

-- `try_pop` takes the oldest frame, or reports that the ring is empty.
pub try_pop_refines :
    {q : IngestQueue} (out : Text)
    → IsValid q
    → let (b, out', q') = try_pop out q in
      let (c, x, rest) = Fifo.pop (contents q) in
      (b ≡ c) × (contents q' ≡ rest) × (out' ≡ (if c then x else out))
unfolding try_pop Fifo.pop
try_pop_refines {q} out v = ground (
  arith,
  mask-eq-mod v q.tail,
  shrunk v,
  held_pos v,
  window_popped v,
  window-suc q.buf q.tail (sub_size q.head q.tail),
)

-- On an empty ring `try_pop` changes nothing.
pub try_pop_nothing :
    {q : IngestQueue} (out : Text) → IsValid q → contents q ≡ [] → try_pop out q ≡ (false, out, q)
unfolding try_pop
try_pop_nothing {q} out v e =
    ground (arith, ap length e, length-window q.buf q.tail (sub_size q.head q.tail), held_pos v)

-- What `size`, `empty` and `full` report.
size-eq : (q : IngestQueue) → size q ≡ length (contents q)
unfolding size
size-eq q = sym (length-window q.buf q.tail (sub_size q.head q.tail))

empty-window : (buf : List Text) (t n : ℕ) → (n == 0) ≡ is_empty (window buf t n)
empty-window buf t zero = refl
empty-window buf t (suc n) = ground arith

empty-eq : (q : IngestQueue) → empty q ≡ is_empty (contents q)
unfolding empty size
empty-eq q = empty-window q.buf q.tail (sub_size q.head q.tail)

full-eq : {q : IngestQueue} → IsValid q → full q ≡ (length (contents q) == length q.buf)
unfolding full size
full-eq {q} v = ap₂ ◌==◌ (size-eq q) (capacity-eq v)

length-buf_push : (msg : Text) (q : IngestQueue) → length (try_push msg q).1.buf ≡ length q.buf
unfolding try_push
length-buf_push msg q = ground (arith, length-set q.buf (bit_and q.head q.mask) msg)

length-buf_pop : (out : Text) (q : IngestQueue) → length (try_pop out q).2.buf ≡ length q.buf
unfolding try_pop
length-buf_pop out q = ground (arith, length-set q.buf (bit_and q.tail q.mask) [])

length-buf_clear : (q : IngestQueue) → length (clear q).buf ≡ length q.buf
unfolding clear
length-buf_clear q = length-map q.buf (λ _. [])

contents-clear : (q : IngestQueue) → contents (clear q) ≡ []
unfolding clear
contents-clear q = refl

-- A client's calls in order, with what each returns. `try_pop` is given an empty `out`.
unfoldable pub run : IngestQueue → List Op → List Reply
run q [] = []
run q (put x ∷ ops) = let (b, q') = try_push x q in Reply.pushed b ∷ run q' ops
run q (get ∷ ops) = let (b, out, q') = try_pop [] q in Reply.popped b out ∷ run q' ops
run q (ask_size ∷ ops) = Reply.sized (size q) ∷ run q ops
run q (ask_empty ∷ ops) = Reply.told (empty q) ∷ run q ops
run q (ask_full ∷ ops) = Reply.told (full q) ∷ run q ops
run q (reset ∷ ops) = Reply.done ∷ run (clear q) ops

-- From any valid state, counters about to wrap at 2 ^ 64 included, no sequence of calls tells the
-- ring from the FIFO of the frames it holds, bounded by its number of slots.
pub run_refines :
    (ops : List Op) {q : IngestQueue}
    → IsValid q
    → run q ops ≡ Fifo.run (length q.buf) (contents q) ops
unfolding run Fifo.run
run_refines [] v = refl
run_refines (put x ∷ ops) {q} v =
    rw (run_refines ops (try_push-IsValid x v), ← try_push_refines x v, length-buf_push)
run_refines (get ∷ ops) {q} v =
    ground
      (arith, run_refines ops (try_pop-IsValid [] v), try_pop_refines [] v, length-buf_pop [] q)
run_refines (ask_size ∷ ops) {q} v = rw (run_refines ops v, size-eq)
run_refines (ask_empty ∷ ops) {q} v = rw (run_refines ops v, empty-eq)
run_refines (ask_full ∷ ops) {q} v = rw (run_refines ops v, full-eq v)
run_refines (reset ∷ ops) {q} v =
    rw (run_refines ops (clear-IsValid v), length-buf_clear, contents-clear)

length-buf_init : (cap : ℕ) → length (init cap).buf ≡ next_pow2 cap
unfolding init
length-buf_init cap = length-replicate (next_pow2 cap) []

pub contents-init : (cap : ℕ) → contents (init cap) ≡ []
unfolding init
contents-init cap = refl

-- A queue made for a capacity of at most 2 ^ 63 answers every sequence of calls (try_push, try_pop
-- with an empty output, size, empty, full, clear) as an empty FIFO does that holds at most the
-- rounded capacity.
pub init_refines :
    (cap : ℕ) (ops : List Op) → cap ≤ 2 ^ 63 → run (init cap) ops ≡ Fifo.run (next_pow2 cap) [] ops
init_refines cap ops fits =
    run_refines ops (init-IsValid cap fits)
    ∙ ap (λ (held : List Text). Fifo.run (length (init cap).buf) held ops) (contents-init cap)
    ∙ ap (λ (n : ℕ). Fifo.run n [] ops) (length-buf_init cap)
