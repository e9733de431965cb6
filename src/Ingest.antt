-- ===== src/Ingest.antt =====
-- src/ingest_queue.cpp, include/ingest_queue.h: the single-producer single-consumer ring of frames.
-- Every operation is run to its end before the next one here.
pub mod Pow2
pub mod Invariant
pub mod Fifo
pub mod Window
pub mod Refine
pub mod Threads
mod Tests
use Prim.Native.Nat.{bit_and, bit_or}
use real_time_market_data.Base.{
  ℕ, zero, suc, ◌+◌, ◌-◌, ◌*◌, ◌/◌, ◌^◌, ◌≡◌, Bool, true, false, not, ◌&&◌, List, [], ◌∷◌, map,
  Text, ltb, ◌==◌, if◌then◌else◌, length, get_or, set, replicate,
}
use real_time_market_data.Base.Word.{add_size, sub_size}

-- `buf_`, `mask_`, `head_` (write index) and `tail_` (read index).
pub record IngestQueue : Type 0 where
  pub buf : List Text
  pub mask : ℕ
  pub head : ℕ
  pub tail : ℕ

pub is_power_of_two : ℕ → Bool
is_power_of_two x = not (x == 0) && (bit_and x (x - 1) == 0)

-- `for (i = 1; i < 64; i <<= 1) n |= (n >> i);` from a given `i`, for the rounds that are left.
pub smear : ℕ → ℕ → ℕ → ℕ
smear zero i n = n
smear (suc rounds) i n = smear rounds (i * 2) (bit_or n (n / 2 ^ i))

-- The loop runs for i = 1, 2, 4, 8, 16, 32: six rounds.
unfoldable pub next_pow2 : ℕ → ℕ
unfolding is_power_of_two
next_pow2 n = if ltb n 8 then 8 else if is_power_of_two n then n else add_size (smear 6 1 (n - 1)) 1

-- `buf_` holds empty strings at first, and `mask_` is its size less one.
unfoldable pub init : ℕ → IngestQueue
init cap = record {
  buf = replicate (next_pow2 cap) [];
  mask = sub_size (next_pow2 cap) 1;
  head = 0;
  tail = 0;
}

unfoldable pub capacity : IngestQueue → ℕ
capacity q = add_size q.mask 1

unfoldable pub try_push : Text → IngestQueue → Bool × IngestQueue
unfolding capacity
try_push msg q =
    if sub_size q.head q.tail == capacity q
    then (false, q)
    else (true, record q { buf = set q.buf (bit_and q.head q.mask) msg; head = add_size q.head 1 })

-- `out` is left alone when the queue is empty; a slot that was moved from is left empty.
pub try_pop : Text → IngestQueue → Bool × Text × IngestQueue
try_pop out q = if q.head == q.tail then (false, out, q) else (
  true,
  get_or q.buf (bit_and q.tail q.mask) [],
  record q { buf = set q.buf (bit_and q.tail q.mask) []; tail = add_size q.tail 1 },
)

pub size : IngestQueue → ℕ
size q = sub_size q.head q.tail

pub empty : IngestQueue → Bool
unfolding size
empty q = size q == 0

pub full : IngestQueue → Bool
unfolding size capacity
full q = size q == capacity q

pub clear : IngestQueue → IngestQueue
clear q = record q { buf = map (λ _. []) q.buf; head = 0; tail = 0 }
