-- ===== src/Ingest/Fifo.antt =====
-- What a client asks of a queue of frames, and a FIFO of at most `cap` frames that answers it.
use real_time_market_data.Base.{
  ℕ, Bool, true, false, List, [], ◌∷◌, ◌++◌, Text, ◌==◌, length, if◌then◌else◌, is_empty,
}

pub data Op : Type 0 where
  put : Text → Op
  get : Op
  ask_size ask_empty ask_full reset : Op

pub data Reply : Type 0 where
  pushed : Bool → Reply
  popped : Bool → Text → Reply
  sized : ℕ → Reply
  told : Bool → Reply
  done : Reply

unfoldable pub push : ℕ → Text → List Text → Bool × List Text
push cap x q = if length q == cap then (false, q) else (true, q ++ x ∷ [])

unfoldable pub pop : List Text → Bool × Text × List Text
pop [] = (false, [], [])
pop (x ∷ q) = (true, x, q)

unfoldable pub run : ℕ → List Text → List Op → List Reply
unfolding push pop
run cap q [] = []
run cap q (put x ∷ ops) = let (b, q') = push cap x q in Reply.pushed b ∷ run cap q' ops
run cap q (get ∷ ops) = let (b, out, q') = pop q in Reply.popped b out ∷ run cap q' ops
run cap q (ask_size ∷ ops) = Reply.sized (length q) ∷ run cap q ops
run cap q (ask_empty ∷ ops) = Reply.told (is_empty q) ∷ run cap q ops
run cap q (ask_full ∷ ops) = Reply.told (length q == cap) ∷ run cap q ops
run cap q (reset ∷ ops) = Reply.done ∷ run cap [] ops
