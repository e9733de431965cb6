-- ===== src/Sharder/Feeding.antt =====
-- The workers of src/sharder.cpp at work: the connection threads move and make their callbacks, and the
-- consumers drain the queues into the one store with the one parser. Between the taking of a frame and the
-- storing of its price, which the store's lock makes one step, other workers may do anything.
mod Tests
use real_time_market_data.Base.{
  ℕ, zero, suc, Bool, ◌<◌, ◌≡◌, ◌≢◌, refl, ap, ◌∙◌, List, [], ◌∷◌, ◌++◌, Option, none, some, Text,
  arith, ◌==◌, if◌then◌else◌, append-nil, get_elem?, set, length, map, All,
}
use real_time_market_data.Json.{Floats, JsonLib}
use real_time_market_data.Ingest.{IngestQueue, try_push}
use real_time_market_data.Parser.{parse_ltp}
use real_time_market_data.WebSocket.{Moment, Effect, step}
use real_time_market_data.Consumer.{ingest, take_frame}
use real_time_market_data.Sharder.{Sharder}
use real_time_market_data.Sharder.Workers.{Worker, react, send_subscribes}

-- A worker's connection thread meets its next moment and makes its callbacks, or its initial subscription
-- is sent; its consumer takes a frame if it has none, or stores the price of the one it has. How the
-- writes of the callbacks end is given with them.
pub data Feed : Type 0 where
  moves : ℕ → Moment → List Bool → Feed
  subscribes : ℕ → List Bool → Feed
  takes : ℕ → Feed
  stores : ℕ → Feed

-- The frames among the effects of a thread that its queue takes.
unfoldable pub taken : List Effect → IngestQueue → List Text
taken [] q = []
taken (Effect.message msg ∷ es) q =
    let (ok, q') = try_push msg q in let rest = taken es q' in if ok then msg ∷ rest else rest
taken (Effect.state s ∷ es) q = taken es q
taken (Effect.resubscribe ∷ es) q = taken es q
taken (Effect.sleep ms ∷ es) q = taken es q

abbrev pub tagged : ℕ → List Text → List (ℕ × Text)
tagged i [] = []
tagged i (x ∷ xs) = (i, x) ∷ tagged i xs

-- The frames of one worker.
unfoldable pub of_worker : ℕ → List (ℕ × Text) → List Text
of_worker i [] = []
of_worker i ((j, x) ∷ log) = let rest = of_worker i log in if j == i then x ∷ rest else rest

of_worker-append :
    (i : ℕ) (l m : List (ℕ × Text)) → of_worker i (l ++ m) ≡ of_worker i l ++ of_worker i m
unfolding of_worker
of_worker-append i [] m = refl
of_worker-append i ((j, x) ∷ l) m = ground (arith, of_worker-append i l m)

pub of_worker_own :
    (i : ℕ) (l : List (ℕ × Text)) (x : Text)
    → of_worker i (l ++ (i, x) ∷ []) ≡ of_worker i l ++ x ∷ []
unfolding of_worker
of_worker_own i l x = of_worker-append i l ((i, x) ∷ []) ∙ ground arith

pub of_worker_other :
    (i j : ℕ) (l : List (ℕ × Text)) (x : Text)
    → i ≢ j
    → of_worker j (l ++ (i, x) ∷ []) ≡ of_worker j l
unfolding of_worker
of_worker_other i j l x ne =
    of_worker-append j l ((i, x) ∷ []) ∙ ground (arith, append-nil (of_worker j l))

pub of_worker-tagged :
    (i : ℕ) (l : List (ℕ × Text)) (xs : List Text)
    → of_worker i (l ++ tagged i xs) ≡ of_worker i l ++ xs
unfolding of_worker
of_worker-tagged i l xs = of_worker-append i l (tagged i xs) ∙ ap (λ r. of_worker i l ++ r) (own xs)
  where
    own : (ys : List Text) → of_worker i (tagged i ys) ≡ ys
    own [] = refl
    own (y ∷ ys) = ground (arith, own ys)

pub of_worker-tagged_other :
    (i j : ℕ) (l : List (ℕ × Text)) (xs : List Text)
    → i ≢ j
    → of_worker j (l ++ tagged i xs) ≡ of_worker j l
unfolding of_worker
of_worker-tagged_other i j l xs ne =
    of_worker-append j l (tagged i xs)
    ∙ ap (λ r. of_worker j l ++ r) (others xs)
    ∙ append-nil (of_worker j l)
  where
    others : (ys : List Text) → of_worker j (tagged i ys) ≡ []
    others [] = refl
    others (y ∷ ys) = ground (arith, others ys)

-- Every frame is one of `n` workers.
abbrev pub OfWorkers : ℕ → List (ℕ × Text) → Type 0
OfWorkers n log = All (λ (e : ℕ × Text). e.0 < n) log

pub OfWorkers-snoc :
    (n : ℕ) (log : List (ℕ × Text)) (e : ℕ × Text)
    → OfWorkers n log
    → e.0 < n
    → OfWorkers n (log ++ e ∷ [])
OfWorkers-snoc n [] e h l = (l, tt)
OfWorkers-snoc n (x ∷ log) e h l = (h.0, OfWorkers-snoc n log e h.1 l)

abbrev pub frames : List (ℕ × Text) → List Text
frames log = map (λ (e : ℕ × Text). e.1) log

pub map-snoc :
    (log : List (ℕ × Text)) (e : ℕ × Text) → frames (log ++ e ∷ []) ≡ frames log ++ e.1 ∷ []
map-snoc [] e = refl
map-snoc (a ∷ log) e = ap (λ r. a.1 ∷ r) (map-snoc log e)

pub index_fits :
    {A : Type 0} (xs : List A) (i : ℕ) (x : A) → get_elem? xs i ≡ some x → i < length xs
index_fits [] i x h = cc
index_fits (y ∷ xs) zero x h = omega arith
index_fits (y ∷ xs) (suc i) x h = omega (arith, index_fits xs i x h)

-- The frame that each worker's consumer has taken and not stored yet.
abbrev pub Hands : Type 0
Hands = ℕ → Option Text

unfoldable pub hold : ℕ → Option Text → Hands → Hands
hold i o hands = λ j. if i == j then o else hands j

abbrev pub in_hand : Option Text → List Text
in_hand none = []
in_hand (some x) = x ∷ []

-- The sharder, the frames that the queues took, each with its worker, and the hands.
abbrev pub Fed : Floats → Type 0
Fed F = Sharder F × List (ℕ × Text) × Hands

module _ {F : Floats} (J : JsonLib F) where
  -- What a worker's consumer does with a frame in its hand, on the shared store.
  unfoldable pub store_one : Sharder F → ℕ → Worker F → Text → Sharder F
  store_one s i w x =
      let c = ingest J (record (w.cons) { store = s.store }) (parse_ltp J w.cons.parser x) in
      record s { store = c.store; workers = set s.workers i (record w { cons = c }) }

  unfoldable pub feed : Fed F → Feed → Fed F
  unfolding store_one
  feed (s, accepted, hands) (moves i m writes) = elim (get_elem? s.workers i) [
    | none ↦ (s, accepted, hands)
    | some w ↦
        (let (c, es) = step m w.ws in
          (
            record s { workers = set s.workers i (react J es writes (record w { ws = c })).1 },
            accepted ++ tagged i (taken es w.cons.queue),
            hands,
          ))
  ]
  feed (s, accepted, hands) (subscribes i writes) = elim (get_elem? s.workers i) [
    | none ↦ (s, accepted, hands)
    | some w ↦
        (record s { workers = set s.workers i (send_subscribes J writes w).1 }, accepted, hands)
  ]
  feed (s, accepted, hands) (takes i) = elim (hands i) [
    | some x ↦ (s, accepted, hands)
    | none ↦ elim (get_elem? s.workers i) [
      | none ↦ (s, accepted, hands)
      | some w ↦ (
        record s { workers = set s.workers i (record w { cons = (take_frame w.cons).1 }) },
        accepted,
        hold i (take_frame w.cons).0 hands,
      )
    ]
  ]
  feed (s, accepted, hands) (stores i) = elim (hands i) [
    | none ↦ (s, accepted, hands)
    | some x ↦ elim (get_elem? s.workers i) [
      | none ↦ (s, accepted, hands)
      | some w ↦ (store_one s i w x, accepted, hold i none hands)
    ]
  ]

  unfoldable pub feed_all : Fed F → List Feed → Fed F
  unfolding feed
  feed_all r [] = r
  feed_all r (e ∷ es) = feed_all (feed r e) es
