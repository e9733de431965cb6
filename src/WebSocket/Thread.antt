-- ===== src/WebSocket/Thread.antt =====
-- The connection thread: the backoff, the resubscription, the end after a stop.
use native.Mathlib.Nat.{pow-suc}
use real_time_market_data.Base.{
  ℕ, zero, suc, ◌*◌, ◌^◌, ◌≤◌, ◌<◌, ◌≡◌, refl, ap, ◌∙◌, Bool, true, false, ◌||◌, List, [], ◌∷◌,
  ◌++◌, codes, min, length, arith, text_eq,
}
use real_time_market_data.WebSocket.{Options, Phase, Client, Moment, Effect, step, run}

-- Whether a trace has a call of the resubscribe hook, and a report of "reconnecting".
abbrev pub is_resubscribe : Effect → Bool
is_resubscribe Effect.resubscribe = true
is_resubscribe _ = false

abbrev pub is_reconnecting : Effect → Bool
is_reconnecting (Effect.state s) = text_eq s (codes "reconnecting")
is_reconnecting _ = false

abbrev pub has {ℓ} : {A : Type ℓ} → (A → Bool) → List A → Bool
has p [] = false
has p (x ∷ xs) = p x || has p xs

pub has-append {ℓ} :
    {A : Type ℓ} (p : A → Bool) (xs ys : List A) → has p (xs ++ ys) ≡ has p xs || has p ys
has-append p [] ys = refl
has-append p (x ∷ xs) ys = ground (arith, has-append p xs ys)

-- Phases that only a lost or refused connection leads to.
abbrev pub is_retrying : Phase → Bool
is_retrying (Phase.attempting b) = true
is_retrying (Phase.sleeping b) = true
is_retrying _ = false

step_first :
    (m : Moment) (c : Client)
    → is_retrying c.phase ≡ false
    → (has is_resubscribe (step m c).1 ≡ false)
      × (has is_reconnecting (step m c).1 ≡ false → is_retrying (step m c).0.phase ≡ false)
unfolding step
step_first Moment.stops c h = ground arith
step_first m c h = ground arith

-- A thread that is not in its reconnect loop and does not report "reconnecting" during a run of
-- moments does not call the resubscribe hook in it.
pub run_no_resubscribe :
    (ms : List Moment) (c : Client)
    → is_retrying c.phase ≡ false
    → has is_reconnecting (run c ms).1 ≡ false
    → has is_resubscribe (run c ms).1 ≡ false
unfolding run
run_no_resubscribe [] c h quiet = refl
run_no_resubscribe (m ∷ ms) c h quiet =
    let first = step_first m c h in
    ground (
      arith,
      first,
      has-append is_reconnecting (step m c).1 (run (step m c).0 ms).1,
      has-append is_resubscribe (step m c).1 (run (step m c).0 ms).1,
      λ (g : is_retrying (step m c).0.phase ≡ false)
            (q : has is_reconnecting (run (step m c).0 ms).1 ≡ false).
          run_no_resubscribe ms (step m c).0 g q,
    )

-- Refused attempts, each with whether the stream was made by then, and the sleep after each.
abbrev pub retries : List Bool → List Moment
retries [] = []
retries (made ∷ fs) = Moment.fails made ∷ Moment.wakes ∷ retries fs

-- The lengths of the sleeps in a trace.
abbrev pub sleeps : List Effect → List ℕ
sleeps [] = []
sleeps (Effect.sleep ms ∷ es) = ms ∷ sleeps es
sleeps (_ ∷ es) = sleeps es

sleeps-append : (es fs : List Effect) → sleeps (es ++ fs) ≡ sleeps es ++ sleeps fs
sleeps-append [] fs = refl
sleeps-append (Effect.sleep ms ∷ es) fs = ap (λ l. ms ∷ l) (sleeps-append es fs)
sleeps-append (Effect.state s ∷ es) fs = sleeps-append es fs
sleeps-append (Effect.message s ∷ es) fs = sleeps-append es fs
sleeps-append (Effect.resubscribe ∷ es) fs = sleeps-append es fs

record Retried (made : Bool) (b : ℕ) (c : Client) : Type 0 where
  pub on : (step Moment.wakes (step (Moment.fails made) c).0).0.running ≡ true
  pub at :
      (step Moment.wakes (step (Moment.fails made) c).0).0.phase
      ≡ Phase.attempting (min (b * 2) c.opts.backoff_max)
  pub same : (step Moment.wakes (step (Moment.fails made) c).0).0.opts ≡ c.opts
  pub slept : sleeps (step (Moment.fails made) c).1 ≡ b ∷ []
  pub awake : sleeps (step Moment.wakes (step (Moment.fails made) c).0).1 ≡ []

retry_once :
    (made : Bool) (b : ℕ) (c : Client)
    → c.running ≡ true
    → c.phase ≡ Phase.attempting b
    → Retried made b c
unfolding step
retry_once made b c on at = ground arith

-- How many moments a stopped thread that has begun is from its end, at most.
abbrev pub rank : Phase → ℕ
rank (Phase.attempting b) = 2
rank Phase.finished = 0
rank Phase.idle = 0
rank _ = 1

-- A thread that has not got to run.
abbrev pub is_spawned : Phase → Bool
is_spawned Phase.spawned = true
is_spawned _ = false

-- The moments that come in a phase, from the network, the clock or the thread itself.
abbrev pub comes : Phase → Moment → Bool
comes Phase.spawned Moment.begins = true
comes Phase.attempting_first Moment.connects = true
comes Phase.attempting_first (Moment.fails b) = true
comes (Phase.attempting b) Moment.connects = true
comes (Phase.attempting b) (Moment.fails made) = true
comes (Phase.sleeping b) Moment.wakes = true
comes Phase.reading (Moment.frame msg) = true
comes Phase.reading Moment.closed = true
comes Phase.reading Moment.aborted = true
comes Phase.reading Moment.broken = true
comes _ _ = false

-- Of a thread whose running flag is down, and a moment that comes in its phase from the network, the
-- clock or its own start: one that had not got to run begins, and raises the flag again; any other
-- comes nearer to its end by a rank that is at most 2, with the flag still down.
pub step_stopped :
    (m : Moment) (c : Client)
    → c.running ≡ false
    → comes c.phase m ≡ true
    → (is_spawned c.phase ≡ true → (step m c).0.running ≡ true)
      × (is_spawned c.phase ≡ false
          → (rank (step m c).0.phase < rank c.phase) × ((step m c).0.running ≡ false))
unfolding step
step_stopped Moment.stops c off h = (λ s. ground arith, λ s. (ground arith, ground arith))
step_stopped m c off h = (λ s. ground arith, λ s. (ground arith, ground arith))

-- The doubled backoffs from the `k`th on, each cut at the maximum.
abbrev pub schedule : ℕ → ℕ → ℕ → ℕ → List ℕ
schedule initial most k zero = []
schedule initial most k (suc n) = min (initial * 2 ^ k) most ∷ schedule initial most (suc k) n

doubled :
    (initial k b most : ℕ)
    → b ≡ min (initial * 2 ^ k) most
    → min (b * 2) most ≡ min (initial * 2 ^ suc k) most
doubled initial k b most e = omega (arith, e, ap (λ (t : ℕ). initial * t) (pow-suc 2 k))

retries_from :
    (fs : List Bool) (k initial b : ℕ) (c : Client)
    → c.running ≡ true
    → b ≡ min (initial * 2 ^ k) c.opts.backoff_max
    → c.phase ≡ Phase.attempting b
    → sleeps (run c (retries fs)).1 ≡ schedule initial c.opts.backoff_max k (length fs)
unfolding run
retries_from [] k initial b c on e at = refl
retries_from (made ∷ fs) k initial b c on e at =
    let r = retry_once made b c on at in
    let c' = (step Moment.wakes (step (Moment.fails made) c).0).0 in
    let most : c'.opts.backoff_max ≡ c.opts.backoff_max =
      ap (λ (o : Options). o.backoff_max) r.same in
    let ih =
      retries_from fs (suc k) initial (min (b * 2) c.opts.backoff_max) c' r.on
        (rw most (doubled initial k b c.opts.backoff_max e)) r.at in
    sleeps-append (step (Moment.fails made) c).1 _
    ∙ rw (r.slept, sleeps-append, r.awake, ih, most)
        (ap (λ (x : ℕ). x ∷ schedule initial c.opts.backoff_max (suc k) (length fs)) e)

-- While the attempts of a running reconnect loop are refused, each before or after its stream is
-- made, from a backoff of at most the maximum on, the n-th sleep is the first backoff doubled n
-- times, cut at the maximum.
pub retries_lem :
    (fs : List Bool) (b : ℕ) (c : Client)
    → c.running ≡ true
    → b ≤ c.opts.backoff_max
    → c.phase ≡ Phase.attempting b
    → sleeps (run c (retries fs)).1 ≡ schedule b c.opts.backoff_max 0 (length fs)
retries_lem fs b c on h at = retries_from fs 0 b b c on (omega arith) at
