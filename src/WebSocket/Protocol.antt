-- ===== src/WebSocket/Protocol.antt =====
-- The order in which the thread of src/websocket_client.cpp calls its callbacks, as its owner may expect
-- it: an automaton over the effects.
use real_time_market_data.Base.{
  ◌≡◌, refl, inl, inr, List, [], ◌∷◌, ◌++◌, Option, none, some, Text, codes, text_eq, if◌then◌else◌,
  arith, Option-cases, ◌∙◌,
}
use real_time_market_data.WebSocket.{Phase, Client, Moment, Effect, step, run}

-- What the owner knows: nothing yet; an attempt is under way, the first one or a later one; a later one
-- has succeeded and the hook is due; frames may come; the connection is lost; a sleep; the end.
pub data Seen : Type 0 where
  fresh trying_first trying_again due up lost waiting over : Seen

-- What may be called next, and what is known then.
pub reported : Seen → Text → Option Seen
reported fresh s = if text_eq s (codes "connecting") then some trying_first else none
reported trying_first s =
    if text_eq s (codes "connected")
    then some up
    else if text_eq s (codes "reconnecting")
    then some lost
    else none
reported trying_again s = if text_eq s (codes "connected") then some due else none
reported up s =
    if text_eq s (codes "closed")
    then some over
    else if text_eq s (codes "reconnecting")
    then some lost
    else none
reported lost s = if text_eq s (codes "connecting") then some trying_again else none
reported waiting s = if text_eq s (codes "connecting") then some trying_again else none
reported due s = none
reported over s = none

pub next : Seen → Effect → Option Seen
unfolding reported
next q (Effect.state s) = reported q s
next up (Effect.message msg) = some up
next due Effect.resubscribe = some up
next trying_again (Effect.sleep ms) = some waiting
next _ _ = none

pub follow : Seen → List Effect → Option Seen
unfolding next
follow q [] = some q
follow q (e ∷ es) = elim (next q e) [ none ↦ none | some q' ↦ follow q' es ]

-- Where the thread is while the owner knows that much. A thread that has ended calls nothing more.
abbrev pub Fits : Phase → Seen → Type 0
Fits Phase.spawned q = q ≡ fresh
Fits Phase.attempting_first q = q ≡ trying_first
Fits (Phase.attempting backoff) q = q ≡ trying_again
Fits (Phase.sleeping backoff) q = q ≡ waiting
Fits Phase.reading q = q ≡ up
Fits _ q = Unit {0}

abbrev Accepts : Phase → Option Seen → Type 0
Accepts p none = ⊥
Accepts p (some q) = Fits p q

follow-append :
    (q : Seen) (es fs : List Effect)
    → follow q (es ++ fs) ≡ elim (follow q es) [ none ↦ none | some q' ↦ follow q' fs ]
unfolding follow
follow-append q [] fs = refl
follow-append q (e ∷ es) fs = elim (Option-cases (next q e)) [
  | inl out ↦ rw (out, follow) refl
  | inr (q', go) ↦ rw (go, follow) (follow-append q' es fs)
]

step-Accepts :
    (m : Moment) (c : Client) (q : Seen)
    → Fits c.phase q
    → Accepts (step m c).0.phase (follow q (step m c).1)
unfolding step follow
step-Accepts Moment.stops c q f = f
step-Accepts m c q f = ground arith

-- What is accepted leads to a state that fits.
accepted : (p : Phase) (o : Option Seen) → Accepts p o → (q : Seen) × (o ≡ some q) × Fits p q
accepted p none a = absurd a
accepted p (some q) a = (q, refl, a)

run-Fits :
    (ms : List Moment) (c : Client) (q : Seen)
    → Fits c.phase q
    → (q' : Seen) × (follow q (run c ms).1 ≡ some q') × Fits (run c ms).0.phase q'
unfolding run follow
run-Fits [] c q f = (q, refl, f)
run-Fits (m ∷ ms) c q f =
    let (q', seen, fits) =
      accepted (step m c).0.phase (follow q (step m c).1) (step-Accepts m c q f) in
    let (q'', rest, last) = run-Fits ms (step m c).0 q' fits in
    (q'', follow-append q (step m c).1 (run (step m c).0 ms).1 ∙ rw (seen) rest, last)

-- Whatever moments come to a thread that has not got to run, its callbacks follow an automaton: the
-- first report is "connecting", and a sleep or "reconnecting" is followed by it; "connected" and, in
-- the reconnect loop, a sleep come only right after "connecting"; in the reconnect loop the
-- resubscribe hook comes right after "connected", and nowhere else; messages come only between these
-- and the next "closed" or "reconnecting"; nothing comes after "closed". Where the thread has not
-- ended, the automaton is at the state for its phase.
pub run_follows :
    (ms : List Moment) (c : Client)
    → c.phase ≡ Phase.spawned
    → (q : Seen) × (follow fresh (run c ms).1 ≡ some q) × Fits (run c ms).0.phase q
run_follows ms c at = run-Fits ms c fresh (rw at refl)
