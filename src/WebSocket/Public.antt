-- ===== src/WebSocket/Public.antt =====
-- The public operations around the thread: well-formedness, URLs that are refused, the end by a
-- graceful close, and `is_connected`.
use real_time_market_data.Base.{
  ◌≡◌, refl, ap, ◌∙◌, ◌⊎◌, inl, inr, Bool, true, false, List, [], ◌∷◌, ◌++◌, Option, none, some,
  Text, if◌then◌else◌, Option-cases, arith, subst, some_inj,
}
use real_time_market_data.WebSocket.{
  Options, Phase, Client, Moment, parse_wss, step, run, init, start, stop, join, send_text,
  send_binary, text_message, is_connected,
}

-- What the members say of one another between the moments.
pub record IsValid (c : Client) : Type 0 where
  pub stream : c.connected ≡ true → c.has_ws ≡ true
  pub reading : c.phase ≡ Phase.reading → c.connected ≡ true
  pub spawned : c.phase ≡ Phase.spawned → c.running ≡ false
  pub thread : c.running ≡ true → c.joinable ≡ true
  pub busy : c.joinable ≡ false → (c.phase ≡ Phase.idle) ⊎ (c.phase ≡ Phase.finished)

init-IsValid : (url : Text) (opts : Options) → IsValid (init url opts)
unfolding init
init-IsValid url opts = ground arith

step-IsValid : (m : Moment) (c : Client) → IsValid c → IsValid (step m c).0
unfolding step
step-IsValid Moment.stops c v = ground arith
step-IsValid m c v = ground arith

-- The operations of a client, and what the network and the thread do in between.
pub data Op : Type 0 where
  starts stops joins : Op
  sends sends_binary : Text → Bool → Op
  happens : Moment → Op

-- `none` is std::terminate. A join is the end of a stop, so `running` is down; one that has to wait
-- changes nothing yet.
unfoldable pub operate : Op → Client → Option Client
operate starts c = elim (start c) [ none ↦ none | some (c', b) ↦ some c' ]
operate stops c = some (stop c).0
operate joins c = if c.running then some c else elim (join c) [ none ↦ some c | some c' ↦ some c' ]
operate (sends payload sent) c = some (send_text payload sent c).1
operate (sends_binary bytes sent) c = some (send_binary bytes sent c).1
operate (happens m) c = some (step m c).0

-- No public operation and no moment of the thread breaks what the client's members say of one
-- another: a connected client has a stream, a reading one is connected, a thread that has not got to
-- run has the flag down, a running one is joinable, and one without a thread is idle or finished.
operate-IsValid : (o : Op) (c c' : Client) → IsValid c → operate o c ≡ some c' → IsValid c'
unfolding operate start stop join send_text send_binary
operate-IsValid starts c c' v e = ground arith
operate-IsValid stops c c' v e = ground arith
operate-IsValid joins c c' v e = ground arith
operate-IsValid (sends payload sent) c c' v e = ground arith
operate-IsValid (sends_binary bytes sent) c c' v e = ground arith
operate-IsValid (happens m) c c' v e = ground (arith, step-IsValid m c v)

unfoldable pub operate_all : List Op → Client → Option Client
operate_all [] c = some c
operate_all (o ∷ os) c = elim (operate o c) [ none ↦ none | some c' ↦ operate_all os c' ]

operate_all-IsValid' :
    (os : List Op) (c c' : Client) → IsValid c → operate_all os c ≡ some c' → IsValid c'
unfolding operate_all
operate_all-IsValid' [] c c' v e = subst IsValid (some_inj e) v
operate_all-IsValid' (o ∷ os) c c' v e = elim (Option-cases (operate o c)) [
  | inl stuck ↦ absurd (cc (rw (stuck, operate_all) at e))
  | inr (d, go) ↦
      operate_all-IsValid' os d c' (operate-IsValid o c d v go) (rw (go, operate_all) at e)
]

-- After any sequence of public operations on a new client that does not terminate the program, and
-- of moments of its thread: a connected client has a stream, a reading one is connected, a thread
-- that has not got to run has the flag down, a running one is joinable, and one without a thread is
-- idle or finished.
pub operate_all-IsValid :
    (os : List Op) (url : Text) (opts : Options) (c : Client)
    → operate_all os (init url opts) ≡ some c
    → IsValid c
operate_all-IsValid os url opts c e =
    operate_all-IsValid' os (init url opts) c (init-IsValid url opts) e

operate-connected_ : (o : Op) (c c' : Client) → operate o c ≡ some c' → c'.connected_ ≡ c.connected_
unfolding operate start stop join send_text send_binary step
operate-connected_ starts c c' e = ground arith
operate-connected_ stops c c' e = ground arith
operate-connected_ joins c c' e = ground arith
operate-connected_ (sends payload sent) c c' e = ground arith
operate-connected_ (sends_binary bytes sent) c c' e = ground arith
operate-connected_ (happens Moment.stops) c c' e = ground arith
operate-connected_ (happens m) c c' e = ground arith

operate_all-connected_ :
    (os : List Op) (c c' : Client) → operate_all os c ≡ some c' → c'.connected_ ≡ c.connected_
unfolding operate_all
operate_all-connected_ [] c c' e = ground arith
operate_all-connected_ (o ∷ os) c c' e = elim (Option-cases (operate o c)) [
  | inl stuck ↦ absurd (cc (rw (stuck, operate_all) at e))
  | inr (d, go) ↦
      operate_all-connected_ os d c' (rw (go, operate_all) at e) ∙ operate-connected_ o c d go
]

-- After any operations on a new client, with whatever the network does between them, is_connected
-- says that it is not connected.
pub is_connected-false :
    (os : List Op) (url : Text) (opts : Options) (c : Client)
    → operate_all os (init url opts) ≡ some c
    → is_connected c ≡ false
unfolding is_connected init
is_connected-false os url opts c e = operate_all-connected_ os (init url opts) c e

step_refused :
    (m : Moment) (c : Client)
    → parse_wss c.url ≡ none
    → c.connected ≡ false
    → ((step m c).0.url ≡ c.url) × ((step m c).0.connected ≡ false)
unfolding step
step_refused Moment.stops c bad off = ground arith
step_refused m c bad off = ground arith

-- An unconnected client whose URL parse_wss refuses stays unconnected whatever moments come.
run_refused :
    (ms : List Moment) (c : Client)
    → parse_wss c.url ≡ none
    → c.connected ≡ false
    → (run c ms).0.connected ≡ false
unfolding run
run_refused [] c bad off = off
run_refused (m ∷ ms) c bad off =
    let (url, still) = step_refused m c bad off in
    run_refused ms (step m c).0 (ap parse_wss url ∙ bad) still

-- A running client that reads and meets a closed or an aborted connection is unconnected afterwards
-- and its thread is over, and a start then reports success and changes nothing.
closed_start :
    (c : Client) (graceful : Moment)
    → (graceful ≡ Moment.closed) ⊎ (graceful ≡ Moment.aborted)
    → c.running ≡ true
    → c.phase ≡ Phase.reading
    → let c' = (step graceful c).0 in
      (c'.phase ≡ Phase.finished) × (c'.connected ≡ false) × (start c' ≡ some (c', true))
unfolding step start
closed_start c graceful g on at = ground arith

-- What a write does, and that a moment writes nothing.
pub send_text_down :
    (payload : Text) (sent : Bool) (c : Client)
    → c.connected ≡ false
    → send_text payload sent c ≡ (false, c)
unfolding send_text
send_text_down payload sent c off = ground arith

pub send_text_up :
    (payload : Text) (c : Client)
    → c.has_ws ≡ true
    → c.connected ≡ true
    → send_text payload true c
      ≡ (true, record c { written = c.written ++ text_message payload ∷ [] })
unfolding send_text
send_text_up payload c made on = ground arith

pub step-written : (m : Moment) (c : Client) → (step m c).0.written ≡ c.written
unfolding step
step-written Moment.stops c = refl
step-written m c = ground arith
