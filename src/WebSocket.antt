-- ===== src/WebSocket.antt =====
-- src/websocket_client.cpp, include/websocket_client.h: one connection and the thread that keeps it.
-- The thread is a state machine: `Phase` says where in `run` it is, and a `Moment` is the next thing
-- that the network, the clock or another thread does. What the thread calls on its way is the list
-- of effects. Boost, TLS and the network answer through the moments.
pub mod Thread
pub mod Public
pub mod Callbacks
pub mod Protocol
pub mod Handshake
mod Tests
use real_time_market_data.Base.{
  ℕ, ◌*◌, Bool, true, false, not, ◌&&◌, ◌||◌, List, [], ◌∷◌, ◌++◌, Option, none, some, Text, codes,
  if◌then◌else◌, min, is_some,
}
use real_time_market_data.Url.{UrlParts, split_url}

-- Times are in milliseconds.
pub record Options : Type 0 where
  pub ping_interval : ℕ
  pub conn_timeout : ℕ
  pub verify_peer : Bool
  pub ca_file : Text
  pub headers : List (Text × Text)
  pub backoff_initial : ℕ
  pub backoff_max : ℕ

abbrev pub default_options : Options
default_options = record {
  ping_interval = 15000;
  conn_timeout = 10000;
  verify_peer = true;
  ca_file = [];
  headers = [];
  backoff_initial = 500;
  backoff_max = 5000;
}

-- `attempting` is inside `connect_once`: of `run`, or of `reconnect_loop` with its backoff. `sleeping`
-- is in `sleep_for`, `reading` in `ws->read`. `idle` is before any thread, `spawned` before `run`.
pub data Phase : Type 0 where
  idle spawned attempting_first reading finished : Phase
  attempting sleeping : ℕ → Phase

-- What was written to the stream: each message in the mode it was written in.
pub data Sent : Type 0 where
  text_message binary_message : Text → Sent

-- `connected_` is the member of the outer class, `connected` that of `Impl`.
pub record Client : Type 0 where
  pub url : Text
  pub opts : Options
  pub has_ws : Bool
  pub running : Bool
  pub connected : Bool
  pub connected_ : Bool
  pub joinable : Bool
  pub phase : Phase
  pub written : List Sent

pub data Moment : Type 0 where
  -- the new thread gets to run
  begins : Moment
  -- the attempt to connect succeeds; or throws, before or after the stream is made
  connects : Moment
  fails : Bool → Moment
  -- the sleep is over
  wakes : Moment
  -- `read` gives a frame, or an error: closed, aborted, or another
  frame : Text → Moment
  closed aborted broken : Moment
  -- another thread is in `Impl::stop`
  stops : Moment

pub data Effect : Type 0 where
  state : Text → Effect
  message : Text → Effect
  resubscribe : Effect
  sleep : ℕ → Effect

unfoldable pub parse_wss : Text → Option UrlParts
parse_wss full = split_url (codes "wss://") full

abbrev Progress : Type 0
Progress = Client × List Effect

-- The heads of the two loops, where `running` and `connected` are loaded.
to_read_loop : Client → List Effect → Progress
to_read_loop c es =
    if c.running then (record c { phase = reading }, es) else (record c { phase = finished }, es)

to_reconnect_loop : ℕ → Client → List Effect → Progress
to_reconnect_loop backoff c es =
    if c.running && not c.connected
    then (record c { phase = attempting backoff }, es ++ state (codes "connecting") ∷ [])
    else (record c { phase = finished }, es)

-- `connect_once` once the network has answered; the TLS settings and the header fields it goes with are
-- in the child module `Handshake`, and the first report is in the step that leads here. An URL that
-- `parse_wss` refuses makes it throw before the network is asked, and the stream is then as it was.
pub connect_once : Moment → Client → Bool × Client × List Effect
connect_once connects c =
    if is_some (parse_wss c.url)
    then (true, record c { has_ws = true; connected = true }, state (codes "connected") ∷ [])
    else (false, record c { connected = false }, [])
connect_once (fails made) c = (
  false,
  record c { has_ws = c.has_ws || (made && is_some (parse_wss c.url)); connected = false },
  [],
)
connect_once _ c = (false, c, [])

-- `run`: the first attempt, then the read loop or the reconnect loop.
first_attempt : Moment → Client → Progress
unfolding connect_once to_read_loop to_reconnect_loop
first_attempt m c =
    let (ok, c', es) = connect_once m c in
    if ok
    then to_read_loop c' es
    else to_reconnect_loop c.opts.backoff_initial c' (es ++ state (codes "reconnecting") ∷ [])

-- `reconnect_loop`: an attempt, then the hook and the read loop, or a sleep.
pub attempt : ℕ → Moment → Client → Progress
unfolding connect_once to_read_loop
attempt backoff m c =
    let (ok, c', es) = connect_once m c in
    if ok
    then to_read_loop c' (es ++ resubscribe ∷ [])
    else (record c' { phase = sleeping backoff }, es ++ sleep backoff ∷ [])

-- `read_loop`, on an error of `read`.
read_error : Bool → Client → Progress
unfolding to_reconnect_loop
read_error graceful c =
    if not c.running
    then (record c { phase = finished }, [])
    else (let down = record c { connected = false } in
        if graceful
        then (record down { phase = finished }, state (codes "closed") ∷ [])
        else to_reconnect_loop c.opts.backoff_initial down (state (codes "reconnecting") ∷ []))

read_answer : Moment → Client → Progress
unfolding read_error to_read_loop
read_answer (frame msg) c = to_read_loop c (message msg ∷ [])
read_answer closed c = read_error true c
read_answer aborted c = read_error true c
read_answer broken c = read_error false c
read_answer _ c = (c, [])

-- One moment. One that cannot come in the thread's phase changes nothing.
in_phase : Phase → Moment → Client → Progress
unfolding first_attempt attempt read_answer to_reconnect_loop
in_phase spawned begins c =
    (record c { running = true; phase = attempting_first }, state (codes "connecting") ∷ [])
in_phase attempting_first connects c = first_attempt connects c
in_phase attempting_first (fails made) c = first_attempt (fails made) c
in_phase (attempting backoff) connects c = attempt backoff connects c
in_phase (attempting backoff) (fails made) c = attempt backoff (fails made) c
in_phase (sleeping backoff) wakes c = to_reconnect_loop (min (backoff * 2) c.opts.backoff_max) c []
in_phase reading m c = read_answer m c
in_phase _ _ c = (c, [])

unfoldable pub step : Moment → Client → Progress
unfolding in_phase
step stops c = (record c { running = false }, [])
step m c = in_phase c.phase m c

unfoldable pub run : Client → List Moment → Progress
run c [] = (c, [])
run c (m ∷ ms) = let (c', es) = step m c in let (c'', fs) = run c' ms in (c'', es ++ fs)

-- The constructor.
unfoldable pub init : Text → Options → Client
init url opts = record {
  url = url;
  opts = opts;
  has_ws = false;
  running = false;
  connected = false;
  connected_ = false;
  joinable = false;
  phase = idle;
  written = [];
}

-- `none` is std::terminate: a thread is assigned to one that was not joined.
unfoldable pub start : Client → Option (Client × Bool)
start c =
    if c.running
    then some (c, true)
    else if c.joinable
    then none
    else some (record c { joinable = true; phase = spawned }, true)

-- The part of `stop` before the join, and whether a join follows.
unfoldable pub stop : Client → Client × Bool
stop c = if not c.running then (c, false) else (record c { running = false }, c.joinable)

-- The join returns once the thread has finished.
unfoldable pub join : Client → Option Client
join c = elim c.phase [ finished ↦ some (record c { joinable = false }) | _ ↦ none ]

-- `sent` says whether `write` returned.
send : Sent → Bool → Client → Bool × Client
send msg sent c =
    if not c.has_ws || not c.connected
    then (false, c)
    else if sent
    then (true, record c { written = c.written ++ msg ∷ [] })
    else (false, c)

unfoldable pub send_text : Text → Bool → Client → Bool × Client
unfolding send
send_text payload sent c = send (text_message payload) sent c

pub send_binary : Text → Bool → Client → Bool × Client
unfolding send
send_binary bytes sent c = send (binary_message bytes) sent c

pub is_connected : Client → Bool
is_connected c = c.connected_
