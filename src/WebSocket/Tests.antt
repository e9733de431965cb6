-- ===== src/WebSocket/Tests.antt =====
-- A client through a refused first attempt, retries, and a close.
use real_time_market_data.Base.{
  ◌<◌, ◌≡◌, refl, Bool, true, false, List, [], ◌∷◌, some, Text, codes, arith,
}
use real_time_market_data.Parser.{has_prefix}
use real_time_market_data.Url.{split_url, split_rest, split_host, cut_at}
use real_time_market_data.WebSocket.{
  default_options, Phase, Client, Moment, parse_wss, step, run, init, start, send_binary,
  is_connected,
}
use real_time_market_data.WebSocket.Thread.{
  retries, sleeps, schedule, retries_lem, rank, is_spawned, step_stopped,
}
use real_time_market_data.WebSocket.Protocol.{Seen, fresh, follow, Fits, run_follows}
use real_time_market_data.WebSocket.Public.{
  IsValid, Op, operate, operate_all, operate_all-IsValid, is_connected-false,
}

abbrev url : Text
url = codes "wss://feed.in/ws"

-- A client whose thread is in a given phase.
abbrev client : Phase → Bool → Client
client phase connected = record {
  url = url;
  opts = default_options;
  has_ws = connected;
  running = true;
  connected = connected;
  connected_ = false;
  joinable = true;
  phase = phase;
  written = [];
}

-- Refused twice after the first attempt: 500 ms, then 1000 ms, then connected, and the hook is called.
abbrev attempts : List Moment
attempts =
    Moment.fails false
    ∷ Moment.fails false
    ∷ Moment.wakes
    ∷ Moment.fails false
    ∷ Moment.wakes
    ∷ Moment.connects
    ∷ []

attempts_sleep : sleeps (run (client Phase.attempting_first false) attempts).1 ≡ 500 ∷ 1000 ∷ []
unfolding run step parse_wss split_url split_rest split_host cut_at has_prefix
attempts_sleep = ground arith

-- Six attempts, half of them refused before the stream is made.
abbrev failures : List Bool
failures = false ∷ true ∷ true ∷ false ∷ true ∷ false ∷ []

retries_lem_example :
    sleeps (run (client (Phase.attempting 500) false) (retries failures)).1 ≡ schedule 500 5000 0 6
retries_lem_example =
    retries_lem failures 500 (client (Phase.attempting 500) false) refl (omega arith) refl

abbrev halted : Client
halted = record (client (Phase.sleeping 500) false) { running = false }

step_stopped_example :
    (is_spawned halted.phase ≡ true → (step Moment.wakes halted).0.running ≡ true)
    × (is_spawned halted.phase ≡ false
        → (rank (step Moment.wakes halted).0.phase < rank halted.phase)
          × ((step Moment.wakes halted).0.running ≡ false))
step_stopped_example = step_stopped Moment.wakes halted refl refl

reading-IsValid : IsValid (client Phase.reading true)
reading-IsValid = ground arith

is_connected-false_example :
    is_connected (record (init url default_options) { joinable = true; phase = Phase.spawned })
    ≡ false
is_connected-false_example =
    is_connected-false (Op.starts ∷ []) url default_options
      (record (init url default_options) { joinable = true; phase = Phase.spawned })
      (unfold operate_all operate start init in refl)

abbrev plain : Client
plain = record (client Phase.attempting_first false) { url = codes "ws://feed.in" }

operate_all-IsValid_example :
    IsValid (record (init url default_options) { joinable = true; phase = Phase.spawned })
operate_all-IsValid_example =
    operate_all-IsValid (Op.starts ∷ Op.sends_binary [] true ∷ []) url default_options
      (record (init url default_options) { joinable = true; phase = Phase.spawned })
      (unfold operate_all operate start send_binary init in refl)

-- A refused attempt, one that succeeds, a frame, and a lost connection.
abbrev eventful : List Moment
eventful =
    Moment.begins
    ∷ Moment.fails true
    ∷ Moment.connects
    ∷ Moment.frame (codes "x")
    ∷ Moment.broken
    ∷ []

run_follows_example :
    (q : Seen) × (follow fresh (run (client Phase.spawned false) eventful).1 ≡ some q)
    × Fits (run (client Phase.spawned false) eventful).0.phase q
run_follows_example = run_follows eventful (client Phase.spawned false) refl
