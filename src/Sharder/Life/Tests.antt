-- ===== src/Sharder/Life/Tests.antt =====
-- The life of a sharder of two tokens.
use real_time_market_data.Base.{ℕ, Option, none, some, ◌≡◌, refl, true, List, [], ◌∷◌, codes, arith}
use real_time_market_data.Samples.{Whole, Small, answering, laws}
use real_time_market_data.Store.{empty_store}
use real_time_market_data.WebSocket.{Moment}
use real_time_market_data.Sharder.{Sharder, init, effective_headers, num_workers}
use real_time_market_data.Sharder.Samples.{parser, tokens, sharder}
use real_time_market_data.Sharder.Handshakes.{AllSend}
use real_time_market_data.Sharder.Life.{
  Op, gets_token, gets_tokens, starts, stops, broadcasts, runs, planned_all, nothing_planned, Life,
  alive, operate_all,
}
use real_time_market_data.Sharder.Life.Kept.{Keeps, life-Keeps}
use real_time_market_data.Sharder.Life.Headers.{token_after, start-AllSend}

abbrev up : List Moment
up = Moment.begins ∷ Moment.connects ∷ []

-- A list is set and the sharder started, its two connections come up, another list is set and a text
-- sent to all; the connections are closed in a stop, and a start takes the second list up.
abbrev some_life : List Op
some_life =
    gets_tokens tokens
    ∷ starts ((up, []) ∷ (up, []) ∷ [])
    ∷ gets_tokens (codes "5" ∷ [])
    ∷ broadcasts (codes "x") []
    ∷ stops ((Moment.closed ∷ []) ∷ (Moment.closed ∷ []) ∷ []) []
    ∷ starts []
    ∷ []

-- How many workers there are at the end, where the sharder is usable.
abbrev workers_left : Life Whole → Option ℕ
workers_left (alive t) = some (num_workers t)
workers_left _ = none

abbrev some_life_left : Option ℕ
some_life_left = workers_left (operate_all Small some_life (init parser empty_store sharder.opts))

life-Keeps_example :
    Keeps sharder.opts true
      (planned_all some_life nothing_planned)
      (operate_all Small some_life (init parser empty_store sharder.opts))
life-Keeps_example =
    life-Keeps Small parser empty_store sharder.opts some_life (omega arith) (omega arith)

-- The access token is renewed before the first connection is up.
abbrev renewal : List Op
renewal = gets_token (codes "new") ∷ runs 0 (Moment.begins ∷ Moment.connects ∷ []) [] ∷ []

start-AllSend_example :
    (t : Sharder Whole) × (operate_all Small (starts [] ∷ renewal) sharder ≡ alive t)
    × (t.running ≡ true)
    × AllSend (answering 101 []) (laws 101 []) (effective_headers sharder) t.workers
    × (t.auth_header_value ≡ token_after renewal sharder.auth_header_value)
start-AllSend_example =
    start-AllSend Small (answering 101 []) (laws 101 []) [] renewal sharder refl (omega arith)
      (omega arith) refl
