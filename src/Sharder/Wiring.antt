-- ===== src/Sharder/Wiring.antt =====
-- src/sharder.cpp: the callbacks that build_workers_locked gives to the connection of a worker.
use real_time_market_data.Base.{◌≡◌, refl, Bool, List, [], ◌∷◌, some}
use real_time_market_data.Json.{Floats, JsonLib}
use real_time_market_data.WebSocket.{Effect}
use real_time_market_data.WebSocket.Callbacks.{
  Callbacks, no_callbacks, set_on_message, set_on_state, set_on_resubscribe, deliver_all,
}
use real_time_market_data.Sharder.Workers.{Worker, on_message, send_subscribes, react}

module _ {F : Floats} (J : JsonLib F) where
  -- A callback acts on its worker, and on how the writes to come end. The one for states logs.
  worker_callbacks : Callbacks (List Bool × Worker F)
  unfolding set_on_message set_on_state set_on_resubscribe
  worker_callbacks = set_on_resubscribe (some (λ (writes, w). send_subscribes J writes w)) (
      set_on_message (some (λ msg (writes, w). (writes, on_message msg w)))
        (set_on_state (some (λ s a. a)) no_callbacks))

  -- x
  react-deliver_all :
      (es : List Effect) (writes : List Bool) (w : Worker F)
      → react J es writes w ≡ deliver_all worker_callbacks es (writes, w)
  unfolding react deliver_all worker_callbacks
  react-deliver_all [] writes w = refl
  react-deliver_all (Effect.message msg ∷ es) writes w =
      react-deliver_all es writes (on_message msg w)
  react-deliver_all (Effect.resubscribe ∷ es) writes w =
      let (rest, w') = send_subscribes J writes w in react-deliver_all es rest w'
  react-deliver_all (Effect.state s ∷ es) writes w = react-deliver_all es writes w
  react-deliver_all (Effect.sleep ms ∷ es) writes w = react-deliver_all es writes w
