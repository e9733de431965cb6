-- ===== src/WebSocket/Callbacks.antt =====
-- src/websocket_client.cpp: the three callbacks, and where the thread calls them. A callback acts on the
-- state of its owner, `A`; an empty std::function is `none`.
use real_time_market_data.Base.{List, [], ◌∷◌, Option, none, some, Text}
use real_time_market_data.WebSocket.{Effect}

pub record Callbacks (A : Type 0) : Type 0 where
  pub on_msg : Option (Text → A → A)
  pub on_state : Option (Text → A → A)
  pub on_resub_noarg : Option (A → A)

module _ {A : Type 0} where
  abbrev pub no_callbacks : Callbacks A
  no_callbacks = record { on_msg = none; on_state = none; on_resub_noarg = none }

  unfoldable pub set_on_message : Option (Text → A → A) → Callbacks A → Callbacks A
  set_on_message cb cbs = record cbs { on_msg = cb }

  unfoldable pub set_on_state : Option (Text → A → A) → Callbacks A → Callbacks A
  set_on_state cb cbs = record cbs { on_state = cb }

  -- A wrapper that calls the function if there is one.
  unfoldable pub set_on_resubscribe : Option (A → A) → Callbacks A → Callbacks A
  set_on_resubscribe fn cbs = record cbs {
    on_resub_noarg = some (λ a. elim fn [ none ↦ a | some f ↦ f a ]);
  }

  -- One step's effect on the owner; the line that `notify_state` logs is not part of it.
  deliver : Callbacks A → Effect → A → A
  deliver cbs (Effect.message msg) a = elim cbs.on_msg [ none ↦ a | some f ↦ f msg a ]
  deliver cbs (Effect.state s) a = elim cbs.on_state [ none ↦ a | some f ↦ f s a ]
  deliver cbs Effect.resubscribe a = elim cbs.on_resub_noarg [ none ↦ a | some f ↦ f a ]
  deliver cbs (Effect.sleep ms) a = a

  unfoldable pub deliver_all : Callbacks A → List Effect → A → A
  unfolding deliver
  deliver_all cbs [] a = a
  deliver_all cbs (e ∷ es) a = deliver_all cbs es (deliver cbs e a)
