-- ===== src/Sharder/Life/Staff.antt =====
-- What each operation of src/sharder.cpp leaves of the workers and their tokens.
use real_time_market_data.Base.{
  ℕ, zero, suc, ◌≡◌, refl, ap, ◌∙◌, Bool, true, false, List, [], ◌∷◌, ◌++◌, Option, none, some,
  Text, length, modify, arith,
}
use real_time_market_data.Json.{Floats, JsonLib}
use real_time_market_data.WebSocket.{Moment}
use real_time_market_data.Sharder.Workers.{Worker}
use real_time_market_data.Sharder.{
  Sharder, Environment, Stopping, start, stop, stop_all, debug_broadcast_text, broadcast,
}
use real_time_market_data.Sharder.Shards.{all_tokens}
use real_time_market_data.Sharder.Life.{starts, stops, alive, stuck, ended, operate, Shared}

module _ {F : Floats} where
  pub Shared-same :
      (n : ℕ) (live : Option (List Text)) (ws ws' : List (Worker F))
      → all_tokens ws' ≡ all_tokens ws
      → length ws' ≡ length ws
      → Shared n live ws
      → Shared n live ws'
  Shared-same n none ws [] e l h = refl
  Shared-same n none ws (w ∷ ws') e l h = absurd (omega (arith, l, ap length h))
  Shared-same n (some tokens) ws ws' e l h = (e ∙ h.0, l ∙ h.1)

  pub modify-tokens :
      (f : Worker F → Worker F) (i : ℕ) (ws : List (Worker F))
      → ((w : Worker F) → (f w).tokens ≡ w.tokens)
      → (all_tokens (modify i f ws) ≡ all_tokens ws) × (length (modify i f ws) ≡ length ws)
  modify-tokens f i [] h = (refl, refl)
  modify-tokens f zero (w ∷ ws) h = (ap (λ l. l ++ all_tokens ws) (h w), refl)
  modify-tokens f (suc i) (w ∷ ws) h =
      let (e, l) = modify-tokens f i ws h in (ap (λ r. w.tokens ++ r) e, ap suc l)

module _ {F : Floats} (J : JsonLib F) where
  pub broadcast-tokens :
      (payload : Text) (writes : List Bool) (ws : List (Worker F))
      → (all_tokens (broadcast J payload writes ws).1 ≡ all_tokens ws)
        × (length (broadcast J payload writes ws).1 ≡ length ws)
  unfolding broadcast
  broadcast-tokens payload writes [] = (refl, refl)
  broadcast-tokens payload [] (w ∷ ws) =
      let (e, l) = broadcast-tokens payload [] ws in (ap (λ r. w.tokens ++ r) e, ap suc l)
  broadcast-tokens payload (b ∷ writes) (w ∷ ws) =
      let (e, l) = broadcast-tokens payload writes ws in (ap (λ r. w.tokens ++ r) e, ap suc l)

  pub starts_up :
      (env : List Environment) (s : Sharder F)
      → s.running ≡ true
      → operate J (starts env) s ≡ alive s
  unfolding operate start
  starts_up env s on = ground arith

  pub starts_built :
      (env : List Environment) (s t : Sharder F)
      → start J env s ≡ some (t, true)
      → operate J (starts env) s ≡ alive t
  unfolding operate
  starts_built env s t e = rw (e, operate) refl

  pub stops_down :
      (env later : List (List Moment)) (s : Sharder F)
      → s.running ≡ false
      → operate J (stops env later) s ≡ alive s
  unfolding operate stop
  stops_down env later s off = ground arith

  pub stops_up :
      (env later : List (List Moment)) (s : Sharder F)
      → s.running ≡ true
      → operate J (stops env later) s ≡ elim (stop_all J env later s.workers) [
        | Stopping.stopped ↦ alive (record s { workers = []; running = false })
        | Stopping.waits ↦ stuck
        | Stopping.terminates ↦ ended
      ]
  unfolding operate stop
  stops_up env later s on = ground arith

  pub broadcast_down :
      (payload : Text) (writes : List Bool) (s : Sharder F)
      → s.running ≡ false
      → (debug_broadcast_text J payload writes s).1 ≡ s
  unfolding debug_broadcast_text
  broadcast_down payload writes s off = ground arith

  pub broadcast_up :
      (payload : Text) (writes : List Bool) (s : Sharder F)
      → s.running ≡ true
      → (debug_broadcast_text J payload writes s).1
        ≡ record s { workers = (broadcast J payload writes s.workers).1 }
  unfolding debug_broadcast_text
  broadcast_up payload writes s on = ground arith
