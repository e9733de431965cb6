-- ===== src/Sharder/Life/Kept.antt =====
-- A sharder follows its client's plan: what each operation of src/sharder.cpp does to the list that the
-- workers share.
use real_time_market_data.Base.{
  ℕ, ◌+◌, ◌-◌, ◌/◌, ◌<◌, ◌≡◌, refl, sym, subst, ap, ap₂, ◌∙◌, inl, inr, Bool-cases, Bool, true,
  false, List, [], ◌∷◌, Option, none, some, Text, length, max, arith, All, ◌||◌,
}
use real_time_market_data.Base.Word.{word_mod}
use real_time_market_data.Batches.{effective}
use real_time_market_data.Json.{Floats, JsonLib}
use real_time_market_data.Parser.{Parser}
use real_time_market_data.Store.{LtpStore}
use real_time_market_data.WebSocket.{Moment}
use real_time_market_data.Sharder.Workers.{Options, worker_run}
use real_time_market_data.Sharder.{
  Sharder, Environment, init, Stopping, stop_all, set_tokens, set_access_token, set_common_headers,
  debug_broadcast_text, running, desired_tokens_snapshot,
}
use real_time_market_data.WebSocket.Thread.{has}
use real_time_market_data.Sharder.Launch.{worker_run-tokens, start-Started}
use real_time_market_data.Sharder.Life.{
  Op, gets_token, gets_headers, gets_tokens, starts, stops, broadcasts, runs, Plan, planned,
  planned_all, nothing_planned, IsSmall, is_stop, Life, alive, stuck, ended, crashed, operate,
  operate_all, Follows,
}
use real_time_market_data.Sharder.Life.Staff.{
  Shared-same, modify-tokens, broadcast-tokens, starts_up, starts_built, stops_down, stops_up,
  broadcast_down, broadcast_up,
}

module _ {F : Floats} where
  -- How an operation ends: with a sharder that follows the plan, or in a stop that waits or terminates.
  abbrev pub Keeps : Options → Bool → Plan → Life F → Type 0
  Keeps opts has_stop p (alive s) = Follows opts s p
  Keeps opts has_stop p stuck = has_stop ≡ true
  Keeps opts has_stop p ended = has_stop ≡ true
  Keeps opts has_stop p crashed = ⊥

  kept :
      (opts : Options) (has_stop : Bool) (p : Plan) {l l' : Life F}
      → l ≡ l'
      → Keeps opts has_stop p l'
      → Keeps opts has_stop p l
  kept opts has_stop p e k = subst (Keeps opts has_stop p) (sym e) k

  -- What comes after an operation.
  goes_on :
      (opts : Options) (now later : Bool) (p p' : Plan) (then_ : Sharder F → Life F) (l : Life F)
      → Keeps opts now p l
      → ((t : Sharder F) → Follows opts t p → Keeps opts later p' (then_ t))
      → Keeps opts
          (now || later)
          p'
          (elim l [ alive t ↦ then_ t | stuck ↦ stuck | ended ↦ ended | crashed ↦ crashed ])
  goes_on opts now later p p' then_ (alive t) k rest = later_stop (then_ t) (rest t k)
    where
      later_stop : (l : Life F) → Keeps opts later p' l → Keeps opts (now || later) p' l
      later_stop (alive u) h = h
      later_stop stuck h = ground arith
      later_stop ended h = ground arith
      later_stop crashed h = h
  goes_on opts now later p p' then_ stuck k rest = ground arith
  goes_on opts now later p p' then_ ended k rest = ground arith
  goes_on opts now later p p' then_ crashed k rest = k

module _ {F : Floats} (J : JsonLib F) where
  starts-Keeps :
      (opts : Options) (env : List Environment) (s : Sharder F) (wanted : List Text)
      (live : Option (List Text))
      → opts.max_tokens_per_conn < word_mod
      → let p : Plan = record { wanted = wanted; live = live } in
        Follows opts s p → Keeps opts false (planned (starts env) p) (operate J (starts env) s)
  unfolding planned running desired_tokens_snapshot
  starts-Keeps opts env s wanted (some tokens) word f =
      kept opts false _ (starts_up J env s f.up) (record {
        same_opts = f.same_opts;
        small = f.small;
        wanted = f.wanted;
        up = f.up;
        shared = f.shared;
      })
  starts-Keeps opts env s wanted none word f =
      let per_worker = ap (λ (o : Options). o.max_tokens_per_conn) f.same_opts in
      let (t, e, r) =
        start-Started J env s f.up (omega (arith, word, per_worker))
          (omega (arith, f.small, ap length f.wanted)) in
      kept opts false _ (starts_built J env s t e ∙ ap alive r.rest) (record {
        same_opts = f.same_opts;
        small = f.small;
        wanted = f.wanted;
        up = refl;
        shared = (
          r.together ∙ f.wanted,
          r.count
              ∙ ap₂
                  (λ (k : ℕ) (tokens : List Text).
                    max 1 ((length tokens + effective 800 k - 1) / effective 800 k))
                  per_worker f.wanted,
        );
      })

  stops-Keeps :
      (opts : Options) (env later : List (List Moment)) (s : Sharder F) (wanted : List Text)
      (live : Option (List Text))
      → let p : Plan = record { wanted = wanted; live = live } in
        Follows opts s p
        → Keeps opts true (planned (stops env later) p) (operate J (stops env later) s)
  unfolding planned running desired_tokens_snapshot
  stops-Keeps opts env later s wanted none f =
      kept opts true _ (stops_down J env later s f.up) (record {
        same_opts = f.same_opts;
        small = f.small;
        wanted = f.wanted;
        up = f.up;
        shared = f.shared;
      })
  stops-Keeps opts env later s wanted (some tokens) f =
      kept opts true _ (stops_up J env later s f.up) (ends (stop_all J env later s.workers))
    where
      down : Sharder F
      down = record s { workers = []; running = false }

      ends :
          (how : Stopping)
          → Keeps opts true
              (record { wanted = wanted; live = none })
              (elim how [
                | Stopping.stopped ↦ alive down
                | Stopping.waits ↦ stuck
                | Stopping.terminates ↦ ended
              ])
      ends Stopping.stopped = record {
        same_opts = f.same_opts;
        small = f.small;
        wanted = f.wanted;
        up = refl;
        shared = refl;
      }
      ends Stopping.waits = refl
      ends Stopping.terminates = refl

  broadcasts-Keeps :
      (opts : Options) (payload : Text) (writes : List Bool) (s : Sharder F) (p : Plan)
      → Follows opts s p
      → Follows opts (debug_broadcast_text J payload writes s).1 p
  unfolding running desired_tokens_snapshot
  broadcasts-Keeps opts payload writes s p f = elim (Bool-cases s.running) [
    | inr off ↦ rw (broadcast_down J payload writes s off) f
    | inl on ↦
        let (e, l) = broadcast-tokens J payload writes s.workers in
        rw (broadcast_up J payload writes s on) (record {
          same_opts = f.same_opts;
          small = f.small;
          wanted = f.wanted;
          up = f.up;
          shared =
              Shared-same (effective 800 opts.max_tokens_per_conn) p.live s.workers _ e l f.shared;
        })
  ]

  operate-Keeps :
      (opts : Options) (o : Op) (s : Sharder F) (p : Plan)
      → opts.max_tokens_per_conn < word_mod
      → IsSmall o
      → Follows opts s p
      → Keeps opts (is_stop o) (planned o p) (operate J o s)
  unfolding planned operate set_access_token set_common_headers set_tokens debug_broadcast_text
      running desired_tokens_snapshot
  operate-Keeps opts (gets_token value) s p word h f = record {
    same_opts = f.same_opts;
    small = f.small;
    wanted = f.wanted;
    up = f.up;
    shared = f.shared;
  }
  operate-Keeps opts (gets_headers headers) s p word h f = record {
    same_opts = f.same_opts;
    small = f.small;
    wanted = f.wanted;
    up = f.up;
    shared = f.shared;
  }
  operate-Keeps opts (gets_tokens tokens) s p word h f = record {
    same_opts = f.same_opts;
    small = h;
    wanted = refl;
    up = f.up;
    shared = f.shared;
  }
  operate-Keeps opts (starts env) s p word h f = starts-Keeps opts env s p.wanted p.live word f
  operate-Keeps opts (stops env later) s p word h f = stops-Keeps opts env later s p.wanted p.live f
  operate-Keeps opts (broadcasts payload writes) s p word h f =
      broadcasts-Keeps opts payload writes s p f
  operate-Keeps opts (runs i ms writes) s p word h f =
      let (e, l) =
        modify-tokens (λ w. (worker_run J ms writes w).1) i s.workers
          (worker_run-tokens J ms writes) in
      record {
        same_opts = f.same_opts;
        small = f.small;
        wanted = f.wanted;
        up = f.up;
        shared =
            Shared-same (effective 800 opts.max_tokens_per_conn) p.live s.workers _ e l f.shared;
      }

  operate_all-Keeps :
      (opts : Options) (os : List Op) (s : Sharder F) (p : Plan)
      → opts.max_tokens_per_conn < word_mod
      → All IsSmall os
      → Follows opts s p
      → Keeps opts (has is_stop os) (planned_all os p) (operate_all J os s)
  unfolding planned_all operate_all
  operate_all-Keeps opts [] s p word h f = f
  operate_all-Keeps opts (o ∷ os) s p word h f =
      goes_on opts (is_stop o) (has is_stop os) (planned o p) (planned_all os (planned o p))
        (operate_all J os) (operate J o s) (operate-Keeps opts o s p word h.0 f)
        (λ t g. operate_all-Keeps opts os t (planned o p) word h.1 g)

  -- For a new sharder whose max_tokens_per_conn fits a word, and any sequence of its operations with
  -- lists of fewer than 2 ^ 63 tokens, all of whose texts are UTF-8, whatever the network and the
  -- connection threads do meanwhile: it ends with a usable sharder or, only if the sequence has a
  -- stop, in a stop whose join does not return or that ends the program by std::terminate; no start
  -- ends the program. Where the sharder is usable, the desired tokens are those last set; it is
  -- running, and has workers, exactly if it was started after the last stop; the workers then have
  -- the list that was set at that start, in order, and are as many as its length divided by the
  -- tokens per connection, rounded up, and at least one.
  pub life-Keeps :
      (parser : Parser) (store : LtpStore F) (opts : Options) (os : List Op)
      → opts.max_tokens_per_conn < word_mod
      → All IsSmall os
      → Keeps opts
          (has is_stop os)
          (planned_all os nothing_planned)
          (operate_all J os (init parser store opts))
  unfolding running desired_tokens_snapshot init
  life-Keeps parser store opts os word small =
      operate_all-Keeps opts os (init parser store opts) nothing_planned word small
        (record { same_opts = refl; small = omega arith; wanted = refl; up = refl; shared = refl })
