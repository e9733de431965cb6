-- ===== src/Subscription/Tests.antt =====
-- A manager with a gap in both directions.
use real_time_market_data.Base.{
  ◌≡◌, refl, true, false, List, [], ◌∷◌, Text, codes, arith, none, length, flatten,
}
use real_time_market_data.Base.Map.{contains, insert}
use real_time_market_data.Samples.{Small}
use real_time_market_data.Subscription.{
  Manager, Mode, build_subscribe_batches, build_unsubscribe_batches, add, desired_snapshot,
  active_snapshot, make_batches, diff_desired_minus_active, diff_active_minus_desired,
}
use real_time_market_data.Subscription.Sets.{
  IsManager, Call, call, IsWordCall, calls as calls_all, wanted_after, acknowledged_after,
  calls_refine,
}
use real_time_market_data.Subscription.TokenSets.{SameSet}
use real_time_market_data.Subscription.Order.{Alike, Alike-refl, Run, ends, calls, runs_agree}
use real_time_market_data.Subscription.Payloads.{
  Covers, build_batches-Covers, acknowledge, acknowledge_settles,
}

-- "7" and "8" are desired, "8" and "9" are active.
abbrev manager : Manager
manager = record {
  mode = Mode.ltp;
  batch_size = 1;
  token_formatter = none;
  desired = codes "7" ∷ codes "8" ∷ [];
  active = codes "8" ∷ codes "9" ∷ [];
}

manager-IsManager : IsManager manager
manager-IsManager = record {
  desired = ground arith;
  active = ground arith;
  batch = omega arith;
  word = omega arith;
}

abbrev some_calls : List Call
some_calls = Call.adds (codes "5") ∷ Call.removes (codes "7") ∷ Call.marks (codes "5" ∷ []) ∷ []

calls_refine_example :
    ((s : Text)
      → contains s (calls_all manager some_calls).desired
        ≡ wanted_after (λ t. contains t manager.desired) some_calls s)
    × ((s : Text)
        → contains s (calls_all manager some_calls).active
          ≡ acknowledged_after (λ t. contains t manager.active) some_calls s)
calls_refine_example = calls_refine some_calls manager

build_batches-Covers_example :
    Covers Small manager true manager.desired manager.active (build_subscribe_batches Small manager)
    × Covers Small manager false manager.active manager.desired
        (build_unsubscribe_batches Small manager)
build_batches-Covers_example =
    build_batches-Covers Small manager manager-IsManager (omega arith) (omega arith)

acknowledge_settles_example :
    ((t : Text) → contains t (acknowledge manager).active ≡ contains t manager.desired)
    × ((acknowledge manager).desired ≡ manager.desired)
    × (build_subscribe_batches Small (acknowledge manager) ≡ [])
    × (build_unsubscribe_batches Small (acknowledge manager) ≡ [])
acknowledge_settles_example = acknowledge_settles Small manager

-- The same manager after its tables have been filled again.
abbrev rehashed : Manager
rehashed = record manager {
  desired = codes "8" ∷ codes "7" ∷ [];
  active = codes "9" ∷ codes "8" ∷ [];
}

manager-Alike : Alike manager rehashed
manager-Alike = record {
  left = manager-IsManager;
  right = record {
    desired = ground arith;
    active = ground arith;
    batch = omega arith;
    word = omega arith;
  };
  same_mode = refl;
  same_size = refl;
  same_formatter = refl;
  same_desired = λ t. ground arith;
  same_active = λ t. ground arith;
}

abbrev after : Manager → Manager
after m = call m (Call.adds (codes "5"))

one_call : (m : Manager) → Alike manager m → Run manager (Call.adds (codes "5") ∷ []) (after m)
one_call m a = calls (Call.adds (codes "5")) a (ends (after m))

runs_agree_example :
    SameSet (desired_snapshot (after manager)) (desired_snapshot (after rehashed))
    × SameSet (active_snapshot (after manager)) (active_snapshot (after rehashed))
    × (length (build_subscribe_batches Small (after manager))
        ≡ length (build_subscribe_batches Small (after rehashed)))
    × (length (build_unsubscribe_batches Small (after manager))
        ≡ length (build_unsubscribe_batches Small (after rehashed)))
    × SameSet
        (flatten (make_batches (after manager) (diff_desired_minus_active (after manager))))
        (flatten (make_batches (after rehashed) (diff_desired_minus_active (after rehashed))))
    × SameSet
        (flatten (make_batches (after manager) (diff_active_minus_desired (after manager))))
        (flatten (make_batches (after rehashed) (diff_active_minus_desired (after rehashed))))
unfolding call add
runs_agree_example =
    runs_agree Small (Call.adds (codes "5") ∷ []) manager-IsManager (unfold IsWordCall in (tt, tt))
      (one_call manager (Alike-refl manager-IsManager)) (one_call rehashed manager-Alike)
      (unfold insert in omega arith) (omega arith)
