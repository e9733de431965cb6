-- ===== src/Subscription/Order.antt =====
-- The unordered sets of src/subscription_manager.cpp: a hash table may iterate in any order, and in another
-- one after each change. What a manager holds is then a list of tokens without repetitions, up to its order.
use mathlib.Core.Quot
use mathlib.Core.Quot.{Quot, Quot-set}
use real_time_market_data.Base.{
  ◌^◌, ◌<◌, ◌≡◌, refl, sym, ap, ◌∙◌, fun_ext, Bool, true, false, List, [], ◌∷◌, All, Text, arith,
  length, length-map, flatten,
}
use real_time_market_data.Base.Map.{IsDistinct}
use real_time_market_data.Json.{Floats, JsonLib}
use real_time_market_data.Subscription.{
  Manager, difference, make_batches, diff_desired_minus_active, diff_active_minus_desired,
  build_subscribe_batches, build_unsubscribe_batches, add, remove, add_many, clear, set_mode,
  set_batch_size, set_token_formatter, mark_subscribed, mark_unsubscribed, desired_snapshot,
  active_snapshot, build_payload, payloads,
}
use real_time_market_data.Subscription.Payloads.{length-difference, make_batches-Cuts, payloads-map}
use real_time_market_data.Subscription.Sets.{
  IsManager, Call, call, IsWordCall, call-IsManager, call-wanted, call-acknowledged, wanted,
  acknowledged, difference-IsDistinct,
}
use real_time_market_data.Subscription.TokenSets.{
  SameTokens, SameSet, length-SameTokens, difference-SameTokens,
}

-- Two managers that differ in the order of their sets.
pub record Alike (m n : Manager) : Type 0 where
  pub left : IsManager m
  pub right : IsManager n
  pub same_mode : m.mode ≡ n.mode
  pub same_size : m.batch_size ≡ n.batch_size
  pub same_formatter : m.token_formatter ≡ n.token_formatter
  pub same_desired : SameTokens m.desired n.desired
  pub same_active : SameTokens m.active n.active

-- A run of calls before each of which the sets may take on any order.
pub data Run : Manager → List Call → Manager → Type 0 where
  ends : (m : Manager) → Run m [] m
  calls :
      {m m' n : Manager} (c : Call) {cs : List Call}
      → Alike m m'
      → Run (call m' c) cs n
      → Run m (c ∷ cs) n

Alike-trans : {l m n : Manager} → Alike l m → Alike m n → Alike l n
Alike-trans a b = record {
  left = a.left;
  right = b.right;
  same_mode = a.same_mode ∙ b.same_mode;
  same_size = a.same_size ∙ b.same_size;
  same_formatter = a.same_formatter ∙ b.same_formatter;
  same_desired = λ t. a.same_desired t ∙ b.same_desired t;
  same_active = λ t. a.same_active t ∙ b.same_active t;
}

Alike-sym : {m n : Manager} → Alike m n → Alike n m
Alike-sym a = record {
  left = a.right;
  right = a.left;
  same_mode = sym a.same_mode;
  same_size = sym a.same_size;
  same_formatter = sym a.same_formatter;
  same_desired = λ t. sym (a.same_desired t);
  same_active = λ t. sym (a.same_active t);
}

pub Alike-refl : {m : Manager} → IsManager m → Alike m m
Alike-refl h = record {
  left = h;
  right = h;
  same_mode = refl;
  same_size = refl;
  same_formatter = refl;
  same_desired = λ t. refl;
  same_active = λ t. refl;
}

call-options :
    (m n : Manager) (c : Call)
    → Alike m n
    → ((call m c).mode ≡ (call n c).mode)
      × ((call m c).batch_size ≡ (call n c).batch_size)
      × ((call m c).token_formatter ≡ (call n c).token_formatter)
unfolding call add remove add_many clear set_mode set_batch_size set_token_formatter mark_subscribed
    mark_unsubscribed
call-options m n (Call.sets_mode mode) a = (refl, a.same_size, a.same_formatter)
call-options m n (Call.sets_batch_size k) a = (a.same_mode, refl, a.same_formatter)
call-options m n (Call.sets_formatter fmt) a = (a.same_mode, a.same_size, refl)
call-options m n _ a = (a.same_mode, a.same_size, a.same_formatter)

call-Alike : (m n : Manager) (c : Call) → IsWordCall c → Alike m n → Alike (call m c) (call n c)
call-Alike m n c w a =
    let (mode, size, formatter) = call-options m n c a in
    record {
      left = call-IsManager m c w a.left;
      right = call-IsManager n c w a.right;
      same_mode = mode;
      same_size = size;
      same_formatter = formatter;
      same_desired = λ t.
          call-wanted m c t
          ∙ ap (λ (f : Text → Bool). wanted c f t) (fun_ext a.same_desired)
          ∙ sym (call-wanted n c t);
      same_active = λ t.
          call-acknowledged m c t
          ∙ ap (λ (f : Text → Bool). acknowledged c f t) (fun_ext a.same_active)
          ∙ sym (call-acknowledged n c t);
    }

-- Whatever the orders were, the ends of two runs of the same calls are alike.
runs-Alike :
    (cs : List Call) {m n m' n' : Manager}
    → All IsWordCall cs
    → Alike m n
    → Run m cs m'
    → Run n cs n'
    → Alike m' n'
runs-Alike [] w a (ends m) (ends n) = a
runs-Alike (c ∷ cs) w a (calls {m' = m} _ b r) (calls {m' = n} _ d s) =
    runs-Alike cs w.1 (call-Alike m n c w.0 (Alike-trans (Alike-sym b) (Alike-trans a d))) r s

-- What is left to send: as many batches, and the same tokens in them.
record SameNeed (m n : Manager) (need need' : List Text) : Type 0 where
  pub as_many : length (make_batches m need) ≡ length (make_batches n need')
  pub same_tokens : SameSet (flatten (make_batches m need)) (flatten (make_batches n need'))

difference-SameNeed :
    (m n : Manager) (xs ys xs' ys' : List Text)
    → Alike m n
    → IsDistinct xs
    → IsDistinct xs'
    → SameTokens xs xs'
    → SameTokens ys ys'
    → length xs < 2 ^ 63
    → SameNeed m n (difference xs ys) (difference xs' ys')
difference-SameNeed m n xs ys xs' ys' a d e h k small =
    let same = difference-SameTokens xs ys xs' ys' h k in
    let as_long : length (difference xs' ys') ≡ length (difference xs ys) = sym (
      length-SameTokens (difference xs ys) (difference xs' ys') (difference-IsDistinct xs ys d)
        (difference-IsDistinct xs' ys' e) same) in
    let left =
      make_batches-Cuts m (difference xs ys) a.left (omega (arith, length-difference xs ys)) in
    let right =
      make_batches-Cuts n (difference xs' ys') a.right
        (omega (arith, length-difference xs ys, as_long)) in
    record {
      as_many = left.count ∙ sym (right.count ∙ rw (as_long, ← a.same_size) refl);
      same_tokens =
          rw (left.together, right.together)
            (record {
              once = difference-IsDistinct xs ys d;
              once' = difference-IsDistinct xs' ys' e;
              same = Quot.sound same;
            });
    }

module _ {F : Floats} (J : JsonLib F) where
  length-payloads :
      (m : Manager) (subscribe : Bool) (batches : List (List Text))
      → length (payloads J m subscribe batches) ≡ length batches
  length-payloads m subscribe batches =
      ap length (payloads-map J m subscribe batches)
      ∙ length-map batches (λ batch. build_payload J m batch subscribe)

  -- However the two sets of a well-formed manager iterate, and however each call reorders them: two
  -- runs of the same calls, with batch sizes that fit a word and fewer than 2 ^ 63 tokens in each
  -- set at the end of the first, end with the same desired and the same active tokens, with as many
  -- payloads to subscribe and as many to unsubscribe, and with the same tokens in all batches of
  -- each together; every one of these lists has each token once, so that the two runs differ in the
  -- order only.
  pub runs_agree :
      (cs : List Call) {m a b : Manager}
      → IsManager m
      → All IsWordCall cs
      → Run m cs a
      → Run m cs b
      → length a.desired < 2 ^ 63
      → length a.active < 2 ^ 63
      → SameSet (desired_snapshot a) (desired_snapshot b)
        × SameSet (active_snapshot a) (active_snapshot b)
        × (length (build_subscribe_batches J a) ≡ length (build_subscribe_batches J b))
        × (length (build_unsubscribe_batches J a) ≡ length (build_unsubscribe_batches J b))
        × SameSet
            (flatten (make_batches a (diff_desired_minus_active a)))
            (flatten (make_batches b (diff_desired_minus_active b)))
        × SameSet
            (flatten (make_batches a (diff_active_minus_desired a)))
            (flatten (make_batches b (diff_active_minus_desired b)))
  unfolding desired_snapshot active_snapshot build_subscribe_batches build_unsubscribe_batches
      diff_desired_minus_active diff_active_minus_desired
  runs_agree cs {a = a} {b = b} h w r s d e =
      let k = runs-Alike cs w (Alike-refl h) r s in
      let up =
        difference-SameNeed a b a.desired a.active b.desired b.active k k.left.desired
          k.right.desired k.same_desired k.same_active d in
      let down =
        difference-SameNeed a b a.active a.desired b.active b.desired k k.left.active k.right.active
          k.same_active k.same_desired e in
      (
        record { once = k.left.desired; once' = k.right.desired; same = Quot.sound k.same_desired },
        record { once = k.left.active; once' = k.right.active; same = Quot.sound k.same_active },
        length-payloads a true _ ∙ up.as_many ∙ sym (length-payloads b true _),
        length-payloads a false _ ∙ down.as_many ∙ sym (length-payloads b false _),
        up.same_tokens,
        down.same_tokens,
      )
