-- ===== src/Subscription/Payloads.antt =====
-- The payloads: they name each token of the gap once, in batches of the configured size, and once
-- they are acknowledged nothing is left to send.
use real_time_market_data.Base.{
  ℕ, ◌^◌, ◌<◌, ◌≤◌, ◌≡◌, refl, ap, subst, Bool, true, false, not, ◌&&◌, List, [], ◌∷◌, Text,
  text_eq_refl, arith, length, map,
}
use real_time_market_data.Base.Map.{contains, IsDistinct}
use real_time_market_data.Batches.{cut, effective}
use real_time_market_data.Batches.Pieces.{Cuts, cut-Cuts}
use real_time_market_data.Json.{Floats, JsonLib}
use real_time_market_data.Subscription.{
  Manager, insert_all, difference, mark_subscribed, mark_unsubscribed, diff_desired_minus_active,
  diff_active_minus_desired, make_batches, build_payload, payloads, build_subscribe_batches,
  build_unsubscribe_batches,
}
use real_time_market_data.Subscription.Sets.{
  IsManager, contains-insert_all, contains-erase_all, contains-difference, difference-IsDistinct,
}

pub length-difference : (xs ys : List Text) → length (difference xs ys) ≤ length xs
unfolding difference
length-difference [] ys = omega arith
length-difference (x ∷ xs) ys = ground (arith, length-difference xs ys)

difference-nil :
    (xs ys : List Text)
    → ((t : Text) → contains t xs ≡ true → contains t ys ≡ true)
    → difference xs ys ≡ []
unfolding difference
difference-nil [] ys h = refl
difference-nil (x ∷ xs) ys h =
    rw (h x (ground (arith, text_eq_refl x))) (difference-nil xs ys (λ t e. h t (ground arith)))

pub make_batches-Cuts :
    (m : Manager) (items : List Text)
    → IsManager m
    → length items < 2 ^ 63
    → Cuts items m.batch_size (make_batches m items)
unfolding make_batches
make_batches-Cuts m items h small =
    let e : effective 100 m.batch_size ≡ m.batch_size = ground (arith, h.batch) in
    subst (λ (n : ℕ). Cuts items n (cut 100 items m.batch_size)) e
      (cut-Cuts 100 items m.batch_size (omega arith) (omega arith) h.word small)

-- The manager after the server has acknowledged everything that was sent.
pub acknowledge : Manager → Manager
acknowledge m =
    mark_unsubscribed (diff_active_minus_desired m)
      (mark_subscribed (diff_desired_minus_active m) m)

module _ {F : Floats} (J : JsonLib F) where
  pub payloads-map :
      (m : Manager) (subscribe : Bool) (batches : List (List Text))
      → payloads J m subscribe batches ≡ map (λ batch. build_payload J m batch subscribe) batches
  unfolding payloads
  payloads-map m subscribe [] = refl
  payloads-map m subscribe (b ∷ batches) =
      ap (λ r. build_payload J m b subscribe ∷ r) (payloads-map m subscribe batches)

  -- A list of payloads is one for each batch, and the batches cut up `need`, which lists each text of
  -- `xs` that is not in `ys` once.
  pub record Covers (m : Manager) (subscribe : Bool) (xs ys : List Text) (sent : List Text)
      : Type 0 where
    pub need : List Text
    pub batches : List (List Text)
    pub same : sent ≡ map (λ batch. build_payload J m batch subscribe) batches
    pub cuts : Cuts need m.batch_size batches
    pub exact : (t : Text) → contains t need ≡ contains t xs && not (contains t ys)
    pub once : IsDistinct need

  -- For a well-formed manager with fewer than 2 ^ 63 tokens in each set: the subscribe payloads are
  -- one for each batch, the batches cut a list that has each desired token that is not active once
  -- and nothing else into pieces of at most the batch size, and the unsubscribe payloads are the
  -- same for the active tokens that are not desired.
  pub build_batches-Covers :
      (m : Manager)
      → IsManager m
      → length m.desired < 2 ^ 63
      → length m.active < 2 ^ 63
      → Covers m true m.desired m.active (build_subscribe_batches J m)
        × Covers m false m.active m.desired (build_unsubscribe_batches J m)
  unfolding build_subscribe_batches build_unsubscribe_batches diff_desired_minus_active
      diff_active_minus_desired
  build_batches-Covers m h d a =
      (covers true m.desired m.active h.desired d, covers false m.active m.desired h.active a)
    where
      covers :
          (subscribe : Bool) (xs ys : List Text)
          → IsDistinct xs
          → length xs < 2 ^ 63
          → Covers m subscribe xs ys (payloads J m subscribe (make_batches m (difference xs ys)))
      covers subscribe xs ys once small = record {
        need = difference xs ys;
        batches = make_batches m (difference xs ys);
        same = payloads-map m subscribe (make_batches m (difference xs ys));
        cuts = make_batches-Cuts m (difference xs ys) h (omega (arith, length-difference xs ys));
        exact = λ t. contains-difference t xs ys;
        once = difference-IsDistinct xs ys once;
      }

  -- Once all that the two differences name is marked as subscribed and as unsubscribed, the active
  -- tokens are the desired ones, the desired ones are as before, and there is no payload left in
  -- either direction.
  pub acknowledge_settles :
      (m : Manager)
      → ((t : Text) → contains t (acknowledge m).active ≡ contains t m.desired)
        × ((acknowledge m).desired ≡ m.desired)
        × (build_subscribe_batches J (acknowledge m) ≡ [])
        × (build_unsubscribe_batches J (acknowledge m) ≡ [])
  unfolding acknowledge build_subscribe_batches build_unsubscribe_batches diff_desired_minus_active
      diff_active_minus_desired mark_subscribed mark_unsubscribed
  acknowledge_settles m = (
    settled,
    refl,
    nothing true m.desired (acknowledge m).active (λ t e. rw settled e),
    nothing false (acknowledge m).active m.desired (λ t e. rw settled at e),
  )
    where
      settled : (t : Text) → contains t (acknowledge m).active ≡ contains t m.desired
      settled t = ground (
        arith,
        contains-erase_all t (difference m.active m.desired)
            (insert_all (difference m.desired m.active) m.active),
        contains-insert_all t (difference m.desired m.active) m.active,
        contains-difference t m.desired m.active,
        contains-difference t m.active m.desired,
      )

      nothing :
          (subscribe : Bool) (xs ys : List Text)
          → ((t : Text) → contains t xs ≡ true → contains t ys ≡ true)
          → payloads J (acknowledge m) subscribe (make_batches (acknowledge m) (difference xs ys))
            ≡ []
      nothing subscribe xs ys h = rw (difference-nil xs ys h) (unfold make_batches payloads in refl)
