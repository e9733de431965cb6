-- ===== src/Subscription/Sets.antt =====
-- The two sets of a manager: what every operation does to them, and that they stay sets.
use real_time_market_data.Base.{
  ℕ, ◌<◌, ◌≡◌, refl, ap, ◌∙◌, fun_ext, Bool, false, not, ◌&&◌, ◌||◌, List, [], ◌∷◌, Option, Text,
  text_eq, text_eq_iff, arith, if◌then◌else◌,
}
use real_time_market_data.Base.Map.{
  contains, insert, erase, contains-insert, contains-erase, IsDistinct, insert-IsDistinct,
  erase-IsDistinct,
}
use real_time_market_data.Base.Word.{word_mod}
use real_time_market_data.Batches.{effective}
use real_time_market_data.Subscription.{
  Manager, Mode, init, insert_all, erase_all, difference, add, add_many, remove, clear, set_mode,
  set_batch_size, set_token_formatter, mark_subscribed, mark_unsubscribed,
}

pub contains-insert_all :
    (t : Text) (ts set : List Text)
    → contains t (insert_all ts set) ≡ contains t ts || contains t set
unfolding insert_all
contains-insert_all t [] set = refl
contains-insert_all t (s ∷ ts) set =
    ground (arith, contains-insert_all t ts (insert s set), contains-insert t s set)

pub contains-erase_all :
    (t : Text) (ts set : List Text)
    → contains t (erase_all ts set) ≡ contains t set && not (contains t ts)
unfolding erase_all
contains-erase_all t [] set = ground arith
contains-erase_all t (s ∷ ts) set =
    ground (arith, contains-erase_all t ts (erase s set), contains-erase t s set)

pub contains-difference :
    (t : Text) (xs ys : List Text)
    → contains t (difference xs ys) ≡ contains t xs && not (contains t ys)
unfolding difference
contains-difference t [] ys = refl
contains-difference t (x ∷ xs) ys = ground (arith, contains-difference t xs ys, text_eq_iff x t)

insert_all-IsDistinct : (ts set : List Text) → IsDistinct set → IsDistinct (insert_all ts set)
unfolding insert_all
insert_all-IsDistinct [] set d = d
insert_all-IsDistinct (t ∷ ts) set d =
    insert_all-IsDistinct ts (insert t set) (insert-IsDistinct t set d)

erase_all-IsDistinct : (ts set : List Text) → IsDistinct set → IsDistinct (erase_all ts set)
unfolding erase_all
erase_all-IsDistinct [] set d = d
erase_all-IsDistinct (t ∷ ts) set d =
    erase_all-IsDistinct ts (erase t set) (erase-IsDistinct t set d)

pub difference-IsDistinct : (xs ys : List Text) → IsDistinct xs → IsDistinct (difference xs ys)
unfolding difference
difference-IsDistinct [] ys d = tt
difference-IsDistinct (x ∷ xs) ys d =
    ground (arith, difference-IsDistinct xs ys d.1, contains-difference x xs ys)

-- The lists are sets, and the batch size is a positive word.
pub record IsManager (m : Manager) : Type 0 where
  pub desired : IsDistinct m.desired
  pub active : IsDistinct m.active
  pub batch : 0 < m.batch_size
  pub word : m.batch_size < word_mod

-- The calls of a client.
pub data Call : Type 0 where
  adds removes : Text → Call
  adds_many marks unmarks : List Text → Call
  clears : Call
  sets_mode : Mode → Call
  sets_batch_size : ℕ → Call
  sets_formatter : Option (Text → Text) → Call

unfoldable pub call : Manager → Call → Manager
call m (Call.adds t) = add t m
call m (Call.removes t) = remove t m
call m (Call.adds_many ts) = add_many ts m
call m (Call.marks ts) = mark_subscribed ts m
call m (Call.unmarks ts) = mark_unsubscribed ts m
call m Call.clears = clear m
call m (Call.sets_mode mode) = set_mode mode m
call m (Call.sets_batch_size n) = set_batch_size n m
call m (Call.sets_formatter fmt) = set_token_formatter fmt m

unfoldable pub IsWordCall : Call → Type 0
IsWordCall (Call.sets_batch_size n) = n < word_mod
IsWordCall _ = Unit {0}

effective_fits : (n : ℕ) → n < word_mod → (0 < effective 100 n) × (effective 100 n < word_mod)
effective_fits n h = ground arith

-- A new manager is well formed.
init-IsManager :
    (mode : Mode) (n : ℕ) (fmt : Option (Text → Text)) → n < word_mod → IsManager (init mode n fmt)
unfolding init
init-IsManager mode n fmt h = record {
  desired = tt;
  active = tt;
  batch = (effective_fits n h).0;
  word = (effective_fits n h).1;
}

-- Every operation of a manager, with a batch size that fits a word where it sets one, keeps its sets
-- free of repetitions and its batch size a positive word.
pub call-IsManager : (m : Manager) (c : Call) → IsWordCall c → IsManager m → IsManager (call m c)
unfolding call IsWordCall add remove add_many clear set_mode set_batch_size set_token_formatter
    mark_subscribed mark_unsubscribed
call-IsManager m (Call.adds t) w h = ground (arith, insert-IsDistinct t m.desired)
call-IsManager m (Call.removes t) w h = ground (arith, erase-IsDistinct t m.desired)
call-IsManager m (Call.adds_many ts) w h = ground (arith, insert_all-IsDistinct ts m.desired)
call-IsManager m (Call.marks ts) w h = ground (arith, insert_all-IsDistinct ts m.active)
call-IsManager m (Call.unmarks ts) w h = ground (arith, erase_all-IsDistinct ts m.active)
call-IsManager m Call.clears w h = ground arith
call-IsManager m (Call.sets_mode mode) w h = ground arith
call-IsManager m (Call.sets_batch_size n) w h = ground (arith, effective_fits n w)
call-IsManager m (Call.sets_formatter fmt) w h = ground arith

-- The abstract view of the two sets: which texts are in. What each call makes of it.
pub wanted : Call → (Text → Bool) → Text → Bool
wanted (Call.adds t) was s = text_eq t s || was s
wanted (Call.removes t) was s = if text_eq t s then false else was s
wanted (Call.adds_many ts) was s = contains s ts || was s
wanted Call.clears was s = false
wanted _ was s = was s

pub acknowledged : Call → (Text → Bool) → Text → Bool
acknowledged (Call.marks ts) was s = contains s ts || was s
acknowledged (Call.unmarks ts) was s = was s && not (contains s ts)
acknowledged _ was s = was s

pub calls : Manager → List Call → Manager
calls m [] = m
calls m (c ∷ cs) = calls (call m c) cs

pub wanted_after : (Text → Bool) → List Call → Text → Bool
wanted_after was [] = was
wanted_after was (c ∷ cs) = wanted_after (wanted c was) cs

pub acknowledged_after : (Text → Bool) → List Call → Text → Bool
acknowledged_after was [] = was
acknowledged_after was (c ∷ cs) = acknowledged_after (acknowledged c was) cs

pub call-wanted :
    (m : Manager) (c : Call) (s : Text)
    → contains s (call m c).desired ≡ wanted c (λ t. contains t m.desired) s
unfolding call wanted add remove add_many clear set_mode set_batch_size set_token_formatter
    mark_subscribed mark_unsubscribed
call-wanted m (Call.adds t) s = contains-insert s t m.desired
call-wanted m (Call.removes t) s = contains-erase s t m.desired
call-wanted m (Call.adds_many ts) s = contains-insert_all s ts m.desired
call-wanted m _ s = refl

pub call-acknowledged :
    (m : Manager) (c : Call) (s : Text)
    → contains s (call m c).active ≡ acknowledged c (λ t. contains t m.active) s
unfolding call acknowledged add remove add_many clear set_mode set_batch_size set_token_formatter
    mark_subscribed mark_unsubscribed
call-acknowledged m (Call.marks ts) s = contains-insert_all s ts m.active
call-acknowledged m (Call.unmarks ts) s = contains-erase_all s ts m.active
call-acknowledged m _ s = refl

-- Any sequence of a manager's operations changes the membership of its desired and its active set as
-- the same sequence changes two abstract sets.
pub calls_refine :
    (cs : List Call) (m : Manager)
    → ((s : Text) → contains s (calls m cs).desired ≡ wanted_after (λ t. contains t m.desired) cs s)
      × ((s : Text)
          → contains s (calls m cs).active ≡ acknowledged_after (λ t. contains t m.active) cs s)
unfolding calls wanted_after acknowledged_after
calls_refine [] m = (λ s. refl, λ s. refl)
calls_refine (c ∷ cs) m =
    let (d, a) = calls_refine cs (call m c) in
    (
      λ s. d s ∙ ap (λ (f : Text → Bool). wanted_after f cs s) (fun_ext (call-wanted m c)),
      λ s.
          a s
          ∙ ap (λ (f : Text → Bool). acknowledged_after f cs s) (fun_ext (call-acknowledged m c)),
    )
