-- ===== src/Subscription/TokenSets.antt =====
-- Lists of tokens up to order and repetition, as what an unordered set of src/subscription_manager.cpp holds.
use mathlib.Core.Quot
use mathlib.Core.Quot.{Quot, Quot-set}
use real_time_market_data.Base.{
  ◌+◌, ◌≡◌, refl, sym, ap, ◌∙◌, Bool, true, false, List, [], ◌∷◌, Text, text_eq_iff, text_eq_refl,
  arith, length,
}
use real_time_market_data.Base.Map.{contains, erase, contains-erase, erase-IsDistinct, IsDistinct}
use real_time_market_data.Subscription.{difference}
use real_time_market_data.Subscription.Sets.{contains-difference}

abbrev pub SameTokens : List Text → List Text → Type 0
SameTokens xs ys = (t : Text) → contains t xs ≡ contains t ys

-- A list of tokens that has forgotten its order and its repetitions.
abbrev TokenSet : Type 0
TokenSet = Quot SameTokens

abbrev pub of_list : List Text → TokenSet
of_list = Quot.mk

is_in : Text → TokenSet → Bool
is_in t = Quot.lift (hlevel) (contains t) λ xs ys h. h t

-- Nothing but the order and the repetitions is forgotten.
pub exact : {xs ys : List Text} → of_list xs ≡ of_list ys → SameTokens xs ys
unfolding is_in
exact e t = ap (is_in t) e

-- Two lists that are one set, and that have each of its tokens once: they differ in their order only.
pub record SameSet (xs ys : List Text) : Type 0 where
  pub once : IsDistinct xs
  pub once' : IsDistinct ys
  pub same : of_list xs ≡ of_list ys

erase_missing : (t : Text) (xs : List Text) → contains t xs ≡ false → erase t xs ≡ xs
unfolding erase
erase_missing t [] h = refl
erase_missing t (x ∷ xs) h = ground (arith, erase_missing t xs)

length-erase :
    (t : Text) (xs : List Text)
    → IsDistinct xs
    → contains t xs ≡ true
    → length xs ≡ length (erase t xs) + 1
unfolding erase
length-erase t [] d h = cc
length-erase t (x ∷ xs) d h =
    ground (arith, text_eq_iff x t, erase_missing t xs, length-erase t xs d.1)

-- Without repetitions, as many texts.
pub length-SameTokens :
    (xs ys : List Text) → IsDistinct xs → IsDistinct ys → SameTokens xs ys → length xs ≡ length ys
length-SameTokens [] [] d e h = refl
length-SameTokens [] (y ∷ ys) d e h = ground (arith, h y, text_eq_refl y)
length-SameTokens (x ∷ xs) ys d e h =
    let there : contains x ys ≡ true = sym (h x) ∙ ground (arith, text_eq_refl x) in
    omega (
      arith,
      length-erase x ys e there,
      length-SameTokens xs (erase x ys) d.1 (erase-IsDistinct x ys e)
          (λ t. ground (arith, h t, contains-erase t x ys, text_eq_iff x t)),
    )

pub difference-SameTokens :
    (xs ys xs' ys' : List Text)
    → SameTokens xs xs'
    → SameTokens ys ys'
    → SameTokens (difference xs ys) (difference xs' ys')
difference-SameTokens xs ys xs' ys' h k t =
    ground (arith, contains-difference t xs ys, contains-difference t xs' ys', h t, k t)
