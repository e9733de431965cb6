-- ===== src/Base/Map.antt =====
-- `std::unordered_map` and `std::map` with text keys, as association lists.
-- Lookups are by the first entry of a key; an unordered map keeps its entries in any order, an
-- ordered one by the bytes of the keys.
use mathlib.Core.Path.{◌≡◌, refl}
use mathlib.Core.Bool.{Bool, true, false, ◌||◌}
use mathlib.Core.List.{List, [], ◌∷◌, ◌++◌}
use mathlib.Core.Option.{Option, none, some}
use native.Mathlib.Omega.{arith}
use real_time_market_data.Base.Tests.{ltb, ◌==◌, if◌then◌else◌}
use real_time_market_data.Base.Strings.{Text, text_eq, text_eq_iff}

-- operator< of std::string
abbrev text_lt : Text → Text → Bool
text_lt s [] = false
text_lt [] (_ ∷ _) = true
text_lt (a ∷ s) (b ∷ t) = if a == b then text_lt s t else ltb a b

-- `count` of a set of texts.
abbrev pub contains : Text → List Text → Bool
contains t [] = false
contains t (s ∷ xs) = text_eq s t || contains t xs

-- `insert` of an unordered set: nothing changes if the text is there.
unfoldable pub insert : Text → List Text → List Text
insert t xs = if contains t xs then xs else xs ++ t ∷ []

-- `erase` of a set
unfoldable pub erase : Text → List Text → List Text
erase t [] = []
erase t (s ∷ xs) = if text_eq s t then erase t xs else s ∷ erase t xs

contains-append :
    (t : Text) (xs ys : List Text) → contains t (xs ++ ys) ≡ contains t xs || contains t ys
contains-append t [] ys = refl
contains-append t (s ∷ xs) ys = ground (arith, contains-append t xs ys)

pub contains-insert :
    (t s : Text) (xs : List Text) → contains t (insert s xs) ≡ text_eq s t || contains t xs
unfolding insert
contains-insert t s xs = ground (arith, contains-append t xs (s ∷ []), text_eq_iff s t)

pub contains-erase :
    (t s : Text) (xs : List Text)
    → contains t (erase s xs) ≡ (if text_eq s t then false else contains t xs)
unfolding erase
contains-erase t s [] = ground arith
contains-erase t s (x ∷ xs) =
    ground (arith, contains-erase t s xs, text_eq_iff x s, text_eq_iff x t, text_eq_iff s t)

-- No text twice.
abbrev pub IsDistinct : List Text → Type 0
IsDistinct [] = Unit {0}
IsDistinct (t ∷ xs) = (contains t xs ≡ false) × IsDistinct xs

IsDistinct-snoc :
    (t : Text) (xs : List Text) → contains t xs ≡ false → IsDistinct xs → IsDistinct (xs ++ t ∷ [])
IsDistinct-snoc t [] h d = (refl, tt)
IsDistinct-snoc t (x ∷ xs) h d = (
  ground (arith, contains-append x xs (t ∷ []), text_eq_iff x t, text_eq_iff t x),
  IsDistinct-snoc t xs (ground arith) d.1,
)

pub insert-IsDistinct : (t : Text) (xs : List Text) → IsDistinct xs → IsDistinct (insert t xs)
unfolding insert
insert-IsDistinct t xs d = ground (arith, IsDistinct-snoc t xs)

pub erase-IsDistinct : (t : Text) (xs : List Text) → IsDistinct xs → IsDistinct (erase t xs)
unfolding erase
erase-IsDistinct t [] d = tt
erase-IsDistinct t (x ∷ xs) d =
    ground (arith, erase-IsDistinct t xs, contains-erase x t xs, text_eq_iff x t)

module _ {ℓ} {V : Type ℓ} where
  abbrev pub lookup : Text → List (Text × V) → Option V
  lookup k [] = none
  lookup k ((j, v) ∷ m) = if text_eq j k then some v else lookup k m

  -- `m[k] = v` of an unordered map
  unfoldable pub upsert : Text → V → List (Text × V) → List (Text × V)
  upsert k v [] = (k, v) ∷ []
  upsert k v ((j, w) ∷ m) = if text_eq j k then (j, v) ∷ m else (j, w) ∷ upsert k v m

  -- `m[k] = v` of an ordered map
  unfoldable pub put : Text → V → List (Text × V) → List (Text × V)
  put k v [] = (k, v) ∷ []
  put k v ((j, w) ∷ m) =
      if text_eq j k
      then (j, v) ∷ m
      else if text_lt k j
      then (k, v) ∷ (j, w) ∷ m
      else (j, w) ∷ put k v m

  unfoldable pub remove : Text → List (Text × V) → List (Text × V)
  remove k [] = []
  remove k ((j, w) ∷ m) = if text_eq j k then remove k m else (j, w) ∷ remove k m

  abbrev pub keys : List (Text × V) → List Text
  keys [] = []
  keys ((k, v) ∷ m) = k ∷ keys m

  pub lookup-upsert :
      (k j : Text) (v : V) (m : List (Text × V))
      → lookup j (upsert k v m) ≡ (if text_eq k j then some v else lookup j m)
  unfolding upsert
  lookup-upsert k j v [] = refl
  lookup-upsert k j v ((i, w) ∷ m) =
      ground (arith, text_eq_iff k j, text_eq_iff i k, text_eq_iff i j, lookup-upsert k j v m)

  pub lookup-put :
      (k j : Text) (v : V) (m : List (Text × V))
      → lookup j (put k v m) ≡ (if text_eq k j then some v else lookup j m)
  unfolding put
  lookup-put k j v [] = refl
  lookup-put k j v ((i, w) ∷ m) =
      ground (arith, text_eq_iff k j, text_eq_iff i k, text_eq_iff i j, lookup-put k j v m)

  lookup-remove :
      (k j : Text) (m : List (Text × V))
      → lookup j (remove k m) ≡ (if text_eq k j then none else lookup j m)
  unfolding remove
  lookup-remove k j [] = ground arith
  lookup-remove k j ((i, w) ∷ m) =
      ground (arith, text_eq_iff k j, text_eq_iff i k, text_eq_iff i j, lookup-remove k j m)

  pub keys-upsert :
      (k : Text) (v : V) (m : List (Text × V)) → keys (upsert k v m) ≡ insert k (keys m)
  unfolding upsert insert
  keys-upsert k v [] = refl
  keys-upsert k v ((j, w) ∷ m) = ground (arith, keys-upsert k v m)
