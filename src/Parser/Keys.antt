-- ===== src/Parser/Keys.antt =====
-- The search by keys: the first key in the list that is there with a usable value is the one read.
use real_time_market_data.Base.{
  ◌≡◌, refl, ap, ◌∙◌, inl, inr, ◌↔◌, true, false, Option, none, some, List, [], ◌∷◌, ◌++◌, Text,
  arith, All, or_else, Option-cases,
}
use real_time_market_data.Base.Int.{ℤ}
use real_time_market_data.Json.{Floats, JsonLib}
use real_time_market_data.Parser.{
  string_of, number_of, time_of, get_string_any, get_number_any, get_time_any,
}

module _ {F : Floats} (J : JsonLib F) where
  open J use {Value, contains, at}

  -- What a reader of values sees at one key.
  abbrev pub at_key {ℓ} : {A : Type ℓ} → (Value → Option A) → Value → Text → Option A
  at_key read j k = elim (contains j k) [ true ↦ read (at j k) | false ↦ none ]

  -- `a` is read at some key of the list, and at none of the keys before it.
  abbrev pub ReadFirst {ℓ} : {A : Type ℓ} → (Value → Option A) → Value → List Text → A → Type ℓ
  ReadFirst read j keys a =
      (before : List Text) × (k : Text) × (after : List Text) × (keys ≡ before ++ k ∷ after)
      × All (λ b. at_key read j b ≡ none) before
      × (at_key read j k ≡ some a)

  -- The three loops are one, for the three readers.
  unfoldable pub first_key {ℓ} : {A : Type ℓ} → (Value → Option A) → Value → List Text → Option A
  first_key read j [] = none
  first_key read j (k ∷ ks) = or_else (at_key read j k) (first_key read j ks)

  pub get_string_any-eq :
      (j : Value) (keys : List Text) → get_string_any J j keys ≡ first_key (string_of J) j keys
  unfolding first_key get_string_any
  get_string_any-eq j [] = refl
  get_string_any-eq j (k ∷ ks) = ground (arith, get_string_any-eq j ks)

  pub get_number_any-eq :
      (j : Value) (keys : List Text) → get_number_any J j keys ≡ first_key (number_of J) j keys
  unfolding first_key get_number_any
  get_number_any-eq j [] = refl
  get_number_any-eq j (k ∷ ks) = ground (arith, get_number_any-eq j ks)

  pub get_time_any-eq :
      (j : Value) (keys : List Text) → get_time_any J j keys ≡ first_key (time_of J) j keys
  unfolding first_key get_time_any
  get_time_any-eq j [] = refl
  get_time_any-eq j (k ∷ ks) = ground (arith, get_time_any-eq j ks)

  first_key-ReadFirst {ℓ} :
      {A : Type ℓ} (read : Value → Option A) (j : Value) (keys : List Text) (a : A)
      → first_key read j keys ≡ some a
      → ReadFirst read j keys a
  unfolding first_key
  first_key-ReadFirst read j [] a h = cc
  first_key-ReadFirst read j (k ∷ ks) a h = elim (Option-cases (at_key read j k)) [
    | inr (b, e) ↦ ([], k, ks, refl, tt, e ∙ (rw (e, or_else) at h))
    | inl e ↦
        let (before, k', after, split, unread, hit) =
          first_key-ReadFirst read j ks a (rw (e, or_else) at h) in
        (k ∷ before, k', after, ap (λ l. k ∷ l) split, (e, unread), hit)
  ]

  ReadFirst-first_key {ℓ} :
      {A : Type ℓ} (read : Value → Option A) (j : Value) (before : List Text) (k : Text)
      (after : List Text) (a : A)
      → All (λ b. at_key read j b ≡ none) before
      → at_key read j k ≡ some a
      → first_key read j (before ++ k ∷ after) ≡ some a
  unfolding first_key
  ReadFirst-first_key read j [] k after a unread hit = rw hit
  ReadFirst-first_key read j (b ∷ before) k after a unread hit =
      rw (unread.0) (ReadFirst-first_key read j before k after a unread.1 hit)

  pub first_key_iff {ℓ} :
      {A : Type ℓ} (read : Value → Option A) (j : Value) (keys : List Text) (a : A)
      → (first_key read j keys ≡ some a) ↔ ReadFirst read j keys a
  first_key_iff read j keys a = (
    first_key-ReadFirst read j keys a,
    λ r. rw (r.3) (ReadFirst-first_key read j r.0 r.1 r.2 a r.4 r.5),
  )

  -- Each of the three searches by keys gives a value exactly when the reader of its type gives that
  -- value at some key of the list that is there, and nothing at the keys before it.
  get_any_iff :
      (j : Value) (keys : List Text)
      → ((t : Text) → (get_string_any J j keys ≡ some t) ↔ ReadFirst (string_of J) j keys t)
        × ((x : F.Double) → (get_number_any J j keys ≡ some x) ↔ ReadFirst (number_of J) j keys x)
        × ((n : ℤ) → (get_time_any J j keys ≡ some n) ↔ ReadFirst (time_of J) j keys n)
  get_any_iff j keys = (
    λ t. rw (get_string_any-eq j keys) (first_key_iff (string_of J) j keys t),
    λ x. rw (get_number_any-eq j keys) (first_key_iff (number_of J) j keys x),
    λ n. rw (get_time_any-eq j keys) (first_key_iff (time_of J) j keys n),
  )
