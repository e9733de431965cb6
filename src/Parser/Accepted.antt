-- ===== src/Parser/Accepted.antt =====
-- Which frames parse_ltp of src/parser.cpp accepts, and what it reads in them, by the types of the JSON
-- values and the order of the keys.
use real_time_market_data.Base.{
  ◌≡◌, refl, sym, ap, ◌∙◌, inl, inr, ◌↔◌, ◌⊎◌, ◌||◌, true, false, Option, none, some, some_inj,
  subst, Option-cases, Bool-cases, or_else, List, [], ◌∷◌, ◌++◌, Text, arith, All,
}
use real_time_market_data.Base.Int.{ℤ, pos, stoll}
use real_time_market_data.Json.{Floats, JsonLib}
use real_time_market_data.Parser.{
  Parser, TimePoint, Ltp, to_timepoint, normalize, token_keys, price_keys, ts_keys, string_of,
  number_of, time_of, get_string_any, get_number_any, get_time_any, read_frame, parse_ltp,
}
use real_time_market_data.Parser.Keys.{
  at_key, first_key, first_key_iff, get_string_any-eq, get_number_any-eq, get_time_any-eq,
}
use real_time_market_data.Parser.Frame.{frame_of}

module _ {F : Floats} (J : JsonLib F) where
  open F use {Double, of_integer, to_integer, stod}
  open J use {
    Value, parse, is_string, is_number_integer, is_number_float, contains, at, get_string,
    get_integer, get_double, dump,
  }

  -- A token is a string, or a number as it is written.
  abbrev pub IsToken : Value → Text → Type 0
  IsToken v t =
      ((is_string v ≡ true) × (t ≡ get_string v))
      ⊎ ((is_string v ≡ false) × (is_number_integer v || is_number_float v ≡ true) × (t ≡ dump v))

  -- A price is a number, or a string that std::stod reads.
  abbrev pub IsPrice : Value → Double → Type 0
  IsPrice v x =
      ((is_number_float v ≡ true) × (x ≡ get_double v))
      ⊎ ((is_number_float v ≡ false)
          × (is_number_integer v ≡ true)
          × (x ≡ of_integer (get_integer v)))
      ⊎ ((is_number_float v ≡ false)
          × (is_number_integer v ≡ false)
          × (is_string v ≡ true)
          × (stod (get_string v) ≡ some x))

  -- A time is an integer, a float cut to one, or a string that std::stoll reads.
  abbrev pub IsTime : Value → ℤ → Type 0
  IsTime v n =
      ((is_number_integer v ≡ true) × (n ≡ get_integer v))
      ⊎ ((is_number_integer v ≡ false)
          × (is_number_float v ≡ true)
          × (n ≡ to_integer (get_double v)))
      ⊎ ((is_number_integer v ≡ false)
          × (is_number_float v ≡ false)
          × (is_string v ≡ true)
          × (stoll (get_string v) ≡ some n))

  string_of-IsToken : (v : Value) (t : Text) → (string_of J v ≡ some t) ↔ IsToken v t
  unfolding string_of
  string_of-IsToken v t = (λ h. ground arith, λ h. ground arith)

  number_of-IsPrice : (v : Value) (x : Double) → (number_of J v ≡ some x) ↔ IsPrice v x
  unfolding number_of
  number_of-IsPrice v x = (λ h. ground arith, λ h. ground arith)

  time_of-IsTime : (v : Value) (n : ℤ) → (time_of J v ≡ some n) ↔ IsTime v n
  unfolding time_of
  time_of-IsTime v n = (λ h. ground arith, λ h. ground arith)

  module _ {A : Type 0} (Is : Value → A → Type 0) where
    -- Nothing of the kind stands under the key.
    abbrev pub Lacks : Value → Text → Type 0
    Lacks j k = contains j k ≡ true → (a : A) → Is (at j k) a → ⊥

    -- The value stands under one of the keys, and nothing of the kind under those before it.
    abbrev pub First : Value → List Text → A → Type 0
    First j keys a =
        (before : List Text) × (k : Text) × (after : List Text) × (keys ≡ before ++ k ∷ after)
        × All (Lacks j) before
        × (contains j k ≡ true)
        × Is (at j k) a

    module _ (read : Value → Option A) (reads : (v : Value) (a : A) → (read v ≡ some a) ↔ Is v a)
        (j : Value) where
      at_key-Lacks : (k : Text) → (at_key J read j k ≡ none) ↔ Lacks j k
      at_key-Lacks k = elim (Bool-cases (contains j k)) [
        | inr off ↦ (λ h on. absurd (cc (off, on)), λ h. rw (off, at_key) refl)
        | inl on ↦ elim (Option-cases (read (at j k))) [
          | inl e ↦ (λ h _ a r. absurd (cc (e, (reads (at j k) a).1 r)), λ h. rw (on, at_key) e)
          | inr (a, e) ↦ (
            λ h. absurd (cc (rw (on, at_key) at h, e)),
            λ h. absurd (h on a ((reads (at j k) a).0 e)),
          )
        ]
      ]

      at_key-Is :
          (k : Text) (a : A)
          → (at_key J read j k ≡ some a) ↔ ((contains j k ≡ true) × Is (at j k) a)
      at_key-Is k a = elim (Bool-cases (contains j k)) [
        | inr off ↦ (λ h. absurd (cc (rw (off, at_key) at h)), λ (on, r). absurd (cc (off, on)))
        | inl on ↦ (
          λ h. (on, (reads (at j k) a).0 (rw (on, at_key) at h)),
          λ (_, r). rw (on, at_key) ((reads (at j k) a).1 r),
        )
      ]

      All-Lacks : (ks : List Text) → All (λ k. at_key J read j k ≡ none) ks ↔ All (Lacks j) ks
      All-Lacks [] = (λ h. tt, λ h. tt)
      All-Lacks (k ∷ ks) = (
        λ h. ((at_key-Lacks k).0 h.0, (All-Lacks ks).0 h.1),
        λ h. ((at_key-Lacks k).1 h.0, (All-Lacks ks).1 h.1),
      )

      first_key-First :
          (keys : List Text) (a : A) → (first_key J read j keys ≡ some a) ↔ First j keys a
      first_key-First keys a =
          let reading = first_key_iff J read j keys a in
          (
            λ h.
                let (before, k, after, split, unread, hit) = reading.0 h in
                (
                  before,
                  k,
                  after,
                  split,
                  (All-Lacks before).0 unread,
                  ((at_key-Is k a).0 hit).0,
                  ((at_key-Is k a).0 hit).1,
                ),
            λ (before, k, after, split, lacks, on, hit).
                reading.1 (
                  before,
                  k,
                  after,
                  split,
                  (All-Lacks before).1 lacks,
                  (at_key-Is k a).1 (on, hit),
                ),
          )

      first_key-none : (ks : List Text) → (first_key J read j ks ≡ none) ↔ All (Lacks j) ks
      unfolding first_key
      first_key-none [] = (λ h. tt, λ h. refl)
      first_key-none (k ∷ ks) = elim (Option-cases (at_key J read j k)) [
        | inl e ↦ (
          λ h. ((at_key-Lacks k).0 e, (first_key-none ks).0 (rw (e, or_else) at h)),
          λ h. rw (e, or_else) ((first_key-none ks).1 h.1),
        )
        | inr (a, e) ↦
            (λ h. absurd (cc (rw (e, or_else) at h)), λ h. absurd (cc (e, (at_key-Lacks k).1 h.0)))
      ]

  -- The time of the first usable key, or the epoch.
  abbrev pub IsStamp : Value → TimePoint → Type 0
  IsStamp j ts =
      ((n : ℤ) × First IsTime j ts_keys n × (ts ≡ to_timepoint n))
      ⊎ (All (Lacks IsTime j) ts_keys × (ts ≡ record { ms = pos 0 }))

  -- What is read in a frame.
  pub record Reads (parser : Parser) (j : Value) (q : Ltp F) : Type 0 where
    pub token : Text
    pub has_token : First IsToken j token_keys token
    pub normal : q.token ≡ normalize parser token
    pub price : First IsPrice j price_keys q.ltp
    pub stamp : IsStamp j q.ts

  abbrev stamp : Option ℤ → TimePoint
  stamp (some raw) = to_timepoint raw
  stamp none = record { ms = pos 0 }

  stamp-IsStamp : (j : Value) → IsStamp j (stamp (get_time_any J j ts_keys))
  stamp-IsStamp j = elim (Option-cases (first_key J (time_of J) j ts_keys)) [
    | inl e ↦ inr (
      (first_key-none IsTime (time_of J) time_of-IsTime j ts_keys).0 e,
      ap stamp (get_time_any-eq J j ts_keys ∙ e),
    )
    | inr (n, e) ↦ inl (
      n,
      (first_key-First IsTime (time_of J) time_of-IsTime j ts_keys n).0 e,
      ap stamp (get_time_any-eq J j ts_keys ∙ e),
    )
  ]

  IsStamp-stamp :
      (j : Value) (ts : TimePoint) → IsStamp j ts → ts ≡ stamp (get_time_any J j ts_keys)
  IsStamp-stamp j ts (inl (n, r, e)) =
      e
      ∙ sym (
          ap stamp (
            get_time_any-eq J j ts_keys
            ∙ (first_key-First IsTime (time_of J) time_of-IsTime j ts_keys n).1 r))
  IsStamp-stamp j ts (inr (lacks, e)) =
      e
      ∙ sym (
          ap stamp (
            get_time_any-eq J j ts_keys
            ∙ (first_key-none IsTime (time_of J) time_of-IsTime j ts_keys).1 lacks))

  get_string_any-First :
      (j : Value) (t : Text)
      → (get_string_any J j token_keys ≡ some t) ↔ First IsToken j token_keys t
  get_string_any-First j t =
      rw (get_string_any-eq J j token_keys)
        (first_key-First IsToken (string_of J) string_of-IsToken j token_keys t)

  get_number_any-First :
      (j : Value) (x : Double)
      → (get_number_any J j price_keys ≡ some x) ↔ First IsPrice j price_keys x
  get_number_any-First j x =
      rw (get_number_any-eq J j price_keys)
        (first_key-First IsPrice (number_of J) number_of-IsPrice j price_keys x)

  read_frame-Reads :
      (parser : Parser) (j : Value) (q : Ltp F) → read_frame J parser j ≡ some q → Reads parser j q
  unfolding read_frame
  read_frame-Reads parser j q h = elim (Option-cases (get_string_any J j token_keys)) [
    | inl e ↦ absurd (cc (rw e at h))
    | inr (t, e) ↦ elim (Option-cases (get_number_any J j price_keys)) [
      | inl e' ↦ absurd (cc (rw (e, e') at h))
      | inr (x, e') ↦
          let read : record {
            token = normalize parser t;
            ltp = x;
            ts = stamp (get_time_any J j ts_keys);
          }
              ≡ q =
            some_inj (rw (e, e') at h) in
          subst (Reads parser j) read (record {
            token = t;
            has_token = (get_string_any-First j t).0 e;
            normal = refl;
            price = (get_number_any-First j x).0 e';
            stamp = stamp-IsStamp j;
          })
    ]
  ]

  Reads-read_frame :
      (parser : Parser) (j : Value) (q : Ltp F) → Reads parser j q → read_frame J parser j ≡ some q
  unfolding read_frame
  Reads-read_frame parser j q r =
      rw ((get_string_any-First j r.token).1 r.has_token, (get_number_any-First j q.ltp).1 r.price)
        (ap some (rw (r.normal, IsStamp-stamp j q.ts r.stamp) refl))

  -- A frame is accepted with a price exactly when it is JSON and, in the value that it unwraps to:
  -- the token, which is normalised, stands under the first of the token keys that holds a string or
  -- a number; the price under the first of the price keys that holds a number or a string that
  -- std::stod reads; and the time is that of the first of the time keys that holds a number or a
  -- string that std::stoll reads, or the epoch where there is none, as a count of milliseconds
  -- without bound.
  pub parse_ltp_iff :
      (parser : Parser) (text : Text) (q : Ltp F)
      → (parse_ltp J parser text ≡ some q)
        ↔ ((j : Value) × (parse text ≡ some j) × Reads parser (frame_of J j) q)
  unfolding parse_ltp
  parse_ltp_iff parser text q = (
    λ h. elim (Option-cases (parse text)) [
      | inl e ↦ absurd (cc (rw e at h))
      | inr (j, e) ↦ (j, e, read_frame-Reads parser (frame_of J j) q (rw e at h))
    ],
    λ (j, e, r). rw e (Reads-read_frame parser (frame_of J j) q r),
  )
