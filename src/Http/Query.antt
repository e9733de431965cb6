-- ===== src/Http/Query.antt =====
-- The query of a URL: a reader gives back the entries that were put into it.
use real_time_market_data.Base.{
  ℕ, ◌<◌, ◌≡◌, refl, ap, ◌∙◌, inl, inr, ◌⊎◌, true, false, List, [], ◌∷◌, ◌++◌, none, some, Text,
  ◌==◌, if◌then◌else◌, All, arith, Bool-cases, is_empty, drop, append-nil,
}
use real_time_market_data.Http.{is_plain, url_encode, query_entries, build_query_string}
use real_time_market_data.Http.Encoding.{
  plain, decode_from, decode_from-url_encode, url_encode-clean,
}
use real_time_market_data.Url.{cut_at}

-- The pieces of a text between separators.
pub pieces : ℕ → Text → List Text
pieces c [] = [] ∷ []
pieces c (a ∷ s) =
    let rest = pieces c s in
    if a == c then [] ∷ rest else elim rest [ [] ↦ [] | p ∷ ps ↦ (a ∷ p) ∷ ps ]

-- One entry, with nothing as its value where there is no '='.
read_pair : Text → Text × Text
read_pair p = elim (cut_at b'=' p) [
  | none ↦ (decode_from plain p, [])
  | some (k, rest) ↦ (decode_from plain k, decode_from plain (drop 1 rest))
]

-- The entries, where empty pieces are skipped.
read_pairs : List Text → List (Text × Text)
read_pairs [] = []
read_pairs (p ∷ ps) = let rest = read_pairs ps in if is_empty p then rest else read_pair p ∷ rest

pub read_query : Text → List (Text × Text)
read_query s = read_pairs (pieces b'&' s)

-- No separator of queries in a text.
abbrev Clean : Text → Type 0
Clean s = All (λ c. (is_plain c ≡ true) ⊎ (c ≡ b'%')) s

pieces_some : (x : Text) → (p : Text) × (ps : List Text) × (pieces b'&' x ≡ p ∷ ps)
unfolding pieces
pieces_some [] = ([], [], refl)
pieces_some (a ∷ x) =
    let (p, ps, e) = pieces_some x in
    elim (Bool-cases (a == b'&')) [
      | inl h ↦ ([], p ∷ ps, rw (h, e) refl)
      | inr h ↦ (a ∷ p, ps, rw (h, e) refl)
    ]

pieces-append : (x y : Text) → pieces b'&' (x ++ b'&' ∷ y) ≡ pieces b'&' x ++ pieces b'&' y
unfolding pieces
pieces-append [] y = refl
pieces-append (a ∷ x) y =
    let (p, ps, e) = pieces_some x in
    elim (Bool-cases (a == b'&')) [
      | inl h ↦ rw (h, pieces-append x y) refl
      | inr h ↦ rw (h, pieces-append x y, e) refl
    ]

pieces-Clean : (x : Text) → Clean x → pieces b'&' x ≡ x ∷ []
unfolding pieces is_plain
pieces-Clean [] h = refl
pieces-Clean (a ∷ x) h = ground (arith, pieces-Clean x)

-- Two such texts around an equals sign.
pieces_pair : (x y : Text) → Clean x → Clean y → pieces b'&' (x ++ b'=' ∷ y) ≡ (x ++ b'=' ∷ y) ∷ []
unfolding pieces is_plain
pieces_pair [] y h k = ground (arith, pieces-Clean y k)
pieces_pair (a ∷ x) y h k = ground (arith, pieces_pair x y)

read_pairs-append : (ps qs : List Text) → read_pairs (ps ++ qs) ≡ read_pairs ps ++ read_pairs qs
unfolding read_pairs
read_pairs-append [] qs = refl
read_pairs-append (p ∷ ps) qs = ground (arith, read_pairs-append ps qs)

cut_at-Clean : (x y : Text) → Clean x → cut_at b'=' (x ++ b'=' ∷ y) ≡ some (x, b'=' ∷ y)
unfolding cut_at is_plain
cut_at-Clean [] y h = refl
cut_at-Clean (a ∷ x) y h = ground (arith, cut_at-Clean x y)

abbrev pub AreBytes : List (Text × Text) → Type 0
AreBytes q = All (λ e. All (λ c. c < 256) e.0 × All (λ c. c < 256) e.1) q

-- One entry as it stands in the query.
entry : Text → Text → Text
entry k v = url_encode k ++ b'=' ∷ url_encode v

read_pair-entry : (k v : Text) → AreBytes ((k, v) ∷ []) → read_pair (entry k v) ≡ (k, v)
unfolding read_pair entry
read_pair-entry k v h = ground (
  arith,
  cut_at-Clean (url_encode k) (url_encode v) (url_encode-clean k h.0.0),
  decode_from-url_encode k h.0.0,
  decode_from-url_encode v h.0.1,
)

pieces-entry : (k v : Text) → AreBytes ((k, v) ∷ []) → pieces b'&' (entry k v) ≡ entry k v ∷ []
unfolding entry
pieces-entry k v h =
    pieces_pair (url_encode k) (url_encode v) (url_encode-clean k h.0.0) (url_encode-clean v h.0.1)

entry-nonempty : (k v : Text) → is_empty (entry k v) ≡ false
unfolding entry
entry-nonempty k v = nonempty (url_encode k)
  where
    nonempty : (x : Text) → is_empty (x ++ b'=' ∷ url_encode v) ≡ false
    nonempty [] = refl
    nonempty (_ ∷ _) = refl

read_pairs-entry :
    (k v : Text) (ps : List Text)
    → AreBytes ((k, v) ∷ [])
    → read_pairs (entry k v ∷ ps) ≡ (k, v) ∷ read_pairs ps
unfolding read_pairs
read_pairs-entry k v ps h = rw (entry-nonempty k v, read_pair-entry k v h) refl

query_entries-one : (k v : Text) → query_entries true ((k, v) ∷ []) ≡ entry k v
unfolding query_entries entry
query_entries-one k v = append-nil (url_encode k ++ b'=' ∷ url_encode v)

query_entries-more :
    (k v k' v' : Text) (q : List (Text × Text))
    → query_entries true ((k, v) ∷ (k', v') ∷ q)
      ≡ entry k v ++ b'&' ∷ query_entries true ((k', v') ∷ q)
unfolding query_entries entry
query_entries-more k v k' v' q = refl

read_query-query_entries :
    (k v : Text) (q : List (Text × Text))
    → AreBytes ((k, v) ∷ q)
    → read_query (query_entries true ((k, v) ∷ q)) ≡ (k, v) ∷ q
unfolding read_query read_pairs
read_query-query_entries k v [] h =
    ap read_query (query_entries-one k v)
    ∙ ap read_pairs (pieces-entry k v (h.0, tt))
    ∙ read_pairs-entry k v [] (h.0, tt)
read_query-query_entries k v ((k', v') ∷ q) h =
    let more = query_entries true ((k', v') ∷ q) in
    ap read_query (query_entries-more k v k' v' q)
    ∙ ap read_pairs (
        pieces-append (entry k v) more
        ∙ ap (λ r. r ++ pieces b'&' more) (pieces-entry k v (h.0, tt)))
    ∙ read_pairs-entry k v (pieces b'&' more) (h.0, tt)
    ∙ ap (λ r. (k, v) ∷ r) (read_query-query_entries k' v' q h.1)

pub read_query-build_query_string :
    (q : List (Text × Text)) → AreBytes q → read_query (build_query_string q) ≡ q
unfolding build_query_string read_query read_pairs pieces query_entries
read_query-build_query_string [] h = refl
read_query-build_query_string ((k, v) ∷ q) h = read_query-query_entries k v q h

pub read_query-append : (x y : Text) → read_query (x ++ b'&' ∷ y) ≡ read_query x ++ read_query y
unfolding read_query
read_query-append x y =
    ap read_pairs (pieces-append x y) ∙ read_pairs-append (pieces b'&' x) (pieces b'&' y)

pub read_query_nil : read_query [] ≡ []
unfolding read_query read_pairs pieces
read_query_nil = refl
