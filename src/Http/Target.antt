-- ===== src/Http/Target.antt =====
-- The query that is put to the target of a request's URL.
use real_time_market_data.Base.{
  ◌≡◌, refl, sym, ap, ◌∙◌, inl, inr, List, [], ◌∷◌, ◌++◌, none, some, Text, codes, ◌==◌,
  if◌then◌else◌, arith, Bool-cases, Option-cases, is_empty, is_some, drop, append-nil,
}
use real_time_market_data.Http.{query_entries, build_query_string, parse_https_url}
use real_time_market_data.Http.Query.{
  AreBytes, read_query, read_query-build_query_string, read_query-append, read_query_nil,
}
use real_time_market_data.Url.{UrlParts, cut_at, split_url}

-- The path and the query of a request's target.
pub path_of : Text → Text
path_of target = elim (cut_at b'?' target) [ none ↦ target | some (path, rest) ↦ path ]

pub query_of : Text → List (Text × Text)
query_of target = elim (cut_at b'?' target) [
  | none ↦ []
  | some (path, rest) ↦ read_query (drop 1 rest)
]

-- What a '?' cuts off a target that a query has been put to.
cut_at-none_append :
    (s y : Text) → cut_at b'?' s ≡ none → cut_at b'?' (s ++ b'?' ∷ y) ≡ some (s, b'?' ∷ y)
unfolding cut_at
cut_at-none_append [] y h = refl
cut_at-none_append (a ∷ s) y h = ground (arith, cut_at-none_append s y)

cut_at-some_append :
    (s y p r : Text)
    → cut_at b'?' s ≡ some (p, r)
    → (t : Text) × (r ≡ b'?' ∷ t) × (cut_at b'?' (s ++ y) ≡ some (p, b'?' ∷ t ++ y))
unfolding cut_at
cut_at-some_append [] y p r h = ground arith
cut_at-some_append (a ∷ s) y p r h = elim (Bool-cases (a == b'?')) [
  | inl e ↦ (s, ground (arith, e, h), ground (arith, e, h))
  | inr e ↦ elim (Option-cases (cut_at b'?' s)) [
    | inl n ↦ ground (arith, e, n, h)
    | inr ((p', r'), c) ↦
        let (t, e', c') = cut_at-some_append s y p' r' c in
        (t, ground (arith, e, c, h, e'), ground (arith, e, c, h, c'))
  ]
]

-- A query put to a target.
add_query : (target q : Text) → Text
add_query target qs =
    if is_empty qs
    then target
    else target ++ (if is_some (cut_at b'?' target) then b'&' else b'?') ∷ qs

query_of-add_query :
    (target qs : Text)
    → (path_of (add_query target qs) ≡ path_of target)
      × (query_of (add_query target qs) ≡ query_of target ++ read_query qs)
unfolding add_query path_of query_of
query_of-add_query target [] =
    (refl, sym (append-nil (query_of target)) ∙ ap (λ r. query_of target ++ r) (sym read_query_nil))
query_of-add_query target (c ∷ qs) = elim (Option-cases (cut_at b'?' target)) [
  | inl e ↦ (
    ground (arith, e, cut_at-none_append target (c ∷ qs)),
    ground (arith, e, cut_at-none_append target (c ∷ qs)),
  )
  | inr ((p, r), e) ↦
      let (t, e', e2) = cut_at-some_append target (b'&' ∷ c ∷ qs) p r e in
      (ground (arith, e, e2), ground (arith, e, e', e2, read_query-append t (c ∷ qs)))
]

-- For an https URL, with a query or without, and more entries whose names and values are bytes:
-- host, port and path are those of the URL alone, and splitting the target's query at the separators
-- and decoding gives the URL's own entries and then the added ones, in order.
pub parse_https_url-query_of :
    (url : Text) (q : List (Text × Text)) (bare : UrlParts)
    → AreBytes q
    → parse_https_url url [] ≡ some bare
    → (u : UrlParts) × (parse_https_url url q ≡ some u)
      × (u.host ≡ bare.host)
      × (u.port ≡ bare.port)
      × (path_of u.target ≡ path_of bare.target)
      × (query_of u.target ≡ query_of bare.target ++ q)
unfolding parse_https_url add_query build_query_string query_entries
parse_https_url-query_of url q bare b h = elim (Option-cases (split_url (codes "https://") url)) [
  | inl e ↦ ground (arith, e, h)
  | inr (parts, e) ↦
      let same : bare ≡ parts = ground (arith, e, h) in
      let (path, query) = query_of-add_query parts.target (build_query_string q) in
      (
        record parts { target = add_query parts.target (build_query_string q) },
        ground (arith, e),
        ap UrlParts.host (sym same),
        ap UrlParts.port (sym same),
        rw same path,
        rw same (query ∙ ap (λ l. query_of parts.target ++ l) (read_query-build_query_string q b)),
      )
]
