-- ===== src/Http/Headers.antt =====
-- The fields of requests and responses: which header wins, and which field of a response is kept.
use real_time_market_data.Base.{
  ℕ, ◌≡◌, refl, Bool, List, [], ◌∷◌, Option, none, some, Text, codes, text_eq_iff, if◌then◌else◌,
  arith, or_else, text_eq, leb, ◌&&◌, ◌+◌, map,
}
use real_time_market_data.Base.Map.{lookup, lookup-put}
use real_time_market_data.Http.{
  Beast, Options, Request, emplace, emplace_all, set_all, apply_headers,
}

-- Names of fields are the same up to the case of their letters.
unfoldable pub lower : ℕ → ℕ
lower c = if leb b'A' c && leb c b'Z' then c + 32 else c

unfoldable pub same_name : Text → Text → Bool
same_name j k = text_eq (map lower j) (map lower k)

-- What the client relies on in the fields of a request: `set` replaces the value of a name, and
-- prepare_payload leaves method, target and body.
pub record FieldLaws (B : Beast) : Type 0 where
  pub find : Text → B.Fields → Option Text
  pub find-set :
      (j k v : Text) (fs : B.Fields)
      → find k (B.set j v fs) ≡ (if same_name j k then some v else find k fs)
  pub keeps_method : (r : Request B.Fields) → (B.prepare_payload r).is_post ≡ r.is_post
  pub keeps_target : (r : Request B.Fields) → (B.prepare_payload r).target ≡ r.target
  pub keeps_body : (r : Request B.Fields) → (B.prepare_payload r).body ≡ r.body

-- The last value that a list of headers has for a name.
unfoldable pub last_of : Text → List (Text × Text) → Option Text
last_of k [] = none
last_of k ((j, v) ∷ kvs) = or_else (last_of k kvs) (if same_name j k then some v else none)

-- What a request carries under a name: the host, then the caller's headers, the client's, its agent and
-- the content type, if it has one.
unfoldable pub carried :
    Options → Text → List (Text × Text) → Option Text → Text → Option Text → Option Text
carried o host headers content_type k rest =
    or_else (if same_name (codes "Host") k then some host else none) (
      or_else (last_of k headers) (
        or_else (last_of k o.default_headers) (
          or_else (if same_name (codes "User-Agent") k then some o.user_agent else none)
            (or_else (if same_name (codes "Content-Type") k then content_type else none) rest))))

-- The first field of a name is kept.
pub lookup-emplace_all :
    (k : Text) (kvs m : List (Text × Text))
    → lookup k (emplace_all kvs m) ≡ or_else (lookup k m) (lookup k kvs)
unfolding emplace_all emplace
lookup-emplace_all k [] m = ground arith
lookup-emplace_all k ((j, v) ∷ kvs) m =
    ground (arith, lookup-emplace_all k kvs (emplace j v m), lookup-put j k v m, text_eq_iff j k)

module _ (B : Beast) (L : FieldLaws B) where
  open L use {find, find-set}

  find-set_all :
      (k : Text) (kvs : List (Text × Text)) (fs : B.Fields)
      → find k (set_all B kvs fs) ≡ or_else (last_of k kvs) (find k fs)
  unfolding set_all last_of
  find-set_all k [] fs = refl
  find-set_all k ((j, v) ∷ kvs) fs =
      ground (arith, find-set_all k kvs (B.set j v fs), find-set j k v fs)

  abbrev typed : Option Text → B.Fields → B.Fields
  typed none fs = fs
  typed (some t) fs = B.set (codes "Content-Type") t fs

  find-typed :
      (content_type : Option Text) (k : Text) (fs : B.Fields)
      → find k (typed content_type fs)
        ≡ or_else (if same_name (codes "Content-Type") k then content_type else none) (find k fs)
  find-typed none k fs = ground arith
  find-typed (some t) k fs = ground (arith, find-set (codes "Content-Type") k t fs)

  pub find-carried :
      (o : Options) (host : Text) (headers : List (Text × Text)) (content_type : Option Text)
      (k : Text) (blank : B.Fields)
      → find k (B.set (codes "Host") host (apply_headers B o headers (typed content_type blank)))
        ≡ carried o host headers content_type k (find k blank)
  unfolding apply_headers carried
  find-carried o host headers content_type k blank =
      let agent = B.set (codes "User-Agent") o.user_agent (typed content_type blank) in
      let default = set_all B o.default_headers agent in
      rw
        (
          find-set (codes "Host") k host (set_all B headers default),
          find-set_all k headers default,
          find-set_all k o.default_headers agent,
          find-set (codes "User-Agent") k o.user_agent (typed content_type blank),
          find-typed content_type k blank,
        )
        (ground arith)
