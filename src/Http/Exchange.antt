-- ===== src/Http/Exchange.antt =====
-- What a request carries and what its answer comes from: src/http_client.cpp, get, post, post_json.
use real_time_market_data.Base.{
  ℕ, some-bind, ◌≡◌, refl, ap, ◌∙◌, Bool, true, false, List, [], Option, none, some, Text, codes,
}
use real_time_market_data.Base.Map.{lookup}
use real_time_market_data.Url.{UrlParts}
use real_time_market_data.Http.{
  Beast, Options, Request, HttpResponse, emplace_all, tls_context, perform_request, json_headers,
  parse_https_url, http_get, http_post, http_post_json,
}
use real_time_market_data.Http.Headers.{FieldLaws, carried, lookup-emplace_all, find-carried}

-- The three kinds of request that a client makes; a generic post has its own content type.
pub data Ask : Type 0 where
  gets : Ask
  posts : Text → Text → Ask
  posts_json : Text → Ask

abbrev is_posting : Ask → Bool
is_posting gets = false
is_posting _ = true

abbrev body_of : Ask → Text
body_of gets = []
body_of (posts body content_type) = body
body_of (posts_json body) = body

abbrev content_type_of : Ask → Option Text
content_type_of gets = none
content_type_of (posts body content_type) = some content_type
content_type_of (posts_json body) = some (codes "application/json")

module _ (B : Beast) (L : FieldLaws B) where
  open L use {find}

  -- What an answer comes from.
  pub record Exchanged (o : Options) (url : Text) (a : Ask) (headers query : List (Text × Text))
      (r : HttpResponse) : Type 0 where
    pub parts : UrlParts
    pub parsed : parse_https_url url query ≡ some parts
    pub blank : B.Fields
    pub req : Request B.Fields
    pub stream : B.Stream
    pub reply : ℕ × Text × List (Text × Text)
    pub exchanged : B.exchange req stream ≡ some reply
    pub method : req.is_post ≡ is_posting a
    pub to_target : req.target ≡ parts.target
    pub has_body : req.body ≡ body_of a
    pub carries :
        (k : Text)
        → find k req.fields ≡ carried o parts.host headers (content_type_of a) k (find k blank)
    pub status : r.status ≡ reply.0
    pub answer : r.body ≡ reply.1
    pub first_fields : (k : Text) → lookup k r.headers ≡ lookup k reply.2

  -- The exchange of a request that was answered.
  perform_request-exchange :
      (o : Options) (host port : Text) (req : Request B.Fields) (r : HttpResponse)
      → perform_request B o host port req ≡ some r
      → (stream : B.Stream) × (reply : ℕ × Text × List (Text × Text)) × (B.exchange
            (record req { fields = B.set (codes "Host") host req.fields })
            stream
          ≡ some reply)
        × (r ≡ record { status = reply.0; body = reply.1; headers = emplace_all reply.2 [] })
  unfolding perform_request
  perform_request-exchange o host port req r h =
      let (context, _, h1) = some-bind (tls_context B o) _ h in
      let (results, _, h2) = some-bind (B.resolve host port) _ h1 in
      let (tcp, _, h3) = some-bind (B.connect context o.timeout results) _ h2 in
      let (named, _, h4) = some-bind (B.set_host_name host tcp) _ h3 in
      let (stream, _, h5) = some-bind (B.handshake named) _ h4 in
      let (reply, e, h6) =
        some-bind (B.exchange (record req { fields = B.set (codes "Host") host req.fields }) stream)
          _ h5 in
      (stream, reply, e, cc h6)

  -- What the client does for each kind, and the headers that it passes on.
  unfoldable pub ask :
      Options → Ask → Text → List (Text × Text) → List (Text × Text) → Option HttpResponse
  ask o gets url headers query = http_get B o url headers query
  ask o (posts body content_type) url headers query =
      http_post B o url body content_type headers query
  ask o (posts_json body) url headers query = http_post_json B o url body headers query

  abbrev pub passed_on : Ask → List (Text × Text) → List (Text × Text)
  passed_on (posts_json body) headers = json_headers B headers
  passed_on _ headers = headers

  http_get-Exchanged :
      (o : Options) (url : Text) (headers query : List (Text × Text)) (r : HttpResponse)
      → http_get B o url headers query ≡ some r
      → Exchanged o url gets headers query r
  unfolding http_get
  http_get-Exchanged o url headers query r h =
      let (parts, parsed, h1) = some-bind (parse_https_url url query) _ h in
      let (stream, reply, e, got) = perform_request-exchange o parts.host parts.port _ r h1 in
      record {
        parts = parts;
        parsed = parsed;
        blank = B.no_fields;
        req = _;
        stream = stream;
        reply = reply;
        exchanged = e;
        method = refl;
        to_target = refl;
        has_body = refl;
        carries = λ k. find-carried B L o parts.host headers none k B.no_fields;
        status = ap HttpResponse.status got;
        answer = ap HttpResponse.body got;
        first_fields =
            λ k. ap (λ x. lookup k (HttpResponse.headers x)) got ∙ lookup-emplace_all k reply.2 [];
      }

  http_post-Exchanged :
      (o : Options) (url body content_type : Text) (headers query : List (Text × Text))
      (r : HttpResponse)
      → http_post B o url body content_type headers query ≡ some r
      → Exchanged o url (posts body content_type) headers query r
  unfolding http_post
  http_post-Exchanged o url body content_type headers query r h =
      let (parts, parsed, h1) = some-bind (parse_https_url url query) _ h in
      let prepared : Request B.Fields =
        B.prepare_payload
          (record { is_post = true; target = parts.target; body = body; fields = B.no_fields }) in
      let (stream, reply, e, got) = perform_request-exchange o parts.host parts.port _ r h1 in
      record {
        parts = parts;
        parsed = parsed;
        blank = prepared.fields;
        req = _;
        stream = stream;
        reply = reply;
        exchanged = e;
        method = L.keeps_method _;
        to_target = L.keeps_target _;
        has_body = L.keeps_body _;
        carries = λ k. find-carried B L o parts.host headers (some content_type) k prepared.fields;
        status = ap HttpResponse.status got;
        answer = ap HttpResponse.body got;
        first_fields =
            λ k. ap (λ x. lookup k (HttpResponse.headers x)) got ∙ lookup-emplace_all k reply.2 [];
      }

  -- Where the fields of a request behave as a map whose names ignore case: an answer of get, post or
  -- post_json comes from an exchange of a GET or a POST request with the URL's target and the given
  -- body, empty for a GET; under each name it carries the host, or else the last of the caller's
  -- headers (for post_json with a JSON content type put to them if they have none so spelled), or
  -- else the last of the client's default headers, or else the agent, or else the content type of
  -- the post, or else what the request's fields had at first. The answer has the response's status
  -- and body, and of each name the first field.
  pub ask-Exchanged :
      (o : Options) (a : Ask) (url : Text) (headers query : List (Text × Text)) (r : HttpResponse)
      → ask o a url headers query ≡ some r
      → Exchanged o url a (passed_on a headers) query r
  unfolding ask http_post_json
  ask-Exchanged o gets url headers query r h = http_get-Exchanged o url headers query r h
  ask-Exchanged o (posts body content_type) url headers query r h =
      http_post-Exchanged o url body content_type headers query r h
  ask-Exchanged o (posts_json body) url headers query r h =
      let e =
        http_post-Exchanged o url body (codes "application/json") (json_headers B headers) query r
          h in
      record {
        parts = e.parts;
        parsed = e.parsed;
        blank = e.blank;
        req = e.req;
        stream = e.stream;
        reply = e.reply;
        exchanged = e.exchanged;
        method = e.method;
        to_target = e.to_target;
        has_body = e.has_body;
        carries = e.carries;
        status = e.status;
        answer = e.answer;
        first_fields = e.first_fields;
      }

  -- The same for post_json by its own name.
  pub http_post_json-Exchanged :
      (o : Options) (url body : Text) (headers query : List (Text × Text)) (r : HttpResponse)
      → http_post_json B o url body headers query ≡ some r
      → Exchanged o url (posts_json body) (json_headers B headers) query r
  unfolding ask
  http_post_json-Exchanged o url body headers query r h =
      ask-Exchanged o (posts_json body) url headers query r h
