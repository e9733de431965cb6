-- ===== src/Auth/Request.antt =====
-- The request that a login sends.
use real_time_market_data.Base.{
  ℕ, ◌≡◌, refl, sym, ap, ◌∙◌, true, List, [], Option, some, inl, inr, Option-cases, some_inj, Text,
  codes,
}
use real_time_market_data.Json.{Floats, JsonLib}
use real_time_market_data.Parser.{TimePoint}
use real_time_market_data.Parser
use real_time_market_data.Url.{split_url, split_rest, split_host, cut_at, UrlParts}
use real_time_market_data.Base.Map.{put}
use real_time_market_data.Http.{
  Beast, Request, HttpResponse, http_post_json, json_headers, parse_https_url, build_query_string,
  query_entries,
}
use real_time_market_data.Http as Http
use real_time_market_data.Http.Headers.{FieldLaws, carried, last_of, same_name, lower}
use real_time_market_data.Http.Exchange.{http_post_json-Exchanged}
use real_time_market_data.Config.{Config}
use real_time_market_data.Auth.{Auth, returns}
use real_time_market_data.Auth.Session.{common_headers, login_url, otp_payload, login_impl}
use real_time_market_data.Auth.Login.{response, login_impl_iff}

module _ {F : Floats} (J : JsonLib F) (B : Beast) (L : FieldLaws B) (opts : Http.Options)
    (cfg : Config) where
  open L use {find}

  -- A request for a login: what it asks for and what it carries.
  pub record AsksFor (otp : Text) (req : Request B.Fields) : Type 0 where
    pub posts : req.is_post ≡ true
    pub target : req.target ≡ codes "/rest/auth/angelbroking/user/v1/loginByPassword"
    pub payload : otp_payload J B opts cfg otp ≡ some req.body
    pub host : find (codes "Host") req.fields ≡ some (codes "apiconnect.angelone.in")
    pub content : find (codes "Content-Type") req.fields ≡ some (codes "application/json")
    pub key : find (codes "X-PrivateKey") req.fields ≡ some cfg.api_key

  abbrev parts : UrlParts
  parts = record {
    host = codes "apiconnect.angelone.in";
    port = codes "443";
    target = codes "/rest/auth/angelbroking/user/v1/loginByPassword";
  }

  abbrev json_type : Option Text
  json_type = some (codes "application/json")

  parse_https_url-login_url : parse_https_url login_url [] ≡ some parts
  unfolding parse_https_url build_query_string query_entries split_url split_rest split_host cut_at
      Parser.has_prefix
  parse_https_url-login_url = refl

  -- What is carried under the three names, whatever the client's options.
  carried_host :
      (rest : Option Text)
      → carried opts parts.host (json_headers B (common_headers cfg)) json_type (codes "Host") rest
        ≡ some parts.host
  unfolding carried same_name lower
  carried_host rest = refl

  carried_content :
      (rest : Option Text)
      → carried opts parts.host
          (json_headers B (common_headers cfg))
          json_type
          (codes "Content-Type")
          rest
        ≡ some (codes "application/json")
  unfolding carried json_headers common_headers put last_of same_name lower
  carried_content rest = refl

  carried_key :
      (rest : Option Text)
      → carried opts parts.host
          (json_headers B (common_headers cfg))
          json_type
          (codes "X-PrivateKey")
          rest
        ≡ some cfg.api_key
  unfolding carried json_headers common_headers put last_of same_name lower
  carried_key rest = refl

  payload_posted :
      (otp : Text) (resp : HttpResponse)
      → response J B opts cfg otp ≡ some resp
      → (body : Text) × (otp_payload J B opts cfg otp ≡ some body)
        × (http_post_json B opts login_url body (common_headers cfg) [] ≡ some resp)
  payload_posted otp resp sent = elim (Option-cases (otp_payload J B opts cfg otp)) [
    | inl e ↦ absurd (cc (rw e at sent))
    | inr (body, e) ↦ (body, e, rw e at sent)
  ]

  -- Where the fields of a request behave as a map whose names ignore case: a login that succeeds was
  -- answered to a POST request for the login path, whose body is the payload of the client's code,
  -- password and one-time password, and which carries the broker's host, the JSON content type and
  -- the API key as "X-PrivateKey", whatever default headers the HTTP client has.
  pub login_impl-AsksFor :
      (otp : Text) (now : TimePoint) (a a' : Auth)
      → login_impl J B opts cfg otp now a ≡ (returns true, a')
      → (req : Request B.Fields) × (stream : B.Stream) × (reply : ℕ × Text × List (Text × Text))
        × (B.exchange req stream ≡ some reply)
        × AsksFor otp req
  login_impl-AsksFor otp now a a' h =
      let (resp, d, sent, carries, granted, left) =
        (login_impl_iff J B opts cfg otp now a a').0 h in
      let (body, dumped, posted) = payload_posted otp resp sent in
      let e =
        http_post_json-Exchanged B L opts login_url body (common_headers cfg) [] resp posted in
      let same : e.parts ≡ parts = some_inj (sym e.parsed ∙ parse_https_url-login_url) in
      let at_host : (k : Text)
          → find k e.req.fields
            ≡ carried opts parts.host (json_headers B (common_headers cfg)) json_type k
                (find k e.blank) =
        λ k.
          e.carries k
          ∙ ap
              (λ (p : UrlParts).
                carried opts p.host (json_headers B (common_headers cfg)) json_type k
                  (find k e.blank))
              same in
      (
        e.req,
        e.stream,
        e.reply,
        e.exchanged,
        record {
          posts = e.method;
          target = e.to_target ∙ ap UrlParts.target same;
          payload = dumped ∙ ap some (sym e.has_body);
          host = at_host (codes "Host") ∙ carried_host (find (codes "Host") e.blank);
          content =
              at_host (codes "Content-Type")
              ∙ carried_content (find (codes "Content-Type") e.blank);
          key = at_host (codes "X-PrivateKey") ∙ carried_key (find (codes "X-PrivateKey") e.blank);
        },
      )
