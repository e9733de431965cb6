-- ===== src/Auth/Login.antt =====
-- When a login succeeds, and what it leaves.
use real_time_market_data.Base.{
  ◌≡◌, ap, ◌∙◌, ◌↔◌, ◌⊎◌, ◌/◌, true, false, [], ◌∷◌, ◌++◌, Option, some, inl, inr, Option-cases,
  Bool-cases, ◌==◌, Text, codes, is_empty, if◌then◌else◌, arith,
}
use real_time_market_data.Base.Int.{is_positive}
use real_time_market_data.Json.{Floats, JsonLib}
use real_time_market_data.Parser.{TimePoint}
use real_time_market_data.Auth.{Tokens, Auth, epoch, returns}
use real_time_market_data.Auth.Reply.{ttl_sec, expiry, data_of, grant, handle_login_response}
use real_time_market_data.Auth.Session.{
  login_url, otp_payload, post_payload, status_error, login_refused, login_impl,
}
use real_time_market_data.Http.{Beast, HttpResponse}
use real_time_market_data.Http as Http
use real_time_market_data.Config.{Config}
use real_time_market_data.Logger.{info, error}

module _ {F : Floats} (J : JsonLib F) where
  open J use {Value, contains, value_or}

  -- The tokens that the data of a login response grants.
  pub record Granted (d : Value) (now : TimePoint) (t : Tokens) : Type 0 where
    pub has_jwt : contains d (codes "jwtToken") ≡ true
    pub has_refresh : contains d (codes "refreshToken") ≡ true
    pub access : value_or d (codes "jwtToken") [] ≡ some t.access_token
    pub refresh : value_or d (codes "refreshToken") [] ≡ some t.refresh_token
    pub feed : value_or d (codes "feedToken") [] ≡ some t.feed_token
    pub expires :
        t.expires_at ≡ (if is_positive (ttl_sec J d) then expiry now (ttl_sec J d) else epoch)
    pub nonempty : is_empty t.access_token ≡ false

  Granted-grant :
      (d : Value) (now : TimePoint) (a : Auth) (t : Tokens)
      → Granted d now t
      → grant J d now a ≡ (returns true, record a { tokens = t })
  unfolding grant
  Granted-grant d now a t h =
      ground (arith, h.has_jwt, h.has_refresh, h.access, h.refresh, h.feed, h.expires, h.nonempty)

  grant-Granted :
      (d : Value) (now : TimePoint) (a a' : Auth)
      → grant J d now a ≡ (returns true, a')
      → Granted d now a'.tokens × (a' ≡ record a { tokens = a'.tokens })
  unfolding grant
  grant-Granted d now a a' h = (
    record {
      has_jwt = ground arith;
      has_refresh = ground arith;
      access = ground arith;
      refresh = ground arith;
      feed = ground arith;
      expires = ground arith;
      nonempty = ground arith;
    },
    ground arith,
  )

  -- A refused response leaves the tokens, or has replaced them by ones without an access token.
  abbrev pub Refused : Auth → Auth → Type 0
  Refused a a' =
      ((a'.tokens ≡ a.tokens) ⊎ (is_empty a'.tokens.access_token ≡ true)) × (a'.logged ≡ a.logged)

  handle_login_response-Refused :
      (body : Text) (now : TimePoint) (a a' : Auth)
      → handle_login_response J body now a ≡ (returns false, a')
      → Refused a a'
  unfolding handle_login_response grant
  handle_login_response-Refused body now a a' h = (ground arith, ground arith)

  -- A response whose body has an object in "data".
  pub record Carries (resp : HttpResponse) (d : Value) : Type 0 where
    pub status : resp.status / 100 ≡ 2
    pub value : Value
    pub parsed : J.parse resp.body ≡ some value
    pub has_data : contains value (codes "data") ≡ true
    pub is_object : J.is_object (J.at value (codes "data")) ≡ true
    pub is_data : d ≡ J.at value (codes "data")

  pub data_of-Carries :
      (resp : HttpResponse) (d : Value)
      → resp.status / 100 ≡ 2
      → data_of J resp.body ≡ some d
      → Carries resp d
  unfolding data_of
  data_of-Carries resp d ok h = elim (Option-cases (J.parse resp.body)) [
    | inl e ↦ ground (arith, e, h)
    | inr (j, e) ↦ record {
      status = ok;
      value = j;
      parsed = e;
      has_data = ground (arith, e, h);
      is_object = ground (arith, e, h);
      is_data = ground (arith, e, h);
    }
  ]

  pub Carries-data_of :
      (resp : HttpResponse) (d : Value) → Carries resp d → data_of J resp.body ≡ some d
  unfolding data_of
  Carries-data_of resp d h = ground (arith, h.parsed, h.has_data, h.is_object, h.is_data)

  module _ (B : Beast) (opts : Http.Options) (cfg : Config) (otp : Text) where
    abbrev pub response : Option HttpResponse
    response = post_payload J B opts cfg login_url (otp_payload J B opts cfg otp)

    -- What a successful login comes from: the response, its data, and their tokens.
    abbrev pub Success : TimePoint → Auth → Auth → Type 0
    Success now a a' =
        (resp : HttpResponse) × (d : Value) × (response ≡ some resp)
        × Carries resp d
        × Granted d now a'.tokens
        × (a' ≡ record a {
          tokens = a'.tokens;
          logged = a.logged ++ (info, codes "Auth.login success") ∷ [];
        })

    Success-login_impl :
        (now : TimePoint) (a a' : Auth)
        → Success now a a'
        → login_impl J B opts cfg otp now a ≡ (returns true, a')
    unfolding login_impl handle_login_response
    Success-login_impl now a a' (resp, d, sent, carried, h, e) = ground (
      arith,
      sent,
      e,
      carried.status,
      Carries-data_of resp d carried,
      Granted-grant d now a a'.tokens h,
    )

    login_impl-Success :
        (now : TimePoint) (a a' : Auth)
        → login_impl J B opts cfg otp now a ≡ (returns true, a')
        → Success now a a'
    unfolding login_impl handle_login_response
    login_impl-Success now a a' h = elim (Option-cases response) [
      | inl e ↦ ground (arith, e, h)
      | inr (resp, sent) ↦ elim (Option-cases (data_of J resp.body)) [
        | inl e ↦ ground (arith, e, h, sent)
        | inr (d, e) ↦
            let ok : resp.status / 100 ≡ 2 = ground (arith, sent, e, h) in
            let granted : grant J d now a ≡ (returns true, record a { tokens = a'.tokens }) =
              ground (arith, sent, e, h) in
            let (g, _) = grant-Granted d now a (record a { tokens = a'.tokens }) granted in
            (resp, d, sent, data_of-Carries resp d ok e, g, ground (arith, sent, e, h, granted))
      ]
    ]

    -- A login returns true exactly when the request was answered with a status of 2xx and a JSON
    -- body whose "data" is an object with a "jwtToken" and a "refreshToken", the access token it
    -- gives is not empty, and its tokens can be read as texts. The session then has its access,
    -- refresh and feed token and the expiry of its time to live (unknown where that is not
    -- positive), and one line more in the log.
    pub login_impl_iff :
        (now : TimePoint) (a a' : Auth)
        → (login_impl J B opts cfg otp now a ≡ (returns true, a')) ↔ Success now a a'
    login_impl_iff now a a' = (login_impl-Success now a a', Success-login_impl now a a')

    -- A login that returns false leaves the tokens as they were or leaves an empty access token, and
    -- logs one error.
    login_impl-false :
        (now : TimePoint) (a a' : Auth)
        → login_impl J B opts cfg otp now a ≡ (returns false, a')
        → ((a'.tokens ≡ a.tokens) ⊎ (is_empty a'.tokens.access_token ≡ true))
          × ((msg : Text) × (a'.logged ≡ a.logged ++ (error, msg) ∷ []))
    unfolding login_impl
    login_impl-false now a a' h = elim (Option-cases response) [
      | inl e ↦ ground (arith, e, h)
      | inr (resp, sent) ↦ elim (Bool-cases (resp.status / 100 == 2)) [
        | inr bad ↦ (
          inl (ground (arith, sent, bad, h)),
          (status_error (codes "Auth.login failed: HTTP ") resp, ground (arith, sent, bad, h)),
        )
        | inl ok ↦
            let reply : Auth = (handle_login_response J resp.body now a).1 in
            let refused : handle_login_response J resp.body now a ≡ (returns false, reply) =
              ground (arith, sent, ok, h) in
            let left : a' ≡ record reply { logged = reply.logged ++ (error, login_refused) ∷ [] } =
              ground (arith, sent, ok, h) in
            let (kept, silent) = handle_login_response-Refused resp.body now a reply refused in
            (
              ground (arith, left, kept),
              (
                login_refused,
                ap Auth.logged left ∙ ap (λ l. l ++ (error, login_refused) ∷ []) silent,
              ),
            )
      ]
    ]
