-- ===== src/Auth/Refresh.antt =====
-- When a refresh succeeds, and that one that fails leaves the tokens.
use real_time_market_data.Base.{
  ◌≡◌, sym, ap, ◌↔◌, ◌/◌, true, false, [], ◌∷◌, ◌++◌, Option, some, inl, inr, Option-cases,
  Bool-cases, ◌==◌, Text, codes, is_empty, if◌then◌else◌, arith,
}
use real_time_market_data.Base.Int.{is_positive}
use real_time_market_data.Json.{Floats, JsonLib}
use real_time_market_data.Parser.{TimePoint}
use real_time_market_data.Http.{Beast, HttpResponse}
use real_time_market_data.Http as Http
use real_time_market_data.Config.{Config}
use real_time_market_data.Logger.{LogLevel, info, warn, error}
use real_time_market_data.Auth.{Tokens, Auth, returns}
use real_time_market_data.Auth.Reply.{
  ttl_sec, expiry, data_of, renew_token, renew, handle_refresh_response,
}
use real_time_market_data.Auth.Session.{
  refresh_url, renewal_payload, post_payload, status_error, refresh_refused, refresh,
}
use real_time_market_data.Auth.Login.{Carries, data_of-Carries, Carries-data_of}

module _ {F : Floats} (J : JsonLib F) where
  open J use {Value, contains, value_or}

  -- The tokens that the data of a refresh response makes of the old ones.
  pub record Renewed (d : Value) (now : TimePoint) (old t : Tokens) : Type 0 where
    pub access : value_or d (codes "jwtToken") [] ≡ some t.access_token
    pub nonempty : is_empty t.access_token ≡ false
    pub refresh :
        (if contains d (codes "refreshToken")
          then value_or d (codes "refreshToken") old.refresh_token
          else some old.refresh_token)
        ≡ some t.refresh_token
    pub feed : value_or d (codes "feedToken") old.feed_token ≡ some t.feed_token
    pub expires :
        t.expires_at
        ≡ (if is_positive (ttl_sec J d) then expiry now (ttl_sec J d) else old.expires_at)

  Renewed-renew :
      (d : Value) (now : TimePoint) (a : Auth) (t : Tokens)
      → Renewed d now a.tokens t
      → renew J d now a ≡ (returns true, record a { tokens = t })
  unfolding renew renew_token
  Renewed-renew d now a t h = ground (arith, h.access, h.nonempty, h.refresh, h.feed, h.expires)

  renew-Renewed :
      (d : Value) (now : TimePoint) (a a' : Auth)
      → renew J d now a ≡ (returns true, a')
      → Renewed d now a.tokens a'.tokens × (a' ≡ record a { tokens = a'.tokens })
  unfolding renew renew_token
  renew-Renewed d now a a' h = (
    record {
      access = ground arith;
      nonempty = ground arith;
      refresh = ground arith;
      feed = ground arith;
      expires = ground arith;
    },
    ground arith,
  )

  handle_refresh_response-refused :
      (body : Text) (now : TimePoint) (a a' : Auth)
      → handle_refresh_response J body now a ≡ (returns false, a')
      → a' ≡ a
  unfolding handle_refresh_response renew renew_token
  handle_refresh_response-refused body now a a' h = ground arith

  module _ (B : Beast) (opts : Http.Options) (cfg : Config) where
    -- What the request gives that a refresh sends.
    abbrev pub renewal : Auth → Option HttpResponse
    renewal a =
        post_payload J B opts cfg refresh_url (renewal_payload J B opts cfg a.tokens.refresh_token)

    abbrev pub Renewal : TimePoint → Auth → Auth → Type 0
    Renewal now a a' =
        (resp : HttpResponse) × (d : Value) × (is_empty a.tokens.refresh_token ≡ false)
        × (renewal a ≡ some resp)
        × Carries J resp d
        × Renewed d now a.tokens a'.tokens
        × (a' ≡ record a {
          tokens = a'.tokens;
          logged = a.logged ++ (info, codes "Auth.refresh success") ∷ [];
        })

    Renewal-refresh :
        (now : TimePoint) (a a' : Auth)
        → Renewal now a a'
        → refresh J B opts cfg now a ≡ (returns true, a')
    unfolding refresh handle_refresh_response
    Renewal-refresh now a a' (resp, d, stored, sent, carried, h, e) = ground (
      arith,
      stored,
      sent,
      e,
      carried.status,
      Carries-data_of J resp d carried,
      Renewed-renew d now a a'.tokens h,
    )

    refresh-Renewal :
        (now : TimePoint) (a a' : Auth)
        → refresh J B opts cfg now a ≡ (returns true, a')
        → Renewal now a a'
    unfolding refresh handle_refresh_response
    refresh-Renewal now a a' h = elim (Option-cases (renewal a)) [
      | inl e ↦ ground (arith, e, h)
      | inr (resp, sent) ↦ elim (Option-cases (data_of J resp.body)) [
        | inl e ↦ ground (arith, e, h, sent)
        | inr (d, e) ↦
            let stored : is_empty a.tokens.refresh_token ≡ false = ground (arith, h) in
            let ok : resp.status / 100 ≡ 2 = ground (arith, sent, e, h) in
            let renewed : renew J d now a ≡ (returns true, record a { tokens = a'.tokens }) =
              ground (arith, sent, e, h) in
            let (r, _) = renew-Renewed d now a (record a { tokens = a'.tokens }) renewed in
            (
              resp,
              d,
              stored,
              sent,
              data_of-Carries J resp d ok e,
              r,
              ground (arith, sent, e, h, renewed),
            )
      ]
    ]

    -- A refresh returns true exactly when a refresh token is stored, the request with it was
    -- answered with a status of 2xx and a JSON body whose "data" is an object, that gives an access
    -- token that is not empty, and the members "refreshToken" and "feedToken" of the data, where
    -- they are there, can be read as texts. The session then has that access token, the refresh and
    -- the feed token of the response or else the old ones, and the new expiry where the time to live
    -- is positive or else the old one.
    pub refresh_iff :
        (now : TimePoint) (a a' : Auth)
        → (refresh J B opts cfg now a ≡ (returns true, a')) ↔ Renewal now a a'
    refresh_iff now a a' = (refresh-Renewal now a a', Renewal-refresh now a a')

    -- A refresh that returns false leaves the tokens as they were, and logs one line.
    refresh-false :
        (now : TimePoint) (a a' : Auth)
        → refresh J B opts cfg now a ≡ (returns false, a')
        → (a'.tokens ≡ a.tokens)
          × ((lvl : LogLevel) × (msg : Text) × (a'.logged ≡ a.logged ++ (lvl, msg) ∷ []))
    unfolding refresh
    refresh-false now a a' h = elim (Bool-cases (is_empty a.tokens.refresh_token)) [
      | inl e ↦ (
        ground (arith, h, e),
        (warn, codes "Auth.refresh called without refresh_token", ground (arith, h, e)),
      )
      | inr stored ↦ elim (Option-cases (renewal a)) [
        | inl e ↦ ground (arith, e, h, stored)
        | inr (resp, sent) ↦ elim (Bool-cases (resp.status / 100 == 2)) [
          | inr bad ↦ (
            ground (arith, sent, bad, h, stored),
            (
              error,
              status_error (codes "Auth.refresh failed: HTTP ") resp,
              ground (arith, sent, bad, h, stored),
            ),
          )
          | inl ok ↦
              let reply : Auth = (handle_refresh_response J resp.body now a).1 in
              let refused : handle_refresh_response J resp.body now a ≡ (returns false, reply) =
                ground (arith, sent, ok, h, stored) in
              let left : a'
                  ≡ record reply { logged = reply.logged ++ (error, refresh_refused) ∷ [] } =
                ground (arith, sent, ok, h, stored) in
              let same = handle_refresh_response-refused resp.body now a reply refused in
              let left' : a' ≡ record a { logged = a.logged ++ (error, refresh_refused) ∷ [] } =
                rw (sym same) left in
              (ap Auth.tokens left', (error, refresh_refused, ap Auth.logged left'))
        ]
      ]
    ]
