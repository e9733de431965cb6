-- ===== src/Auth/Thrown.antt =====
-- When a login ends in an exception, and what it has written by then.
use real_time_market_data.Base.{
  ◌≡◌, ◌↔◌, ◌⊎◌, ◌/◌, inl, inr, true, [], none, some, Option-cases, Text, codes, arith,
}
use real_time_market_data.Json.{Floats, JsonLib}
use real_time_market_data.Parser.{TimePoint}
use real_time_market_data.Http.{Beast, HttpResponse}
use real_time_market_data.Http as Http
use real_time_market_data.Config.{Config}
use real_time_market_data.Auth.{Tokens, Auth, throws}
use real_time_market_data.Auth.Reply.{data_of, grant, handle_login_response}
use real_time_market_data.Auth.Session.{login_impl}
use real_time_market_data.Auth.Login.{Carries, data_of-Carries, Carries-data_of, response}

module _ {F : Floats} (J : JsonLib F) where
  open J use {Value, contains, value_or}

  -- A member that is there and no text, and the tokens that were written before it was read.
  pub data Torn (d : Value) (old t : Tokens) : Type 0 where
    at_access : value_or d (codes "jwtToken") [] ≡ none → t ≡ old → Torn d old t
    at_refresh :
        (jwt : Text)
        → value_or d (codes "jwtToken") [] ≡ some jwt
        → value_or d (codes "refreshToken") [] ≡ none
        → t ≡ record old { access_token = jwt }
        → Torn d old t
    at_feed :
        (jwt renewal : Text)
        → value_or d (codes "jwtToken") [] ≡ some jwt
        → value_or d (codes "refreshToken") [] ≡ some renewal
        → value_or d (codes "feedToken") [] ≡ none
        → t ≡ record old { access_token = jwt; refresh_token = renewal }
        → Torn d old t

  -- A response that makes the handler throw.
  pub record Throws (resp : HttpResponse) (a a' : Auth) : Type 0 where
    pub reply : Value
    pub carried : Carries J resp reply
    pub has_jwt : contains reply (codes "jwtToken") ≡ true
    pub has_refresh : contains reply (codes "refreshToken") ≡ true
    pub torn : Torn reply a.tokens a'.tokens

  Torn-grant :
      (d : Value) (now : TimePoint) (a a' : Auth)
      → contains d (codes "jwtToken") ≡ true
      → contains d (codes "refreshToken") ≡ true
      → Torn d a.tokens a'.tokens
      → a'.logged ≡ a.logged
      → grant J d now a ≡ (throws, a')
  unfolding grant
  Torn-grant d now a a' j r (at_access x e) l = ground arith
  Torn-grant d now a a' j r (at_refresh jwt x y e) l = ground arith
  Torn-grant d now a a' j r (at_feed jwt renewal x y z e) l = ground arith

  grant-Torn :
      (d : Value) (now : TimePoint) (a a' : Auth)
      → grant J d now a ≡ (throws, a')
      → (contains d (codes "jwtToken") ≡ true)
        × (contains d (codes "refreshToken") ≡ true)
        × Torn d a.tokens a'.tokens
        × (a'.logged ≡ a.logged)
  unfolding grant
  grant-Torn d now a a' h = (ground arith, ground arith, torn, ground arith)
    where
      torn : Torn d a.tokens a'.tokens
      torn = elim (Option-cases (value_or d (codes "jwtToken") [])) [
        | inl x ↦ at_access x (ground (arith, h, x))
        | inr (jwt, x) ↦ elim (Option-cases (value_or d (codes "refreshToken") [])) [
          | inl y ↦ at_refresh jwt x y (ground (arith, h, x, y))
          | inr (renewal, y) ↦
              at_feed jwt renewal x y (ground (arith, h, x, y)) (ground (arith, h, x, y))
        ]
      ]

  module _ (B : Beast) (opts : Http.Options) (cfg : Config) (otp : Text) where
    -- What a login throws on: the exchange, or a response.
    abbrev pub Thrown : Auth → Auth → Type 0
    Thrown a a' =
        ((response J B opts cfg otp ≡ none) × (a'.tokens ≡ a.tokens))
        ⊎ ((resp : HttpResponse) × (response J B opts cfg otp ≡ some resp) × Throws resp a a')

    login_impl-Thrown :
        (now : TimePoint) (a a' : Auth)
        → login_impl J B opts cfg otp now a ≡ (throws, a')
        → Thrown a a' × (a'.logged ≡ a.logged)
    unfolding login_impl handle_login_response
    login_impl-Thrown now a a' h = elim (Option-cases (response J B opts cfg otp)) [
      | inl e ↦ (inl (e, ground (arith, e, h)), ground (arith, e, h))
      | inr (resp, sent) ↦ elim (Option-cases (data_of J resp.body)) [
        | inl e ↦ ground (arith, e, h, sent)
        | inr (d, e) ↦
            let ok : resp.status / 100 ≡ 2 = ground (arith, sent, e, h) in
            let threw : grant J d now a ≡ (throws, a') = ground (arith, sent, e, h) in
            let (j, r, torn, silent) = grant-Torn d now a a' threw in
            (
              inr (
                resp,
                sent,
                record {
                  reply = d;
                  carried = data_of-Carries J resp d ok e;
                  has_jwt = j;
                  has_refresh = r;
                  torn = torn;
                },
              ),
              silent,
            )
      ]
    ]

    Thrown-login_impl :
        (now : TimePoint) (a a' : Auth)
        → Thrown a a'
        → a'.logged ≡ a.logged
        → login_impl J B opts cfg otp now a ≡ (throws, a')
    unfolding login_impl handle_login_response
    Thrown-login_impl now a a' (inl (e, t)) l = ground (arith, e, t, l)
    Thrown-login_impl now a a' (inr (resp, sent, t)) l = ground (
      arith,
      sent,
      (t.carried).status,
      Carries-data_of J resp t.reply t.carried,
      Torn-grant t.reply now a a' t.has_jwt t.has_refresh t.torn l,
    )

    -- A login ends in an exception exactly when its payload has a text that is not UTF-8 or the
    -- exchange throws, with the tokens unchanged, or when the data of a 2xx response has a
    -- "jwtToken" and a "refreshToken" and one of these, or a "feedToken", cannot be read as a text:
    -- the session then has the tokens that were read before the first such one, and the old ones
    -- else. Nothing is logged.
    pub login_impl-throws_iff :
        (now : TimePoint) (a a' : Auth)
        → (login_impl J B opts cfg otp now a ≡ (throws, a'))
          ↔ (Thrown a a' × (a'.logged ≡ a.logged))
    login_impl-throws_iff now a a' =
        (login_impl-Thrown now a a', λ (t, l). Thrown-login_impl now a a' t l)
