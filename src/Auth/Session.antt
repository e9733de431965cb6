-- ===== src/Auth/Session.antt =====
-- src/auth.cpp: the login and the refresh, with their requests.
use real_time_market_data.Base.{
  ◌/◌, Bool, true, false, Option, none, some, not, List, [], ◌∷◌, ◌++◌, Text, codes, ◌==◌, is_empty,
  if◌then◌else◌,
}
use real_time_market_data.Base.Map.{put}
use real_time_market_data.Json.{Floats, JsonLib}
use real_time_market_data.Config.{Config}
use real_time_market_data.Logger.{info, warn, error}
use real_time_market_data.Parser.{TimePoint}
use real_time_market_data.Http.{Beast, HttpResponse, http_post_json}
use real_time_market_data.Http as Http
use real_time_market_data.Totp.{decimal}
use real_time_market_data.Auth.{Call, ret, attempt, get, log, ◌>>=◌, ◌>>◌}
use real_time_market_data.Auth.Reply.{handle_login_response, handle_refresh_response}

unfoldable pub common_headers : Config → List (Text × Text)
unfolding put
common_headers cfg = put (codes "X-SourceID") (codes "WEB") (
    put (codes "X-UserType") (codes "USER") (
      put (codes "X-PrivateKey") cfg.api_key (
        put (codes "Accept") (codes "application/json")
          (put (codes "Content-Type") (codes "application/json") []))))

abbrev pub login_url : Text
login_url =
    codes "https://apiconnect.angelone.in"
    ++ codes "/rest/auth/angelbroking/user/v1/loginByPassword"

abbrev pub refresh_url : Text
refresh_url =
    codes "https://apiconnect.angelone.in" ++ codes "/rest/auth/angelbroking/jwt/v1/generateTokens"

abbrev pub login_refused : Text
login_refused = codes "Auth.login failed: unable to parse/validate login response"

abbrev pub refresh_refused : Text
refresh_refused = codes "Auth.refresh failed: unable to parse/validate response"

-- The line for a status other than 2xx.
pub status_error : Text → HttpResponse → Text
status_error what resp = what ++ decimal resp.status ++ codes " body=" ++ resp.body

module _ {F : Floats} (J : JsonLib F) (B : Beast) (opts : Http.Options) (cfg : Config) where
  open J use {Value, is_utf8, dump, of_string, of_fields}

  -- `none` is the exception of `dump`.
  abbrev dump_text : Value → Option Text
  dump_text v = if is_utf8 v then some (dump v) else none

  abbrev pub otp_payload : Text → Option Text
  otp_payload otp = dump_text (
      of_fields (
        (codes "clientcode", of_string cfg.client_id)
        ∷ (codes "password", of_string cfg.client_secret)
        ∷ (codes "totp", of_string otp)
        ∷ []))

  abbrev pub renewal_payload : Text → Option Text
  renewal_payload token = dump_text (of_fields ((codes "refreshToken", of_string token) ∷ []))

  -- The request with a payload, if there is one.
  abbrev pub post_payload : Text → Option Text → Option HttpResponse
  post_payload url none = none
  post_payload url (some body) = http_post_json B opts url body (common_headers cfg) []

  -- The clock is read when the response is there.
  unfoldable pub login_impl : Text → TimePoint → Call Bool
  login_impl otp now = do
    resp ← attempt (post_payload login_url (otp_payload otp))
    if not (resp.status / 100 == 2)
        then (do log error (status_error (codes "Auth.login failed: HTTP ") resp); ret false)
        else do
          ok ← handle_login_response J resp.body now
          if not ok
              then (do log error login_refused; ret false)
              else do log info (codes "Auth.login success"); ret true

  login_with_totp : Text → TimePoint → Call Bool
  unfolding login_impl
  login_with_totp totp now = login_impl totp now

  login_with_cotp : Text → TimePoint → Call Bool
  unfolding login_impl
  login_with_cotp cotp now = login_impl cotp now

  unfoldable pub refresh : TimePoint → Call Bool
  refresh now = do
    token ← get (λ a. a.tokens.refresh_token)
    if is_empty token
        then (do log warn (codes "Auth.refresh called without refresh_token"); ret false)
        else do
          resp ← attempt (post_payload refresh_url (renewal_payload token))
          if not (resp.status / 100 == 2)
              then (do
                log error (status_error (codes "Auth.refresh failed: HTTP ") resp)
                ret false)
              else do
                ok ← handle_refresh_response J resp.body now
                if not ok
                    then (do log error refresh_refused; ret false)
                    else do log info (codes "Auth.refresh success"); ret true
