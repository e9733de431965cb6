-- ===== src/Auth/Expiry.antt =====
-- When a session counts as expired: after a login, and after a refresh.
use real_time_market_data.Base.{
  ℕ, ◌+◌, ◌*◌, ◌≡◌, refl, sym, true, false, some, Text, is_empty, leb, if◌then◌else◌, arith,
}
use real_time_market_data.Base.Int.{ℤ, pos, negsuc, magnitude, plus, leb_int, is_positive}
use real_time_market_data.Json.{Floats, JsonLib}
use real_time_market_data.Parser.{TimePoint}
use real_time_market_data.Http.{Beast, HttpResponse, http_post_json}
use real_time_market_data.Http as Http
use real_time_market_data.Config.{Config}
use real_time_market_data.Auth.{Auth, epoch, returns, is_expired}
use real_time_market_data.Auth.Reply.{ttl_sec, expiry, data_of}
use real_time_market_data.Auth.Session.{login_impl, refresh}
use real_time_market_data.Auth.Login.{Carries-data_of, response, login_impl_iff}
use real_time_market_data.Auth.Refresh.{renewal, refresh_iff}

abbrev pub at_ms : ℕ → TimePoint
at_ms n = record { ms = pos n }

-- An expiry that was computed from a time after the epoch.
is_expired-expiry :
    (n m k : ℕ) (ttl : ℤ) (a : Auth)
    → is_empty a.tokens.access_token ≡ false
    → a.tokens.expires_at ≡ (if is_positive ttl then expiry (at_ms n) ttl else epoch)
    → is_expired (pos k) (at_ms m) a
      ≡ (if is_positive ttl then leb (n + 1000 * magnitude ttl) (m + 1000 * k) else false)
unfolding is_expired expiry is_positive plus leb_int
is_expired-expiry n m k (pos s) a h e = ground (arith, h, e)
is_expired-expiry n m k (negsuc s) a h e = ground (arith, h, e)

module _ {F : Floats} (J : JsonLib F) (B : Beast) (opts : Http.Options) (cfg : Config) where
  open J use {Value}

  -- For a login that succeeds at n ms after the epoch: with a positive time to live, is_expired at m
  -- ms is true exactly when n plus the time to live is at most m plus the skew; without one it is
  -- false for ever.
  pub login_impl-is_expired :
      (otp : Text) (n m k : ℕ) (a a' : Auth) (resp : HttpResponse) (d : Value)
      → login_impl J B opts cfg otp (at_ms n) a ≡ (returns true, a')
      → response J B opts cfg otp ≡ some resp
      → data_of J resp.body ≡ some d
      → is_expired (pos k) (at_ms m) a' ≡ (
          if is_positive (ttl_sec J d)
          then leb (n + 1000 * magnitude (ttl_sec J d)) (m + 1000 * k)
          else false)
  login_impl-is_expired otp n m k a a' resp d h sent is_data =
      let (resp', d', sent', carried, g, e) =
        (login_impl_iff J B opts cfg otp (at_ms n) a a').0 h in
      let same : d' ≡ d = cc (sent, sent', is_data, Carries-data_of J resp' d' carried) in
      is_expired-expiry n m k (ttl_sec J d) a' g.nonempty (rw (sym same) g.expires)

  -- Where a session with an access token is refreshed with success by a response without a positive
  -- time to live, is_expired says at every time and for every skew what it said before the refresh.
  pub refresh-is_expired :
      (now later : TimePoint) (skew : ℤ) (a a' : Auth) (resp : HttpResponse) (d : Value)
      → refresh J B opts cfg now a ≡ (returns true, a')
      → renewal J B opts cfg a ≡ some resp
      → data_of J resp.body ≡ some d
      → is_positive (ttl_sec J d) ≡ false
      → is_empty a.tokens.access_token ≡ false
      → is_expired skew later a' ≡ is_expired skew later a
  unfolding is_expired
  refresh-is_expired now later skew a a' resp d h sent is_data no_ttl held =
      let (resp', d', stored, sent', carried, r, e) = (refresh_iff J B opts cfg now a a').0 h in
      let same : d' ≡ d = cc (sent, sent', is_data, Carries-data_of J resp' d' carried) in
      let kept : a'.tokens.expires_at ≡ a.tokens.expires_at =
        ground (arith, same, no_ttl, r.expires) in
      rw (r.nonempty, held, kept) refl
