-- ===== src/Auth/Reply.antt =====
-- src/auth.cpp: the responses to a login and to a refresh.
use real_time_market_data.Base.{
  Bool, true, false, not, ◌&&◌, ◌||◌, [], Option, none, some, Text, codes, is_empty, if◌then◌else◌,
}
use real_time_market_data.Base.Int.{ℤ, pos, scale, plus, is_positive, to_int32}
use real_time_market_data.Json.{Floats, JsonLib}
use real_time_market_data.Parser.{TimePoint}
use real_time_market_data.Auth.{epoch, Call, ret, attempt, get, assign, ◌>>=◌, ◌>>◌}

-- `now() + seconds(ttl)`
unfoldable pub expiry : TimePoint → ℤ → TimePoint
unfolding plus
expiry now ttl = record { ms = plus now.ms (scale 1000 ttl) }

module _ {F : Floats} (J : JsonLib F) where
  open J use {
    Value, parse, is_object, is_number_integer, contains, at, get_integer, dump, of_string,
    of_fields, value_or,
  }

  -- An integer member, read into an `int`.
  unfoldable pub int_at : Value → Text → Option ℤ
  unfolding to_int32
  int_at d key =
      if contains d key && is_number_integer (at d key)
      then some (to_int32 (get_integer (at d key)))
      else none

  unfoldable pub ttl_sec : Value → ℤ
  unfolding int_at
  ttl_sec d = elim (int_at d (codes "expiresIn")) [
    | some t ↦ t
    | none ↦ elim (int_at d (codes "jwtTokenTTL")) [ some t ↦ t | none ↦ pos 0 ]
  ]

  -- The object in "data", where the body has one.
  unfoldable pub data_of : Text → Option Value
  data_of body = elim (parse body) [
    | none ↦ none
    | some j ↦
        if not (contains j (codes "data")) || not (is_object (at j (codes "data")))
        then none
        else some (at j (codes "data"))
  ]

  unfoldable pub grant : Value → TimePoint → Call Bool
  unfolding ttl_sec expiry is_positive
  grant d now =
      if not (contains d (codes "jwtToken")) || not (contains d (codes "refreshToken"))
      then ret false
      else do
        jwt ← attempt (value_or d (codes "jwtToken") [])
        assign (λ t. record t { access_token = jwt })
        renewal ← attempt (value_or d (codes "refreshToken") [])
        assign (λ t. record t { refresh_token = renewal })
        feed ← attempt (value_or d (codes "feedToken") [])
        assign (λ t. record t { feed_token = feed })
        assign (λ t. record t {
          expires_at = if is_positive (ttl_sec d) then expiry now (ttl_sec d) else epoch;
        })
        get (λ a. not (is_empty a.tokens.access_token))

  unfoldable pub handle_login_response : Text → TimePoint → Call Bool
  unfolding data_of grant
  handle_login_response body now = elim (data_of body) [ none ↦ ret false | some d ↦ grant d now ]

  -- A refresh token in the response replaces the stored one.
  unfoldable pub renew_token : Value → Call Unit
  renew_token d =
      if contains d (codes "refreshToken")
      then (do
        old ← get (λ a. a.tokens.refresh_token)
        renewal ← attempt (value_or d (codes "refreshToken") old)
        assign (λ t. record t { refresh_token = renewal }))
      else ret tt

  unfoldable pub renew : Value → TimePoint → Call Bool
  unfolding renew_token ttl_sec expiry is_positive
  renew d now = do
    new_jwt ← attempt (value_or d (codes "jwtToken") [])
    if is_empty new_jwt then ret false else do
      assign (λ t. record t { access_token = new_jwt })
      renew_token d
      old_feed ← get (λ a. a.tokens.feed_token)
      feed ← attempt (value_or d (codes "feedToken") old_feed)
      assign (λ t. record t { feed_token = feed })
      assign (λ t.
          if is_positive (ttl_sec d) then record t { expires_at = expiry now (ttl_sec d) } else t)
      ret true

  unfoldable pub handle_refresh_response : Text → TimePoint → Call Bool
  unfolding data_of renew
  handle_refresh_response body now = elim (data_of body) [ none ↦ ret false | some d ↦ renew d now ]
