-- ===== src/Auth/Handshake.antt =====
-- From the login to the handshakes: the access token in the headers of every worker of src/sharder.cpp.
use real_time_market_data.Base.{
  ◌≡◌, refl, ap, ◌∙◌, true, false, List, [], ◌∷◌, ◌++◌, none, some, Text, text_eq_iff, text_eq_refl,
  is_empty, codes, map, All, arith,
}
use real_time_market_data.Base.Map.{lookup, put}
use real_time_market_data.Json.{Floats, JsonLib}
use real_time_market_data.Parser.{TimePoint}
use real_time_market_data.Http.{Beast}
use real_time_market_data.Http as Http
use real_time_market_data.Http.Headers.{FieldLaws, last_of, same_name, lower}
use real_time_market_data.Config.{Config}
use real_time_market_data.Sharder.{Sharder, set_access_token, build_workers, effective_headers}
use real_time_market_data.Sharder.Workers.{Worker, make_worker}
use real_time_market_data.Sharder.Handshakes.{AllCarry, AllSend, AllCarry-AllSend}
use real_time_market_data.WebSocket
use real_time_market_data.WebSocket.Handshake.{decorate}
use real_time_market_data.Auth.{Auth, returns, auth_headers}
use real_time_market_data.Auth.Session.{login_impl}
use real_time_market_data.Auth.Login.{login_impl_iff}

make_worker-AllCarry :
    {F : Floats} (J : JsonLib F) (s : Sharder F) (headers : List (Text × Text))
    (pieces : List (List Text))
    → AllCarry J headers (map (make_worker s.opts headers s.parser s.store) pieces)
unfolding make_worker WebSocket.init
make_worker-AllCarry J s headers [] = tt
make_worker-AllCarry J s headers (p ∷ ps) = (refl, make_worker-AllCarry J s headers ps)

same_name_refl : (k : Text) → same_name k k ≡ true
unfolding same_name
same_name_refl k = text_eq_refl (map lower k)

-- A header that is put where there was none of its name is the one that counts.
last_of-put :
    (k v : Text) (m : List (Text × Text)) → last_of k m ≡ none → last_of k (put k v m) ≡ some v
unfolding last_of put
last_of-put k v [] h = ground (arith, same_name_refl k)
last_of-put k v ((j, w) ∷ m) h =
    ground (arith, same_name_refl k, text_eq_iff j k, last_of-put k v m)

last_of-effective_headers :
    {F : Floats} (s : Sharder F) (value : Text)
    → is_empty value ≡ false
    → last_of (codes "Authorization") s.common_headers ≡ none
    → last_of (codes "Authorization") (effective_headers (set_access_token value s)) ≡ some value
unfolding effective_headers set_access_token
last_of-effective_headers s value full none_before =
    rw full (last_of-put (codes "Authorization") value s.common_headers none_before)

-- What the next handshake of every worker has under a name, whatever the request had before.
abbrev pub AllGive : {F : Floats} (B : Beast) → FieldLaws B → Text → Text → List (Worker F) → Type 0
AllGive B L name value ws =
    All (λ w. (fs : B.Fields) → L.find name (decorate B w.ws fs) ≡ some value) ws

AllSend-AllGive :
    {F : Floats} (B : Beast) (L : FieldLaws B) (headers : List (Text × Text)) (name value : Text)
    (ws : List (Worker F))
    → last_of name headers ≡ some value
    → AllSend B L headers ws
    → AllGive B L name value ws
AllSend-AllGive B L headers name value [] h all = tt
AllSend-AllGive B L headers name value (w ∷ ws) h all =
    (λ fs. all.0 name fs ∙ rw h refl, AllSend-AllGive B L headers name value ws h all.1)

module _ {F : Floats} (J : JsonLib F) (B : Beast) (L : FieldLaws B) (opts : Http.Options)
    (cfg : Config) where
  -- After a login that succeeds, where the header value that auth_headers gives is set as the access
  -- token of a sharder whose common headers have no "Authorization" in any spelling, and the fields
  -- of a request behave as a map whose names ignore case: the decorator of every worker that is
  -- built gives a handshake "Bearer " and the access token under "Authorization".
  pub login_impl-AllGive :
      (otp : Text) (now : TimePoint) (a a' : Auth) (s : Sharder F) (value : Text)
      → login_impl J B opts cfg otp now a ≡ (returns true, a')
      → lookup (codes "Authorization") (auth_headers a') ≡ some value
      → last_of (codes "Authorization") s.common_headers ≡ none
      → AllGive B L
          (codes "Authorization")
          (codes "Bearer " ++ a'.tokens.access_token)
          (build_workers (set_access_token value s)).workers
  unfolding auth_headers build_workers
  login_impl-AllGive otp now a a' s value h given alone =
      let (resp, d, sent, carried, g, e) = (login_impl_iff J B opts cfg otp now a a').0 h in
      let bearer : value ≡ codes "Bearer " ++ a'.tokens.access_token =
        ground (arith, g.nonempty, given) in
      let t = set_access_token value s in
      let headers = effective_headers t in
      AllSend-AllGive B L headers (codes "Authorization") _ _
        (last_of-effective_headers s value (rw bearer refl) alone ∙ ap some bearer)
        (AllCarry-AllSend J B L headers _ (make_worker-AllCarry J t headers _))
