-- ===== src/Auth/Tests.antt =====
-- A login that is answered with a time to live, a refresh without one, and refusals.
use real_time_market_data.Base.{
  ◌≡◌, ◌↔◌, refl, Bool, true, false, ℕ, some, List, [], ◌∷◌, ◌++◌, Text, codes, leb, if◌then◌else◌,
  ◌+◌, ◌*◌,
}
use real_time_market_data.Base.Int.{pos, magnitude, is_positive, to_int32, int_of_residue, plus}
use real_time_market_data.Url
use real_time_market_data.Parser
use real_time_market_data.Http.{
  set_all, apply_headers, tls_context, emplace_all, perform_request, http_post, json_headers,
  http_post_json, HttpResponse, Beast, Request,
}
use real_time_market_data.Config.{Config}
use real_time_market_data.Samples.{
  Whole, Small, answering, laws, default_options, login_body, timed_body, torn_body, granted_value,
  timed_value, no_fields,
}
use real_time_market_data.Sharder.{Sharder, set_access_token, build_workers}
use real_time_market_data.Auth.{Auth, Ending, returns, throws, init, auth_headers, is_expired}
use real_time_market_data.Auth.Reply.{
  data_of, grant, renew, renew_token, handle_login_response, handle_refresh_response, ttl_sec,
  int_at, expiry,
}
use real_time_market_data.Auth.Session.{login_impl, refresh}
use real_time_market_data.Auth.Login.{Success, login_impl_iff}
use real_time_market_data.Auth.Refresh.{Renewal, refresh_iff}
use real_time_market_data.Auth.Thrown.{Thrown, login_impl-throws_iff}
use real_time_market_data.Auth.Request.{AsksFor, login_impl-AsksFor}
use real_time_market_data.Auth.Expiry.{at_ms, login_impl-is_expired, refresh-is_expired}
use real_time_market_data.Http.Headers.{last_of, same_name, lower}
use real_time_market_data.Auth.Handshake.{AllGive, login_impl-AllGive}

abbrev cfg : Config
cfg = record {
  api_key = codes "k";
  client_id = codes "c";
  client_secret = codes "s";
  tokens = [];
  splits = [];
}

abbrev log_in : Beast → Auth → Ending Bool × Auth
log_in network = login_impl Small network default_options cfg (codes "123456") (at_ms 1000)

abbrev renew_tokens : Beast → Auth → Ending Bool × Auth
renew_tokens network = refresh Small network default_options cfg (at_ms 9000)

abbrev timed : Beast
timed = answering 200 timed_body

abbrev untimed : Beast
untimed = answering 200 login_body

abbrev refusing : Beast
refusing = answering 401 []

abbrev logged_in : Auth
logged_in = (log_in timed init).1

abbrev renewed : Auth
renewed = (renew_tokens untimed logged_in).1

abbrev refused : Auth
refused = (log_in refusing init).1

answer : Text → HttpResponse
answer body = record { status = 200; body = body; headers = [] }

log_in-timed : log_in timed init ≡ (returns true, logged_in)
unfolding login_impl http_post_json http_post json_headers perform_request tls_context apply_headers
    set_all emplace_all Url.split_url Parser.has_prefix handle_login_response data_of grant ttl_sec
    int_at to_int32 int_of_residue is_positive expiry plus init
log_in-timed = refl

renew_tokens-untimed : renew_tokens untimed logged_in ≡ (returns true, renewed)
unfolding refresh handle_refresh_response renew renew_token login_impl http_post_json http_post
    json_headers perform_request tls_context apply_headers set_all emplace_all Url.split_url
    Parser.has_prefix handle_login_response data_of grant ttl_sec int_at to_int32 int_of_residue
    is_positive expiry plus init
renew_tokens-untimed = refl

login_impl_iff_example :
    (log_in timed init ≡ (returns true, logged_in))
    ↔ Success Small timed default_options cfg (codes "123456") (at_ms 1000) init logged_in
login_impl_iff_example =
    login_impl_iff Small timed default_options cfg (codes "123456") (at_ms 1000) init logged_in

refresh_iff_example :
    (renew_tokens untimed logged_in ≡ (returns true, renewed))
    ↔ Renewal Small untimed default_options cfg (at_ms 9000) logged_in renewed
refresh_iff_example = refresh_iff Small untimed default_options cfg (at_ms 9000) logged_in renewed

login_impl-is_expired_example : is_expired (pos 60) (at_ms 5000) logged_in ≡ (
    if is_positive (ttl_sec Small timed_value)
    then leb (1000 + 1000 * magnitude (ttl_sec Small timed_value)) (5000 + 1000 * 60)
    else false)
login_impl-is_expired_example =
    login_impl-is_expired Small timed default_options cfg (codes "123456") 1000 5000 60 init
      logged_in (answer timed_body) timed_value log_in-timed
      (unfold http_post_json http_post json_headers perform_request tls_context apply_headers
          set_all emplace_all Url.split_url Parser.has_prefix answer in
        refl)
      (unfold data_of answer in refl)

refresh-is_expired_example :
    is_expired (pos 60) (at_ms 5000000) renewed ≡ is_expired (pos 60) (at_ms 5000000) logged_in
unfolding login_impl handle_login_response
refresh-is_expired_example =
    refresh-is_expired Small untimed default_options cfg (at_ms 9000) (at_ms 5000000) (pos 60)
      logged_in renewed (answer login_body) (granted_value no_fields) renew_tokens-untimed
      (unfold http_post_json http_post json_headers perform_request tls_context apply_headers
          set_all emplace_all Url.split_url Parser.has_prefix answer in
        refl)
      (unfold data_of answer in refl) (unfold ttl_sec int_at is_positive in refl)
      (unfold login_impl http_post_json http_post json_headers perform_request tls_context
          apply_headers set_all emplace_all Url.split_url Parser.has_prefix handle_login_response
          data_of grant ttl_sec int_at to_int32 int_of_residue is_positive expiry plus init in
        refl)

abbrev sharder : Sharder Whole
sharder = record {
  parser = record { strip_prefix = [] };
  store = record { entries = [] };
  opts = record {
    wss_url = codes "wss://feed.example/stream";
    max_tokens_per_conn = 800;
    subscribe_batch_size = 100;
    verify_peer = true;
    ca_file = [];
    token_prefix = codes "nse_cm|";
    headers = [];
  };
  auth_header_value = [];
  common_headers = [];
  desired_tokens = codes "7" ∷ [];
  workers = [];
  running = false;
}

login_impl-AllGive_example :
    AllGive timed
      (laws 200 timed_body)
      (codes "Authorization")
      (codes "Bearer " ++ logged_in.tokens.access_token)
      (build_workers (set_access_token (codes "Bearer j") sharder)).workers
login_impl-AllGive_example =
    login_impl-AllGive Small timed (laws 200 timed_body) default_options cfg (codes "123456")
      (at_ms 1000) init logged_in sharder (codes "Bearer j") log_in-timed
      (unfold auth_headers login_impl http_post_json http_post json_headers perform_request
          tls_context apply_headers set_all emplace_all Url.split_url Parser.has_prefix
          handle_login_response data_of grant ttl_sec int_at to_int32 int_of_residue is_positive
          expiry plus init in
        refl)
      (unfold last_of same_name lower in refl)

-- The refresh token is replaced, and the caller gets an exception.
abbrev torn : Auth
torn = (log_in (answering 200 torn_body) init).1

log_in-torn : log_in (answering 200 torn_body) init ≡ (throws, torn)
unfolding login_impl http_post_json http_post json_headers perform_request tls_context apply_headers
    set_all emplace_all Url.split_url Parser.has_prefix handle_login_response data_of grant ttl_sec
    int_at to_int32 int_of_residue is_positive expiry plus init
log_in-torn = refl

refresh_token-torn : torn.tokens.refresh_token ≡ codes "r"
unfolding login_impl http_post_json http_post json_headers perform_request tls_context apply_headers
    set_all emplace_all Url.split_url Parser.has_prefix handle_login_response data_of grant ttl_sec
    int_at to_int32 int_of_residue is_positive expiry plus init
refresh_token-torn = refl

login_impl-throws_iff_example : (log_in (answering 200 torn_body) init ≡ (throws, torn)) ↔ (
    Thrown Small (answering 200 torn_body) default_options cfg (codes "123456") init torn
    × (torn.logged ≡ init.logged))
login_impl-throws_iff_example =
    login_impl-throws_iff Small (answering 200 torn_body) default_options cfg (codes "123456")
      (at_ms 1000) init torn

login_impl-AsksFor_example :
    (req : Request timed.Fields) × (stream : timed.Stream) × (reply : ℕ × Text × List (Text × Text))
    × (timed.exchange req stream ≡ some reply)
    × AsksFor Small timed (laws 200 timed_body) default_options cfg (codes "123456") req
login_impl-AsksFor_example =
    login_impl-AsksFor Small timed (laws 200 timed_body) default_options cfg (codes "123456")
      (at_ms 1000) init logged_in log_in-timed
