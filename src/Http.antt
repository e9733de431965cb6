-- ===== src/Http.antt =====
-- src/http_client.cpp, include/http_client.h: requests over HTTPS. What Boost.Beast, OpenSSL and the
-- network do is a parameter, the record `Beast`.
pub mod Encoding
pub mod Query
pub mod Target
pub mod Headers
pub mod Exchange
mod Tests
use Prim.Native.Nat.{bit_and}
use real_time_market_data.Base.{
  ℕ, ◌+◌, ◌-◌, ◌/◌, ◌%◌, Bool, true, false, not, ◌&&◌, ◌||◌, List, [], ◌∷◌, ◌++◌, Option, none,
  some, Text, codes, ltb, leb, ◌==◌, if◌then◌else◌, is_empty, is_some, ◌>>=◌,
}
use real_time_market_data.Base.Map.{lookup, put, remove}
use real_time_market_data.Url.{UrlParts, split_url, cut_at}

-- `std::isalnum` in the "C" locale, and the four marks.
pub is_plain : ℕ → Bool
is_plain c =
    (leb b'0' c && leb c b'9')
    || (leb b'A' c && leb c b'Z')
    || (leb b'a' c && leb c b'z')
    || (c == b'_')
    || (c == b'-')
    || (c == b'.')
    || (c == b'~')

-- The table "0123456789ABCDEF".
pub hex : ℕ → ℕ
hex n = if ltb n 10 then b'0' + n else b'A' + (n - 10)

pub url_encode : Text → Text
unfolding is_plain hex
url_encode [] = []
url_encode (c ∷ s) =
    let rest = url_encode s in
    if is_plain c then c ∷ rest else b'%' ∷ hex (c / 16) ∷ hex (bit_and c 15) ∷ rest

-- A map is the list of its entries in order; the first entry has no '&' in front.
unfoldable pub query_entries : Bool → List (Text × Text) → Text
unfolding url_encode
query_entries first [] = []
query_entries first ((k, v) ∷ q) =
    let rest = query_entries false q in
    (if first then [] else b'&' ∷ []) ++ url_encode k ++ b'=' ∷ url_encode v ++ rest

unfoldable pub build_query_string : List (Text × Text) → Text
unfolding query_entries
build_query_string q = query_entries true q

-- `none` is the exception.
unfoldable pub parse_https_url : Text → List (Text × Text) → Option UrlParts
unfolding build_query_string
parse_https_url url query = do
  parts ← split_url (codes "https://") url
  let qs = build_query_string query
  let mark = if is_some (cut_at b'?' parts.target) then b'&' else b'?'
  some (if is_empty qs then parts else record parts { target = parts.target ++ mark ∷ qs })

-- Times are in milliseconds.
pub record Options : Type 0 where
  pub timeout : ℕ
  pub verify_peer : Bool
  pub ca_file : Text
  pub user_agent : Text
  pub default_headers : List (Text × Text)

set_default_header : Text → Text → Options → Options
set_default_header k v o = record o { default_headers = put k v o.default_headers }

erase_default_header : Text → Options → Options
erase_default_header k o = record o { default_headers = remove k o.default_headers }

pub record HttpResponse : Type 0 where
  pub status : ℕ
  pub body : Text
  pub headers : List (Text × Text)

pub record Request (Fields : Type 0) : Type 0 where
  pub is_post : Bool
  pub target : Text
  pub body : Text
  pub fields : Fields

-- What the client calls. `none` is an exception.
pub record Beast : Type 1 where
  -- The header fields of a request; `set` replaces, and ignores the case of names.
  pub Fields : Type 0
  pub no_fields : Fields
  pub set : Text → Text → Fields → Fields
  pub prepare_payload : Request Fields → Request Fields
  -- The TLS context with the system's certificates, the addresses of a host, and a stream.
  pub Context : Type 0
  pub Addresses : Type 0
  pub Stream : Type 0
  pub new_context : Option Context
  pub load_verify_file : Text → Context → Option Context
  pub set_verify_peer : Bool → Context → Option Context
  pub resolve : Text → Text → Option Addresses
  -- expires_after and connect
  pub connect : Context → ℕ → Addresses → Option Stream
  pub set_host_name : Text → Stream → Option Stream
  pub handshake : Stream → Option Stream
  -- write and read: the status, the body and the fields of the response in order
  pub exchange : Request Fields → Stream → Option (ℕ × Text × List (Text × Text))

-- `emplace` of an ordered map: nothing changes if the name is there.
pub emplace : Text → Text → List (Text × Text) → List (Text × Text)
emplace k v m = if is_some (lookup k m) then m else put k v m

unfoldable pub emplace_all : List (Text × Text) → List (Text × Text) → List (Text × Text)
unfolding emplace
emplace_all [] m = m
emplace_all ((k, v) ∷ kvs) m = emplace_all kvs (emplace k v m)

module _ (B : Beast) where
  open B use {Fields, no_fields, set, prepare_payload}

  unfoldable pub set_all : List (Text × Text) → Fields → Fields
  set_all [] fs = fs
  set_all ((k, v) ∷ kvs) fs = set_all kvs (set k v fs)

  unfoldable pub apply_headers : Options → List (Text × Text) → Fields → Fields
  unfolding set_all
  apply_headers o headers fs =
      set_all headers (set_all o.default_headers (set (codes "User-Agent") o.user_agent fs))

  unfoldable pub tls_context : Options → Option B.Context
  tls_context o = do
    system ← B.new_context
    loaded ← (if not (is_empty o.ca_file) then B.load_verify_file o.ca_file system else some system)
    B.set_verify_peer o.verify_peer loaded

  -- The shutdown at the end is best effort: its error is dropped.
  unfoldable pub perform_request : Options → Text → Text → Request Fields → Option HttpResponse
  unfolding tls_context emplace_all
  perform_request o host port req = do
    context ← tls_context o
    results ← B.resolve host port
    tcp ← B.connect context o.timeout results
    named ← B.set_host_name host tcp
    stream ← B.handshake named
    let sent = record req { fields = set (codes "Host") host req.fields }
    (status, body, fields) ← B.exchange sent stream
    some (record { status = status; body = body; headers = emplace_all fields [] })

  pub http_get : Options → Text → List (Text × Text) → List (Text × Text) → Option HttpResponse
  unfolding parse_https_url apply_headers perform_request
  http_get o url headers query = do
    u ← parse_https_url url query
    perform_request o u.host u.port (record {
      is_post = false;
      target = u.target;
      body = [];
      fields = apply_headers o headers no_fields;
    })

  unfoldable pub http_post :
      Options → Text → Text → Text → List (Text × Text) → List (Text × Text) → Option HttpResponse
  unfolding parse_https_url apply_headers perform_request
  http_post o url body content_type headers query = do
    u ← parse_https_url url query
    let req =
        prepare_payload
          (record { is_post = true; target = u.target; body = body; fields = no_fields })
    perform_request o u.host u.port (record req {
      fields = apply_headers o headers (set (codes "Content-Type") content_type req.fields);
    })

  -- The headers that post_json passes on.
  unfoldable pub json_headers : List (Text × Text) → List (Text × Text)
  json_headers headers =
      if not (is_some (lookup (codes "Content-Type") headers))
      then put (codes "Content-Type") (codes "application/json") headers
      else headers

  unfoldable pub http_post_json :
      Options → Text → Text → List (Text × Text) → List (Text × Text) → Option HttpResponse
  unfolding http_post json_headers
  http_post_json o url body headers query =
      http_post o url body (codes "application/json") (json_headers headers) query
