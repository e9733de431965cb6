-- ===== src/WebSocket/Handshake.antt =====
-- src/websocket_client.cpp: what connect_once sets up for its handshakes, the TLS context and the
-- decorator that writes the header fields of the request. Boost and OpenSSL are the parameter `Beast`.
use real_time_market_data.Base.{
  ◌≡◌, refl, not, List, [], ◌∷◌, Option, some, Text, is_empty, if◌then◌else◌, ◌>>=◌, arith, or_else,
}
use real_time_market_data.Http.{Beast}
use real_time_market_data.Http.Headers.{FieldLaws, last_of}
use real_time_market_data.WebSocket.{Options, Client}

module _ (B : Beast) where
  open B use {Fields, Context, set, load_verify_file, set_verify_peer}

  -- The part that precedes the connection. The context has the system's certificates.
  set_up_tls : Options → Context → Option Context
  set_up_tls o system = do
    loaded ← (if not (is_empty o.ca_file) then load_verify_file o.ca_file system else some system)
    set_verify_peer o.verify_peer loaded

  -- The loop over the headers.
  set_fields : List (Text × Text) → Fields → Fields
  set_fields [] fs = fs
  set_fields ((k, v) ∷ kvs) fs = set_fields kvs (set k v fs)

  pub decorate : Client → Fields → Fields
  unfolding set_fields
  decorate c fs = set_fields c.opts.headers fs

module _ (B : Beast) (L : FieldLaws B) where
  open L use {find, find-set}

  find-set_fields :
      (k : Text) (kvs : List (Text × Text)) (fs : B.Fields)
      → find k (set_fields B kvs fs) ≡ or_else (last_of k kvs) (find k fs)
  unfolding set_fields last_of
  find-set_fields k [] fs = refl
  find-set_fields k ((j, v) ∷ kvs) fs =
      ground (arith, find-set_fields k kvs (B.set j v fs), find-set j k v fs)

  -- The last header of a name wins, and the fields that were there come after all headers.
  pub find-decorate :
      (k : Text) (c : Client) (fs : B.Fields)
      → find k (decorate B c fs) ≡ or_else (last_of k c.opts.headers) (find k fs)
  unfolding decorate
  find-decorate k c fs = find-set_fields k c.opts.headers fs
