-- ===== src/Url.antt =====
-- The splitting of a URL, which src/websocket_client.cpp (parse_wss) and src/http_client.cpp
-- (parse_https_url) write out alike, each for its own scheme.
pub mod Split
mod Tests
use real_time_market_data.Base.{
  ℕ, Bool, true, false, List, [], ◌∷◌, ◌++◌, Option, none, some, Text, codes, ◌==◌, if◌then◌else◌,
  length, drop, is_empty,
}
use real_time_market_data.Parser.{has_prefix}

pub record UrlParts : Type 0 where
  pub host : Text
  pub port : Text
  pub target : Text

-- `find(c)`, with `substr` on either side of the hit: the text before the first `c`, and that from it on.
unfoldable pub cut_at : ℕ → Text → Option (Text × Text)
cut_at c [] = none
cut_at c (a ∷ s) =
    let rest = cut_at c s in
    if a == c then some ([], a ∷ s) else elim rest [ none ↦ none | some (x, y) ↦ some (a ∷ x, y) ]

abbrev pub default_port : Text
default_port = codes "443"

-- `port` is what follows the colon, unless that is nothing.
unfoldable pub split_host : Text → Text → UrlParts
split_host hostport target = elim (cut_at b':' hostport) [
  | none ↦ record { host = hostport; port = default_port; target = target }
  | some (host, rest) ↦ record {
    host = host;
    port = if is_empty (drop 1 rest) then default_port else drop 1 rest;
    target = target;
  }
]

unfoldable pub split_rest : Text → UrlParts
split_rest rest = elim (cut_at b'/' rest) [
  | none ↦ split_host rest (codes "/")
  | some (hostport, target) ↦ split_host hostport target
]

-- `none` is the exception for another scheme.
unfoldable pub split_url : Text → Text → Option UrlParts
split_url scheme full =
    if has_prefix scheme full then some (split_rest (drop (length scheme) full)) else none
