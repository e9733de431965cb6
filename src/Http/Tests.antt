-- ===== src/Http/Tests.antt =====
-- A query with separators in it, and a request over a network that answers everything alike.
use real_time_market_data.Base.{◌≡◌, refl, [], ◌∷◌, ◌++◌, some, List, Text, codes, arith}
use real_time_market_data.Url.{UrlParts, split_url, split_rest, split_host, cut_at}
use real_time_market_data.Parser
use real_time_market_data.Http.{
  is_plain, hex, url_encode, query_entries, build_query_string, parse_https_url, HttpResponse,
  Beast, set_all, apply_headers, tls_context, emplace_all, perform_request, http_post, json_headers,
  http_post_json,
}
use real_time_market_data.Http.Target.{path_of, query_of, parse_https_url-query_of}
use real_time_market_data.Http.Exchange.{posts_json, ask, Exchanged, ask-Exchanged}
use real_time_market_data.Samples.{answering, laws, default_options}

url_encode-pair : url_encode (codes "a&b c") ≡ codes "a%26b%20c"
unfolding url_encode is_plain hex
url_encode-pair = refl

abbrev entries : List (Text × Text)
entries = (codes "a", codes "1&2") ∷ (codes "b", []) ∷ []

abbrev bare : UrlParts
bare = record { host = codes "h"; port = codes "443"; target = codes "/p?x=y" }

parse_https_url-query_of_example :
    (u : UrlParts) × (parse_https_url (codes "https://h/p?x=y") entries ≡ some u)
    × (u.host ≡ bare.host)
    × (u.port ≡ bare.port)
    × (path_of u.target ≡ path_of bare.target)
    × (query_of u.target ≡ query_of bare.target ++ entries)
parse_https_url-query_of_example =
    parse_https_url-query_of (codes "https://h/p?x=y") entries bare (ground arith) (
      unfold parse_https_url split_url split_rest split_host cut_at Parser.has_prefix
        build_query_string query_entries in
      refl)

abbrev network : Beast
network = answering 200 (codes "ok")

abbrev answered : HttpResponse
answered = record { status = 200; body = codes "ok"; headers = [] }

ask-Exchanged_example :
    Exchanged network
      (laws 200 (codes "ok"))
      default_options
      (codes "https://h/p")
      (posts_json (codes "{}"))
      (json_headers network [])
      entries
      answered
ask-Exchanged_example =
    ask-Exchanged network (laws 200 (codes "ok")) default_options (posts_json (codes "{}"))
      (codes "https://h/p") [] entries answered
      (unfold ask http_post_json http_post json_headers perform_request tls_context apply_headers
          set_all emplace_all Parser.has_prefix split_url in
        refl)
