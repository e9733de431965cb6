-- ===== src/Url/Tests.antt =====
-- A URL without a port and a path.
use real_time_market_data.Base.{◌≡◌, refl, codes, some}
use real_time_market_data.Url.{split_url, split_rest, split_host, cut_at}
use real_time_market_data.Parser.{has_prefix}

split_plain :
    split_url (codes "wss://") (codes "wss://feed.in")
    ≡ some (record { host = codes "feed.in"; port = codes "443"; target = codes "/" })
unfolding split_url split_rest split_host cut_at has_prefix
split_plain = refl
