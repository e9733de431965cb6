-- ===== src/Parser/Tests.antt =====
-- The parser on a few frames.
use real_time_market_data.Base.{◌≡◌, refl, codes, none, some, ◌↔◌}
use real_time_market_data.Base.Int.{pos}
use real_time_market_data.Samples
use real_time_market_data.Samples.{
  Whole, Small, quote_value, quote_frame, wrapped_frame, priceless_frame,
}
use real_time_market_data.Parser.{
  Parser, Ltp, normalize, get_string_any, get_number_any, get_time_any, read_frame, first_of_array,
  unwrap_data, parse_ltp,
}
use real_time_market_data.Parser.Frame.{frame_of}
use real_time_market_data.Parser.Accepted.{Reads, parse_ltp_iff}

abbrev parser : Parser
parser = record { strip_prefix = codes "nse_cm|" }

abbrev quote : Ltp Whole
quote = record { token = codes "7"; ltp = pos 101; ts = record { ms = pos 0 } }

parse_quote : parse_ltp Small parser quote_frame ≡ some quote
unfolding parse_ltp read_frame first_of_array unwrap_data normalize get_string_any get_number_any
    get_time_any
parse_quote = refl

parse_priceless : parse_ltp Small parser priceless_frame ≡ none
unfolding parse_ltp read_frame first_of_array unwrap_data normalize get_string_any get_number_any
    get_time_any
parse_priceless = refl

parse_ltp_iff_example : (parse_ltp Small parser quote_frame ≡ some quote) ↔ (
    (j : Samples.Value) × (Samples.parse quote_frame ≡ some j)
    × Reads Small parser (frame_of Small j) quote)
parse_ltp_iff_example = parse_ltp_iff Small parser quote_frame quote
