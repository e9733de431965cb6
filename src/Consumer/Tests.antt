-- ===== src/Consumer/Tests.antt =====
-- A consumer that is given two good frames and a bad one.
use real_time_market_data.Base.{◌≡◌, refl, true, List, [], ◌∷◌, codes, arith}
use real_time_market_data.Samples.{Whole, quote_frame, wrapped_frame, noise}
use real_time_market_data.Ingest
use real_time_market_data.Ingest.Invariant.{IsValid, init-IsValid}
use real_time_market_data.Ingest.Window.{contents}
use real_time_market_data.Parser.{Parser}
use real_time_market_data.Store.{empty_store}
use real_time_market_data.Consumer.{Consumer, init}
use real_time_market_data.Consumer.Pipeline.{Event}

abbrev parser : Parser
parser = record { strip_prefix = codes "nse_cm|" }

abbrev begun : Consumer Whole
begun = record (init (Ingest.init 8) parser empty_store) { running = true; joinable = true }

begun-IsValid : IsValid begun.queue
unfolding init
begun-IsValid = init-IsValid 8 (omega arith)

begun-on : begun.running ≡ true
begun-on = refl

begun-contents : contents begun.queue ≡ []
unfolding init Ingest.init
begun-contents = refl

abbrev schedule : List Event
schedule =
    Event.arrives quote_frame
    ∷ Event.round
    ∷ Event.round
    ∷ Event.arrives noise
    ∷ Event.arrives wrapped_frame
    ∷ Event.round
    ∷ []

-- The same consumer with a frame in its queue.
abbrev loaded : Consumer Whole
loaded = record begun { queue = (Ingest.try_push quote_frame begun.queue).1 }

loaded-contents : contents loaded.queue ≡ quote_frame ∷ []
unfolding init Ingest.init Ingest.try_push Ingest.next_pow2 Ingest.capacity
loaded-contents = refl
