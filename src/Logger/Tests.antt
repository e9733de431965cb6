-- ===== src/Logger/Tests.antt =====
-- A logger whose level is raised between two lines, and what becomes of two loggers when one is moved.
use real_time_market_data.Base.{◌≡◌, refl, false, List, [], ◌∷◌, codes}
use real_time_market_data.Logger.{
  warn, level_name, line, Logger, returns, null_mutex, dead_mutex, init, move, assign, guarded,
  Streams, write, emit, log, log_info, Call, info_call, level_call, calls,
}
use real_time_market_data.Logger.Lines.{last_level, all_kept, calls_lem}

abbrev logger : Logger
logger = init (codes "md") 1

abbrev nothing : Streams
nothing = λ o. []

abbrev three_calls : List Call
three_calls =
    info_call (codes "t0") (codes "up")
    ∷ level_call warn
    ∷ info_call (codes "t1") (codes "lost")
    ∷ []

all_kept-three_calls : all_kept (codes "md") logger.level three_calls ≡ codes "t0 [INFO] md: up\n"
unfolding init line level_name
all_kept-three_calls = refl

calls_lem_example :
    calls three_calls logger nothing
    ≡ returns (
      record logger { level = last_level logger.level three_calls },
      write logger.out (all_kept logger.name logger.level three_calls) nothing,
    )
calls_lem_example = calls_lem three_calls logger nothing (unfold init in refl)

-- The old logger cannot write a line after the move, and a move assignment destroys a locked mutex.
log_info-move : log_info (codes "t0") (codes "up") (move logger).1 nothing ≡ null_mutex
unfolding log_info log emit guarded move init
log_info-move = refl

assign-logger : assign false logger (init (codes "other") 2) ≡ dead_mutex
unfolding assign init
assign-logger = refl
