-- ===== src/Logger/Lines.antt =====
-- What a logger writes.
use real_time_market_data.Base.{
  ℕ, ◌≡◌, refl, ap, sym, true, List, [], ◌∷◌, ◌++◌, Option, none, some, Text, leb, if◌then◌else◌,
  flatten, arith, append_assoc, append-nil, fun_ext,
}
use real_time_market_data.Logger.{
  LogLevel, trace, debug, info, warn, error, rank, line, Logger, returns, Streams, write, guarded,
  emit, log, log_trace, log_debug, log_info, log_warn, log_error, info_fmt, set_level, Call,
  trace_call, debug_call, info_call, warn_call, error_call, log_call, fmt_call, level_call, call,
  calls, ◌>>=◌,
}

-- What a call asks to be written, with its time and its level.
abbrev pub message : Call → Option (Text × LogLevel × Text)
message (trace_call t m) = some (t, trace, m)
message (debug_call t m) = some (t, debug, m)
message (info_call t m) = some (t, info, m)
message (warn_call t m) = some (t, warn, m)
message (error_call t m) = some (t, error, m)
message (log_call t lvl m) = some (t, lvl, m)
message (fmt_call t f args) = some (t, info, flatten args)
message (level_call lvl) = none

-- The level in force after a call.
abbrev level_after : LogLevel → Call → LogLevel
level_after lvl (level_call new) = new
level_after lvl _ = lvl

-- The line of a message that is at or above the level in force.
abbrev pub kept : Text → LogLevel → Option (Text × LogLevel × Text) → Text
kept name level none = []
kept name level (some (t, lvl, m)) = if leb (rank level) (rank lvl) then line t lvl name m else []

abbrev pub last_level : LogLevel → List Call → LogLevel
last_level level [] = level
last_level level (c ∷ cs) = last_level (level_after level c) cs

abbrev pub all_kept : Text → LogLevel → List Call → Text
all_kept name level [] = []
all_kept name level (c ∷ cs) = kept name level (message c) ++ all_kept name (level_after level c) cs

write_nil : (out : ℕ) (st : Streams) → write out [] st ≡ st
unfolding write
write_nil out st = fun_ext (λ o. ground (arith, append-nil (st o)))

write-write :
    (out : ℕ) (s t : Text) (st : Streams) → write out t (write out s st) ≡ write out (s ++ t) st
unfolding write
write-write out s t st = fun_ext (λ o. ground (arith, append_assoc (st o) s t))

log_lem :
    (t : Text) (lvl : LogLevel) (m : Text) (l : Logger) (st : Streams)
    → l.has_mutex ≡ true
    → log t lvl m l st ≡ returns (write l.out (kept l.name l.level (some (t, lvl, m))) st)
unfolding log emit guarded
log_lem t lvl m l st h = ground (arith, write_nil l.out st)

call_lem :
    (c : Call) (l : Logger) (st : Streams)
    → l.has_mutex ≡ true
    → call c l st
      ≡ returns (
        record l { level = level_after l.level c },
        write l.out (kept l.name l.level (message c)) st,
      )
unfolding call log_trace log_debug log_info log_warn log_error info_fmt set_level guarded ◌>>=◌
call_lem (trace_call t m) l st h = rw (log_lem t trace m l st h)
call_lem (debug_call t m) l st h = rw (log_lem t debug m l st h)
call_lem (info_call t m) l st h = rw (log_lem t info m l st h)
call_lem (warn_call t m) l st h = rw (log_lem t warn m l st h)
call_lem (error_call t m) l st h = rw (log_lem t error m l st h)
call_lem (log_call t lvl m) l st h = rw (log_lem t lvl m l st h)
call_lem (fmt_call t f args) l st h = rw (log_lem t info (flatten args) l st h)
call_lem (level_call lvl) l st h = rw (h, write_nil l.out st) refl

-- For a logger that has its mutex, any sequence of calls returns; its stream has then grown by the
-- lines of exactly those messages that are at or above the level in force at their call, in order,
-- and its level is the one last set.
pub calls_lem :
    (cs : List Call) (l : Logger) (st : Streams)
    → l.has_mutex ≡ true
    → calls cs l st
      ≡ returns
          (record l { level = last_level l.level cs }, write l.out (all_kept l.name l.level cs) st)
unfolding calls ◌>>=◌
calls_lem [] l st h = ap (λ s. returns (l, s)) (sym (write_nil l.out st))
calls_lem (c ∷ cs) l st h = rw (
  call_lem c l st h,
  calls_lem cs (record l { level = level_after l.level c })
      (write l.out (kept l.name l.level (message c)) st) h,
  write-write l.out (kept l.name l.level (message c)) (all_kept l.name (level_after l.level c) cs)
      st,
)
