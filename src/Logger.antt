-- ===== src/Logger.antt =====
-- src/logger.cpp, include/logger.h: the log of one logger. The clock's text is an argument of each line,
-- since formatting it is the library's.
pub mod Lines
mod Tests
use real_time_market_data.Base.{
  ℕ, Bool, true, false, List, [], ◌∷◌, ◌++◌, Option, none, some, Text, codes, ltb, ◌==◌, ◌&&◌,
  if◌then◌else◌, flatten,
}

pub data LogLevel : Type 0 where
  trace debug info warn error : LogLevel

-- `static_cast<int>` of a level.
abbrev pub rank : LogLevel → ℕ
rank trace = 0
rank debug = 1
rank info = 2
rank warn = 3
rank error = 4

pub level_name : LogLevel → Text
level_name trace = codes "TRACE"
level_name debug = codes "DEBUG"
level_name info = codes "INFO"
level_name warn = codes "WARN"
level_name error = codes "ERROR"

-- A logger writes to a stream that others may write to as well; `out_` names it. `has_mutex` says whether
-- `mutex_` is set: a logger that was moved from has none.
pub record Logger : Type 0 where
  pub name : Text
  pub level : LogLevel
  pub out : ℕ
  pub has_mutex : Bool

unfoldable pub init : Text → ℕ → Logger
init name out = record { name = name; level = info; out = out; has_mutex = true }

-- The move constructor: the new logger, and the other one afterwards. A moved-from string is empty here
-- (the standard leaves it unspecified).
pub move : Logger → Logger × Logger
move other = (other, record other { name = []; has_mutex = false })

-- What a call does: it returns, or it locks a mutex that is not there, or it unlocks one that it has
-- destroyed; the last two are undefined behaviour.
pub data Outcome {ℓ} (A : Type ℓ) : Type ℓ where
  returns : A → Outcome A
  null_mutex dead_mutex : Outcome A

infixl 5 ◌>>=◌
pub ◌>>=◌ {ℓ κ} : {A : Type ℓ} {B : Type κ} → Outcome A → (A → Outcome B) → Outcome B
◌>>=◌ (returns a) f = f a
◌>>=◌ null_mutex f = null_mutex
◌>>=◌ dead_mutex f = dead_mutex

-- A guard on the logger's mutex.
pub guarded {ℓ} : {A : Type ℓ} → Logger → A → Outcome A
guarded l a = if l.has_mutex then returns a else null_mutex

-- The move assignment; `same` is the test of the addresses. Where both have a mutex, the assignment of the
-- unique_ptr destroys the one that the first guard holds, and that guard unlocks it at the end.
pub assign : Bool → Logger → Logger → Outcome (Logger × Logger)
assign same l other =
    if same
    then returns (l, other)
    else if l.has_mutex && other.has_mutex
    then dead_mutex
    else null_mutex

pub set_level : LogLevel → Logger → Outcome Logger
unfolding guarded
set_level level l = guarded l (record l { level = level })

-- What is written to each stream so far.
abbrev pub Streams : Type 0
Streams = ℕ → Text

pub write : ℕ → Text → Streams → Streams
write out text st = λ o. if o == out then st o ++ text else st o

-- `stamp` is the time with its milliseconds.
pub line : Text → LogLevel → Text → Text → Text
unfolding level_name
line stamp lvl name payload =
    stamp
    ++ codes " ["
    ++ level_name lvl
    ++ codes "] "
    ++ name
    ++ codes ": "
    ++ payload
    ++ b'\n' ∷ []

pub emit : Text → LogLevel → Text → Logger → Streams → Outcome Streams
unfolding guarded write line
emit stamp lvl payload l st = guarded l (write l.out (line stamp lvl l.name payload) st)

pub log : Text → LogLevel → Text → Logger → Streams → Outcome Streams
unfolding emit
log stamp lvl msg l st =
    if ltb (rank lvl) (rank l.level) then returns st else emit stamp lvl msg l st

pub log_trace : Text → Text → Logger → Streams → Outcome Streams
unfolding log
log_trace stamp msg = log stamp trace msg

pub log_debug : Text → Text → Logger → Streams → Outcome Streams
unfolding log
log_debug stamp msg = log stamp debug msg

pub log_info : Text → Text → Logger → Streams → Outcome Streams
unfolding log
log_info stamp msg = log stamp info msg

pub log_warn : Text → Text → Logger → Streams → Outcome Streams
unfolding log
log_warn stamp msg = log stamp warn msg

pub log_error : Text → Text → Logger → Streams → Outcome Streams
unfolding log
log_error stamp msg = log stamp error msg

-- The arguments, each as operator<< prints it.
pub info_fmt : Text → Text → List Text → Logger → Streams → Outcome Streams
unfolding log_info flatten
info_fmt stamp fmt args = log_info stamp (flatten args)

-- The calls of a program on one logger.
pub data Call : Type 0 where
  trace_call debug_call info_call warn_call error_call : Text → Text → Call
  log_call : Text → LogLevel → Text → Call
  fmt_call : Text → Text → List Text → Call
  level_call : LogLevel → Call

unfoldable pub call : Call → Logger → Streams → Outcome (Logger × Streams)
unfolding log_trace log_debug log_info log_warn log_error info_fmt set_level ◌>>=◌
call (trace_call t m) l st = do st' ← log_trace t m l st; returns (l, st')
call (debug_call t m) l st = do st' ← log_debug t m l st; returns (l, st')
call (info_call t m) l st = do st' ← log_info t m l st; returns (l, st')
call (warn_call t m) l st = do st' ← log_warn t m l st; returns (l, st')
call (error_call t m) l st = do st' ← log_error t m l st; returns (l, st')
call (log_call t lvl m) l st = do st' ← log t lvl m l st; returns (l, st')
call (fmt_call t f args) l st = do st' ← info_fmt t f args l st; returns (l, st')
call (level_call lvl) l st = do l' ← set_level lvl l; returns (l', st)

unfoldable pub calls : List Call → Logger → Streams → Outcome (Logger × Streams)
unfolding call ◌>>=◌
calls [] l st = returns (l, st)
calls (c ∷ cs) l st = do (l', st') ← call c l st; calls cs l' st'
