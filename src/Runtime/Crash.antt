-- ===== src/Runtime/Crash.antt =====
-- cognitive_runtime/runtime/daemon/runtime_daemon.py: `CrashBoundary`, which sorts the exceptions
-- of an event, and `DaemonHeartbeatMonitor`.
--
-- An exception is given by the most specific of the classes that the code tests, and by its message
-- in lower case (`lower` of the text library).
use text.Mathlib.Text.{find?}
use stocky_cognitive_runtime.Prelude.{
  ℕ, ◌+◌, String, Bool, true, false, Option, none, some, List, [], ◌∷◌, any, if◌then◌else◌,
}
use stocky_cognitive_runtime.Prelude.Int.{ℤ, sub_ℕ, gt_ℕ}

pub data CrashCategory : Type 0 where
  recoverable non_recoverable configuration internal_runtime : CrashCategory

pub data ExceptionClass : Type 0 where
  memory_error system_error keyboard_interrupt : ExceptionClass
  connection_error timeout_error os_error : ExceptionClass
  assertion_error runtime_error other_error : ExceptionClass

pub record Exception : Type 0 where
  pub kind : ExceptionClass
  pub message : String

abbrev is_fatal : ExceptionClass → Bool
is_fatal memory_error = true
is_fatal system_error = true
is_fatal keyboard_interrupt = true
is_fatal _ = false

-- Connection errors and timeouts are OSErrors too.
abbrev is_transient : ExceptionClass → Bool
is_transient connection_error = true
is_transient timeout_error = true
is_transient os_error = true
is_transient _ = false

abbrev is_internal : ExceptionClass → Bool
is_internal assertion_error = true
is_internal runtime_error = true
is_internal _ = false

abbrev recoverable_keywords : List String
recoverable_keywords = "temporary" ∷ "transient" ∷ "retry" ∷ "timeout" ∷ "connection" ∷ []

abbrev config_keywords : List String
config_keywords = "configuration" ∷ "config" ∷ "startup" ∷ "invalid config" ∷ []

-- `k in exc_msg`
occurs : String → String → Bool
occurs message keyword = elim (find? message keyword) [ none ↦ false | some position ↦ true ]

pub mentions : List String → String → Bool
unfolding occurs
mentions keywords message = any (occurs message) keywords

unfoldable pub classify : Exception → CrashCategory
classify e =
    if is_fatal e.kind
    then non_recoverable
    else if mentions config_keywords e.message
    then configuration
    else if is_transient e.kind
    then recoverable
    else if is_internal e.kind
    then internal_runtime
    else if mentions recoverable_keywords e.message
    then recoverable
    else non_recoverable

-- In microseconds.
abbrev pub stall_threshold : ℕ
stall_threshold = 5_000_000

pub record HeartbeatMonitor : Type 0 where
  pub last_heartbeat : Option ℕ
  pub last_skew : ℤ
  pub stall_count : ℕ

-- The heartbeat `now` after one at `last`.
abbrev seen_after : HeartbeatMonitor → ℕ → ℕ → HeartbeatMonitor
seen_after m last now = record m {
  last_heartbeat = some now;
  last_skew = sub_ℕ now last;
  stall_count = if gt_ℕ (sub_ℕ now last) stall_threshold then m.stall_count + 1 else m.stall_count;
}

observe_from : HeartbeatMonitor → Option ℕ → ℕ → HeartbeatMonitor
observe_from m none now = record m { last_heartbeat = some now }
observe_from m (some last) now = seen_after m last now

unfoldable pub observe : HeartbeatMonitor → ℕ → HeartbeatMonitor
unfolding observe_from
observe m now = observe_from m m.last_heartbeat now
