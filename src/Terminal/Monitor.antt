-- ===== src/Terminal/Monitor.antt =====
-- `monitor` and `terminate` (device/terminal/src/lib.rs). One turn of the monitor's loop is a
-- function of what the system calls of that turn return.
use mathlib.Core.Option
use donkeywork_desktop.Base.{
  ℕ, ◌-◌, ◌%◌, Bool, true, false, ◌||◌, Option, none, some, leb, is_some, is_some_and,
  if◌then◌else◌,
}
use donkeywork_desktop.Terminal.State.{State, Exit, retention}
use donkeywork_desktop.Terminal.History.{expire_history}
use donkeywork_desktop.Terminal.Drain.{ReadOutcome, drain, fail_output}

-- An `ExitStatus`, by its `code()` and `signal()`.
pub record Status : Type 0 where
  pub code : Option ℕ
  pub signal : Option ℕ

pub data WaitOutcome : Type 0 where
  exited : Status → WaitOutcome
  running wait_failed : WaitOutcome

-- `final_reads` answers the drain that follows the child's end; `reaped` is the result of the
-- blocking `wait` of `terminate`.
pub record Turn : Type 0 where
  pub reads : ℕ → ReadOutcome
  pub expired_at : ℕ
  pub elapsed_at : ℕ
  pub waited : WaitOutcome
  pub final_reads : ℕ → ReadOutcome
  pub reaped : Option Status

abbrev exit_of : Status → ℕ → Exit
exit_of status latest = record {
  code = Option.map (λ c. c % 256) status.code;
  signal = Option.map (λ v. v % 256) status.signal;
  final_output_sequence = latest;
}

-- `drain`, `master.take()` and the exit record.
unfoldable pub finish : (ℕ → ReadOutcome) → Status → State → State
finish reads status s =
    let drained = drain reads s in
    record drained { master = false; exit = some (exit_of status drained.latest) }

abbrev pub reap : (ℕ → ReadOutcome) → Option Status → State → State
reap reads (some status) s = finish reads status s
reap reads none s = record s { output_failed = true; master = false }

unfoldable pub terminate : (ℕ → ReadOutcome) → Option Status → State → State
terminate reads reaped s =
    if is_some s.exit then record s { master = false } else reap reads reaped s

-- `detached.is_some_and(|t| t.elapsed() >= RETENTION)`
abbrev pub is_abandoned : ℕ → State → Bool
is_abandoned now s = is_some_and s.detached (λ t. leb retention (now - t))

abbrev pub watch : WaitOutcome → Turn → State → State × Bool
watch (exited status) turn s = (finish turn.final_reads status s, true)
watch running turn s = (s, true)
watch wait_failed turn s = (terminate turn.final_reads turn.reaped (fail_output s), false)

-- One turn of the loop: the state when the lock is released, and whether the thread goes on.
unfoldable pub monitor_turn : Turn → State → State × Bool
monitor_turn turn s =
    let seen = expire_history (drain turn.reads s) turn.expired_at in
    if seen.stop || is_abandoned turn.elapsed_at seen
    then (terminate turn.final_reads turn.reaped (record seen { stop = true }), false)
    else if is_some seen.exit
    then (seen, true)
    else watch turn.waited turn seen
