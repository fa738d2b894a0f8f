-- ===== src/Terminal/Steps.antt =====
-- The terminal as its threads share it: the calls of a client and the turns of the monitor, each
-- under the lock, in any order (device/terminal/src/lib.rs). `read` is two steps, since its wait
-- gives the lock away.
use donkeywork_desktop.Base.{ℕ, Bool, List, [], ◌∷◌}
use donkeywork_desktop.Terminal.State.{State}
use donkeywork_desktop.Terminal.Monitor.{Turn, monitor_turn}
use donkeywork_desktop.Terminal.Api.{
  Size, WriteOutcome, write, resize, read_before_wait, read_after_wait, detach, resume,
  request_stop,
}

pub data Step : Type 0 where
  writes : ℕ → ℕ → List ℕ → List WriteOutcome → Step
  resizes : ℕ → Size → Bool → Step
  waits : ℕ → ℕ → Step
  reads : ℕ → Step
  detaches : ℕ → Step
  resumes : ℕ → ℕ → ℕ → Step
  stops : Step
  turns : Turn → Step

unfoldable pub step : Step → State → State
step (writes now sequence bytes answers) s = (write s now sequence bytes answers).0
step (resizes sequence size ioctl) s = (resize s sequence size ioctl).0
step (waits now after) s = (read_before_wait s now after).0
step (reads after) s = (read_after_wait s after).0
step (detaches now) s = detach s now
step (resumes elapsed_at now after) s = (resume s elapsed_at now after).0
step stops s = request_stop s
step (turns turn) s = (monitor_turn turn s).0

unfoldable pub run : List Step → State → State
run [] s = s
run (x ∷ xs) s = run xs (step x s)

-- The monitor alone.
unfoldable pub watched : List Turn → State → State
watched [] s = s
watched (t ∷ ts) s = watched ts (monitor_turn t s).0
