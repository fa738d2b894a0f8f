-- ===== src/Terminal/Histories.antt =====
-- Every step keeps the invariant, so it holds after any interleaving of calls and turns.
use donkeywork_desktop.Base.{
  ℕ, Bool, true, Option, none, some, List, [], ◌∷◌, arith, Bool-cases, inl, inr, ◌||◌,
}
use donkeywork_desktop.Terminal.State.{State, created}
use donkeywork_desktop.Terminal.History.{expire_history, batch}
use donkeywork_desktop.Terminal.Drain.{ReadOutcome, drain}
use donkeywork_desktop.Terminal.Monitor.{
  Status, Turn, WaitOutcome, exited, running, wait_failed, finish, terminate, is_abandoned,
  monitor_turn, watch,
}
use donkeywork_desktop.Terminal.Api.{
  Size, WriteOutcome, write, resize, check_attached, read_before_wait, read_after_wait, detach,
  resume, request_stop,
}
use donkeywork_desktop.Terminal.Invariant.{
  IsSound, created-IsSound, expire_history-IsSound, drain-IsSound, fail_output-IsSound,
}
use donkeywork_desktop.Terminal.Runs.{first_sequence-RunsTo}
use donkeywork_desktop.Terminal.Steps.{
  Step, writes, resizes, waits, reads, detaches, resumes, stops, turns, step, run, watched,
}

finish-IsSound :
    (rs : ℕ → ReadOutcome) (status : Status) (s : State) → IsSound s → IsSound (finish rs status s)
unfolding finish
finish-IsSound rs status s v = let d = drain-IsSound rs s v in ground (arith, d.kept.final)

terminate-IsSound :
    (rs : ℕ → ReadOutcome) (reaped : Option Status) (s : State)
    → IsSound s
    → IsSound (terminate rs reaped s)
unfolding terminate
terminate-IsSound rs none s v = ground (arith, v.kept.final)
terminate-IsSound rs (some status) s v = ground (arith, v.kept.final, finish-IsSound rs status s v)

stop-IsSound : (s : State) → IsSound s → IsSound (record s { stop = true })
stop-IsSound s v = ground (arith, v.kept.final)

watch-IsSound : (w : WaitOutcome) (turn : Turn) (s : State) → IsSound s → IsSound (watch w turn s).0
watch-IsSound (exited status) turn s v = finish-IsSound turn.final_reads status s v
watch-IsSound running turn s v = v
watch-IsSound wait_failed turn s v =
    terminate-IsSound turn.final_reads turn.reaped _ (fail_output-IsSound s v)

monitor_turn-IsSound : (turn : Turn) (s : State) → IsSound s → IsSound (monitor_turn turn s).0
unfolding monitor_turn
monitor_turn-IsSound turn s v =
    let seen = expire_history (drain turn.reads s) turn.expired_at in
    let e : IsSound seen =
      expire_history-IsSound _ turn.expired_at (drain-IsSound turn.reads s v).kept in
    elim (Bool-cases (seen.stop || is_abandoned turn.elapsed_at seen)) [
      | inl over ↦ rw over (terminate-IsSound turn.final_reads turn.reaped _ (stop-IsSound seen e))
      | inr on ↦ rw on (ground (arith, watch-IsSound turn.waited turn seen e))
    ]

write-IsSound :
    (s : State) (now sequence : ℕ) (bytes : List ℕ) (answers : List WriteOutcome)
    → IsSound s
    → IsSound (write s now sequence bytes answers).0
unfolding write check_attached
write-IsSound s now sequence bytes answers v = ground (arith, v.kept.final)

resize-IsSound :
    (s : State) (sequence : ℕ) (size : Size) (ioctl : Bool)
    → IsSound s
    → IsSound (resize s sequence size ioctl).0
unfolding resize
resize-IsSound s sequence size ioctl v = ground (arith, v.kept.final)

read_before_wait-IsSound :
    (s : State) (now after : ℕ) → IsSound s → IsSound (read_before_wait s now after).0
unfolding read_before_wait
read_before_wait-IsSound s now after v =
    let e = expire_history-IsSound s now v.kept in ground (arith, e)

batch-IsSound : (s : State) (after : ℕ) → IsSound s → IsSound (batch s after).0
unfolding batch
batch-IsSound s after v =
    ground (arith, v.kept.final, first_sequence-RunsTo s.latest s.history v.kept.runs)

read_after_wait-IsSound : (s : State) (after : ℕ) → IsSound s → IsSound (read_after_wait s after).0
unfolding read_after_wait
read_after_wait-IsSound s after v = let b = batch-IsSound s after v in ground (arith, b)

detach-IsSound : (s : State) (now : ℕ) → IsSound s → IsSound (detach s now)
unfolding detach
detach-IsSound s now v = ground (arith, v.kept.final)

-- Delivering all that is held makes up for whatever an absent client has missed.
deliver-IsSound :
    (s : State) (after : ℕ)
    → IsSound s
    → IsSound (batch (record s { attached = true; detached = none }) after).0
unfolding batch
deliver-IsSound s after v =
    ground (arith, v.kept.final, first_sequence-RunsTo s.latest s.history v.kept.runs)

resume-IsSound :
    (s : State) (elapsed_at now after : ℕ) → IsSound s → IsSound (resume s elapsed_at now after).0
unfolding resume
resume-IsSound s elapsed_at now after v =
    let d = deliver-IsSound _ after (expire_history-IsSound s now v.kept) in ground (arith, d)

-- Any call of the client and any turn of the monitor leaves a sound state: an exact byte count,
-- sequences that run to the latest, the replay limits, and no attached client left behind.
pub step-IsSound : (x : Step) (s : State) → IsSound s → IsSound (step x s)
unfolding step request_stop
step-IsSound (writes now sequence bytes answers) s v = write-IsSound s now sequence bytes answers v
step-IsSound (resizes sequence size ioctl) s v = resize-IsSound s sequence size ioctl v
step-IsSound (waits now after) s v = read_before_wait-IsSound s now after v
step-IsSound (reads after) s v = read_after_wait-IsSound s after v
step-IsSound (detaches now) s v = detach-IsSound s now v
step-IsSound (resumes elapsed_at now after) s v = resume-IsSound s elapsed_at now after v
step-IsSound stops s v = stop-IsSound s v
step-IsSound (turns turn) s v = monitor_turn-IsSound turn s v

run-IsSound : (xs : List Step) (s : State) → IsSound s → IsSound (run xs s)
unfolding run
run-IsSound [] s v = v
run-IsSound (x ∷ xs) s v = run-IsSound xs (step x s) (step-IsSound x s v)

-- After any interleaving of calls and monitor turns from a new terminal the state is sound.
pub run-created-IsSound : (pid : ℕ) (xs : List Step) → IsSound (run xs (created pid))
run-created-IsSound pid xs = run-IsSound xs (created pid) (created-IsSound pid)

pub watched-IsSound : (ts : List Turn) (s : State) → IsSound s → IsSound (watched ts s)
unfolding watched
watched-IsSound [] s v = v
watched-IsSound (t ∷ ts) s v = watched-IsSound ts (monitor_turn t s).0 (monitor_turn-IsSound t s v)
