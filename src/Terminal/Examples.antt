-- ===== src/Terminal/Examples.antt =====
-- Terminals at work: the theorems at concrete states.
use donkeywork_desktop.Base.{
  ℕ, zero, suc, ◌≡◌, ◌≢◌, refl, true, false, none, some, [], ◌∷◌, ok, arith, inr,
}
use donkeywork_desktop.Terminal.State.{State, Resumed, created}
use donkeywork_desktop.Terminal.History.{batch, expire_history}
use donkeywork_desktop.Terminal.Drain.{ReadOutcome, received, would_block}
use donkeywork_desktop.Terminal.Monitor.{Turn, running, monitor_turn}
use donkeywork_desktop.Terminal.Api.{wrote, interrupted, write_loop, write, detach, check_attached}
use donkeywork_desktop.Terminal.Invariant.{IsSound, created-IsSound}
use donkeywork_desktop.Terminal.Steps.{turns, detaches, resumes, step, run, watched}
use donkeywork_desktop.Terminal.Histories.{step-IsSound, run-created-IsSound}
use donkeywork_desktop.Terminal.Sequences.{IsOutcome, write-IsOutcome, write_loop-ends, accepted}
use donkeywork_desktop.Terminal.Shutdown.{IsEnded, monitor_turn_ends}

-- Two bytes arrive, and nothing more.
abbrev one_chunk : ℕ → ReadOutcome
one_chunk zero = received (104 ∷ 105 ∷ []) 5 6
one_chunk (suc n) = would_block

abbrev quiet : ℕ → ReadOutcome
quiet i = would_block

abbrev busy_turn : Turn
busy_turn = record {
  reads = one_chunk;
  expired_at = 7;
  elapsed_at = 8;
  waited = running;
  final_reads = quiet;
  reaped = none;
}

abbrev fresh : State
fresh = created 42

step-IsSound_example : IsSound (step (turns busy_turn) fresh)
step-IsSound_example = step-IsSound (turns busy_turn) fresh (created-IsSound 42)

run-created-IsSound_example :
    IsSound (run (turns busy_turn ∷ detaches 9 ∷ resumes 10 11 0 ∷ []) fresh)
run-created-IsSound_example =
    run-created-IsSound 42 (turns busy_turn ∷ detaches 9 ∷ resumes 10 11 0 ∷ [])

-- The state that a read leaves, and its batch.
abbrev busy : State
busy = watched (busy_turn ∷ []) fresh

abbrev away : State
away = detach busy 9

abbrev back : State
back = record (expire_history away 11) { attached = true; detached = none }

abbrev resumed : Resumed
resumed = record {
  batch = (batch back 0).1;
  last_accepted_input_sequence = 0;
  last_resize_sequence = 0;
}

write-IsOutcome_example :
    IsOutcome fresh 1
      (108 ∷ 115 ∷ [])
      (write fresh 100 1 (108 ∷ 115 ∷ []) (wrote 1 ∷ interrupted ∷ wrote 1 ∷ []))
write-IsOutcome_example =
    write-IsOutcome fresh 100 1 (108 ∷ 115 ∷ []) (wrote 1 ∷ interrupted ∷ wrote 1 ∷ [])

-- Both bytes of that call arrive, and the sequence is used up.
write_sends :
    let (t, w) = write fresh 100 1 (108 ∷ 115 ∷ []) (wrote 1 ∷ interrupted ∷ wrote 1 ∷ []) in
    (t.last_input ≡ 1) × (w.delivered ≡ 108 ∷ 115 ∷ []) × (w.result ≡ some (ok tt))
unfolding created write write_loop check_attached
write_sends = (refl, refl, refl)

write_loop-ends_example :
    (write_loop true 200 (108 ∷ 115 ∷ []) (wrote 1 ∷ interrupted ∷ wrote 1 ∷ [])).result ≢ none
write_loop-ends_example =
    write_loop-ends true 200 (108 ∷ 115 ∷ []) (wrote 1 ∷ interrupted ∷ wrote 1 ∷ [])
      (unfold accepted in omega arith)

-- The client went away at time 9, and the retention time has passed.
abbrev late_turn : Turn
late_turn = record busy_turn {
  elapsed_at = 200000;
  reaped = some (record { code = some 0; signal = none });
}

monitor_turn_ends_example :
    ((monitor_turn late_turn (detach fresh 9)).1 ≡ false)
    × IsEnded (monitor_turn late_turn (detach fresh 9)).0
monitor_turn_ends_example =
    monitor_turn_ends late_turn (detach fresh 9) 9
      (inr (unfold detach created in refl, unfold detach created in refl, omega arith))
