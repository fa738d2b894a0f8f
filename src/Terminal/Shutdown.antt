-- ===== src/Terminal/Shutdown.antt =====
-- How a terminal ends: `monitor` and `terminate`.
use donkeywork_desktop.Base.{
  ℕ, ◌+◌, ◌≤◌, ◌≡◌, refl, true, false, Option, none, some, arith, is_some, ◌||◌, ◌⊎◌, inl, inr,
  Bool-cases,
}
use donkeywork_desktop.Terminal.State.{State, retention}
use donkeywork_desktop.Terminal.History.{expire_history}
use donkeywork_desktop.Terminal.Drain.{ReadOutcome, drain, fail_output}
use donkeywork_desktop.Terminal.Monitor.{
  Status, Turn, WaitOutcome, exited, running, wait_failed, finish, terminate, is_abandoned, watch,
  monitor_turn,
}
use donkeywork_desktop.Terminal.Progress.{
  Advances, Advances-trans, drain-Advances, expire_history-Advances,
}

-- Stopped for good: the master is given up, and an exit record or a failure says why.
pub record IsEnded (s : State) : Type 0 where
  pub stopped : s.stop ≡ true
  pub released : s.master ≡ false
  pub explained : (is_some s.exit ≡ true) ⊎ (s.output_failed ≡ true)

terminate-IsEnded :
    (reads : ℕ → ReadOutcome) (reaped : Option Status) (s : State)
    → s.stop ≡ true
    → IsEnded (terminate reads reaped s)
unfolding terminate finish
terminate-IsEnded reads none s h = ground arith
terminate-IsEnded reads (some status) s h = ground (arith, drain-Advances reads s)

watch-IsEnded :
    (w : WaitOutcome) (turn : Turn) (s : State)
    → (watch w turn s).1 ≡ false
    → IsEnded (watch w turn s).0
watch-IsEnded (exited status) turn s h = cc
watch-IsEnded running turn s h = cc
watch-IsEnded wait_failed turn s h =
    terminate-IsEnded turn.final_reads turn.reaped (fail_output s) (unfold fail_output in refl)

-- The monitor thread leaves its loop only with the terminal ended.
monitor_turn-IsEnded :
    (turn : Turn) (s : State) → (monitor_turn turn s).1 ≡ false → IsEnded (monitor_turn turn s).0
unfolding monitor_turn
monitor_turn-IsEnded turn s h =
    let seen = expire_history (drain turn.reads s) turn.expired_at in
    elim (Bool-cases (seen.stop || is_abandoned turn.elapsed_at seen)) [
      | inl over ↦ rw over (terminate-IsEnded turn.final_reads turn.reaped _ refl)
      | inr on ↦ rw on (ground (arith, watch-IsEnded turn.waited turn seen))
    ]

-- A stop request, or an absence of the retention time, ends the terminal at the next turn of the
-- monitor: the thread leaves its loop, and the terminal is stopped, has given up its master, and
-- has an exit record or a reported failure.
pub monitor_turn_ends :
    (turn : Turn) (s : State) (since : ℕ)
    → (s.stop ≡ true)
      ⊎ ((s.attached ≡ false) × (s.detached ≡ some since) × (since + retention ≤ turn.elapsed_at))
    → ((monitor_turn turn s).1 ≡ false) × IsEnded (monitor_turn turn s).0
unfolding monitor_turn
monitor_turn_ends turn s since h = (over, monitor_turn-IsEnded turn s over)
  where
    drained : State
    drained = drain turn.reads s

    seen : State
    seen = expire_history drained turn.expired_at

    a : Advances s seen
    a =
        Advances-trans s drained seen (drain-Advances turn.reads s)
          (expire_history-Advances drained turn.expired_at)

    due : (seen.stop || is_abandoned turn.elapsed_at seen) ≡ true
    due = ground (arith, a, h)

    over : (monitor_turn turn s).1 ≡ false
    over = rw due
