-- ===== src/Terminal/Progress.antt =====
-- What draining, expiry and the monitor never touch: the client's own counters.
use donkeywork_desktop.Base.{
  ℕ, zero, suc, ◌+◌, ◌≤◌, ◌≡◌, true, false, Option, none, some, arith, Bool-cases, inl, inr, ◌||◌,
  ◌∷◌, [],
}
use donkeywork_desktop.Terminal.State.{State}
use donkeywork_desktop.Terminal.History.{expire_history}
use donkeywork_desktop.Terminal.Drain.{
  ReadOutcome, received, read_once, drain_rounds, drain, fail_output,
}
use donkeywork_desktop.Terminal.Monitor.{
  Status, Turn, WaitOutcome, exited, running, wait_failed, finish, terminate, is_abandoned,
  monitor_turn, watch,
}

-- From `s` to `t` output may have arrived; deliveries, input and resizes are as they were,
-- a stop is not taken back, and who was detached still is, since the same time.
pub record Advances (s t : State) : Type 0 where
  pub latest_le : s.latest ≤ t.latest
  pub delivered_same : t.last_delivered ≡ s.last_delivered
  pub input_same : t.last_input ≡ s.last_input
  pub resize_same : t.last_resize ≡ s.last_resize
  pub stop_stays : s.stop ≡ true → t.stop ≡ true
  pub absent_stays : s.attached ≡ false → (t.attached ≡ false) × (t.detached ≡ s.detached)

pub Advances-trans : (s t u : State) → Advances s t → Advances t u → Advances s u
Advances-trans s t u a b = ground arith

pub expire_history-Advances : (s : State) (now : ℕ) → Advances s (expire_history s now)
unfolding expire_history
expire_history-Advances s now = ground arith

read_once-Advances : (r : ReadOutcome) (s : State) → Advances s (read_once r s).0
unfolding read_once expire_history
read_once-Advances (received [] at now) s = ground arith
read_once-Advances (received (b ∷ bytes) at now) s = ground arith
read_once-Advances _ s = ground arith

drain_rounds-Advances :
    (rounds i : ℕ) (reads : ℕ → ReadOutcome) (s : State)
    → Advances s (drain_rounds rounds i reads s)
unfolding drain_rounds
drain_rounds-Advances zero i reads s = ground arith
drain_rounds-Advances (suc rounds) i reads s =
    let a = read_once-Advances (reads i) s in
    let b = drain_rounds-Advances rounds (i + 1) reads (read_once (reads i) s).0 in
    ground (arith, a, b)

pub drain-Advances : (reads : ℕ → ReadOutcome) (s : State) → Advances s (drain reads s)
unfolding drain
drain-Advances reads s = drain_rounds-Advances 64 0 reads s

terminate-Advances :
    (reads : ℕ → ReadOutcome) (reaped : Option Status) (s : State)
    → Advances s (terminate reads reaped s)
unfolding terminate finish
terminate-Advances reads none s = ground arith
terminate-Advances reads (some status) s = ground (arith, drain-Advances reads s)

watch-Advances : (w : WaitOutcome) (turn : Turn) (s : State) → Advances s (watch w turn s).0
unfolding finish fail_output
watch-Advances (exited status) turn s = ground (arith, drain-Advances turn.final_reads s)
watch-Advances running turn s = ground arith
watch-Advances wait_failed turn s =
    let t = terminate-Advances turn.final_reads turn.reaped (fail_output s) in ground (arith, t)

pub monitor_turn-Advances : (turn : Turn) (s : State) → Advances s (monitor_turn turn s).0
unfolding monitor_turn
monitor_turn-Advances turn s =
    let d = drain-Advances turn.reads s in
    let drained = drain turn.reads s in
    let seen = expire_history drained turn.expired_at in
    let a = Advances-trans s drained seen d (expire_history-Advances drained turn.expired_at) in
    let t = terminate-Advances turn.final_reads turn.reaped (record seen { stop = true }) in
    let w = watch-Advances turn.waited turn seen in
    elim (Bool-cases (seen.stop || is_abandoned turn.elapsed_at seen)) [
      | inl over ↦ rw over (ground arith)
      | inr on ↦ rw on (ground arith)
    ]
