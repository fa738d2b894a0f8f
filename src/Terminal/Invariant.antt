-- ===== src/Terminal/Invariant.antt =====
-- What holds of a terminal's state whenever its lock is free, and that draining and expiring the
-- history keep it.
use donkeywork_desktop.Base.{
  if◌then◌else◌, ℕ, zero, suc, ◌+◌, ◌≤◌, ◌≡◌, refl, Bool, true, false, none, some, List, [], ◌∷◌,
  arith, length, length-append, is_some, ◌==◌, Bool-cases, inl, inr,
}
use donkeywork_desktop.Terminal.State.{
  State, Entry, Exit, replay_limit, replay_entry_limit, max_sequence, created,
}
use donkeywork_desktop.Terminal.History.{earliest, expire_history}
use donkeywork_desktop.Terminal.Drain.{
  ReadOutcome, received, would_block, interrupted, hung_up, failed, append_output, fail_output,
  read_once, drain_rounds, drain,
}
use donkeywork_desktop.Terminal.Runs.{
  RunsTo, RunsTo-append, bytes_of, bytes_of-append, trim-IsTrimmed,
}

-- What survives even in the middle of a call: the byte count is exact, the held sequences run up
-- to the latest, the counters stay within bounds, a state is attached or has a detach time, and an
-- exit record means that the master is gone and that its final sequence is still the latest.
pub record IsKept (s : State) : Type 0 where
  pub counted : s.history_bytes ≡ bytes_of s.history
  pub runs : RunsTo s.latest s.history
  pub fits : length s.history ≤ s.latest
  pub bounded : s.latest ≤ max_sequence
  pub delivered : s.last_delivered ≤ s.latest
  pub input_bounded : s.last_input ≤ max_sequence
  pub resize_bounded : s.last_resize ≤ max_sequence
  pub timed : s.attached ≡ false → is_some s.detached ≡ true
  pub live : s.attached ≡ true → s.detached ≡ none
  pub hung : is_some s.exit ≡ true → s.master ≡ false
  pub final : (e : Exit) → s.exit ≡ some e → e.final_output_sequence ≡ s.latest

-- With the lock free the replay limits hold too, and an attached client has not been left behind:
-- what follows its last delivery is still held.
pub record IsSound (s : State) : Type 0 where
  pub kept : IsKept s
  pub few : length s.history ≤ replay_entry_limit
  pub small : s.history_bytes ≤ replay_limit
  pub kept_up : s.attached ≡ true → earliest s ≤ s.last_delivered + 1

pub created-IsSound : (pid : ℕ) → IsSound (created pid)
unfolding created
created-IsSound pid = record {
  kept = record {
    counted = refl;
    runs = tt;
    fits = omega arith;
    bounded = omega arith;
    delivered = omega arith;
    input_bounded = omega arith;
    resize_bounded = omega arith;
    timed = λ h. cc;
    live = λ h. refl;
    hung = λ h. cc;
    final = λ e h. cc;
  };
  few = omega arith;
  small = omega arith;
  kept_up = λ h. omega arith;
}

pub expire_history-IsSound : (s : State) (now : ℕ) → IsKept s → IsSound (expire_history s now)
unfolding expire_history
expire_history-IsSound s now k =
    let t = trim-IsTrimmed now s.latest s.history s.history_bytes k.counted k.runs in
    ground (arith, t, k.final)

append_output-IsKept :
    (s : State) (bytes : List ℕ) (at : ℕ)
    → s.master ≡ true
    → (s.latest == max_sequence) ≡ false
    → IsKept s
    → IsKept (append_output s bytes at)
unfolding append_output
append_output-IsKept s bytes at open_ below k =
    let e : Entry = record {
      output = record { sequence = s.latest + 1; bytes = bytes };
      at = at;
    } in
    ground (
      arith,
      RunsTo-append s.latest s.history e k.runs refl,
      bytes_of-append s.history e,
      length-append s.history (e ∷ []),
      k.final,
    )

pub fail_output-IsSound : (s : State) → IsSound s → IsSound (fail_output s)
unfolding fail_output
fail_output-IsSound s v = ground (arith, v.kept.final)

read_once-IsSound :
    (r : ReadOutcome) (s : State) → s.master ≡ true → IsSound s → IsSound (read_once r s).0
unfolding read_once
read_once-IsSound (received [] at now) s h v = v
read_once-IsSound (received (b ∷ bytes) at now) s h v =
    elim (Bool-cases (s.latest == max_sequence)) [
      | inl full ↦ rw full (fail_output-IsSound s v)
      | inr room ↦
          rw room
            (expire_history-IsSound _ now (append_output-IsKept s (b ∷ bytes) at h room v.kept))
    ]
read_once-IsSound would_block s h v = v
read_once-IsSound interrupted s h v = v
read_once-IsSound hung_up s h v = v
read_once-IsSound failed s h v = fail_output-IsSound s v

if_if-IsSound :
    (up more : Bool) (further here s : State)
    → (up ≡ true → IsSound further)
    → (up ≡ true → IsSound here)
    → IsSound s
    → IsSound (if up then (if more then further else here) else s)
if_if-IsSound true true further here s f h v = f refl
if_if-IsSound true false further here s f h v = h refl
if_if-IsSound false more further here s f h v = v

drain_rounds-IsSound :
    (rounds i : ℕ) (reads : ℕ → ReadOutcome) (s : State)
    → IsSound s
    → IsSound (drain_rounds rounds i reads s)
unfolding drain_rounds
drain_rounds-IsSound zero i reads s v = v
drain_rounds-IsSound (suc rounds) i reads s v =
    let once = λ (up : s.master ≡ true). read_once-IsSound (reads i) s up v in
    if_if-IsSound s.master (read_once (reads i) s).1 _ _ s
      (λ up. drain_rounds-IsSound rounds (i + 1) reads (read_once (reads i) s).0 (once up)) once v

pub drain-IsSound : (reads : ℕ → ReadOutcome) (s : State) → IsSound s → IsSound (drain reads s)
unfolding drain
drain-IsSound reads s v = drain_rounds-IsSound 64 0 reads s v
