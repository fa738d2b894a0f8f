-- ===== src/Terminal/Drain.antt =====
-- `drain` (device/terminal/src/lib.rs): at most 64 reads of the nonblocking master. What each read
-- returns, and the clock beside it, is a parameter.
use donkeywork_desktop.Base.{
  ℕ, zero, suc, ◌+◌, Bool, true, false, List, [], ◌∷◌, ◌++◌, length, ◌==◌, if◌then◌else◌,
}
use donkeywork_desktop.Terminal.State.{State, Entry, max_sequence}
use donkeywork_desktop.Terminal.History.{expire_history}

-- `received bytes at now`, where no bytes are the end of the file: the instants are those of the entry and of the expiry after it.
pub data ReadOutcome : Type 0 where
  received : List ℕ → ℕ → ℕ → ReadOutcome
  would_block interrupted hung_up failed : ReadOutcome

unfoldable pub append_output : State → List ℕ → ℕ → State
append_output s bytes at = record s {
  latest = s.latest + 1;
  history_bytes = s.history_bytes + length bytes;
  history = s.history ++ entry ∷ [];
}
  where
    entry : Entry
    entry = record { output = record { sequence = s.latest + 1; bytes = bytes }; at = at }

unfoldable pub fail_output : State → State
fail_output s = record s { output_failed = true; stop = true }

-- One round: the state after it, and whether the loop goes on.
unfoldable pub read_once : ReadOutcome → State → State × Bool
unfolding append_output fail_output
read_once (received [] at now) s = (s, false)
read_once (received (b ∷ bytes) at now) s =
    if s.latest == max_sequence
    then (fail_output s, false)
    else (expire_history (append_output s (b ∷ bytes) at) now, true)
read_once would_block s = (s, false)
read_once interrupted s = (s, true)
read_once hung_up s = (s, false)
read_once failed s = (fail_output s, false)

unfoldable pub drain_rounds : ℕ → ℕ → (ℕ → ReadOutcome) → State → State
drain_rounds zero i reads s = s
drain_rounds (suc rounds) i reads s =
    let (s', more) = read_once (reads i) s in
    let rest = drain_rounds rounds (i + 1) reads s' in
    if s.master then (if more then rest else s') else s

unfoldable pub drain : (ℕ → ReadOutcome) → State → State
unfolding drain_rounds
drain reads s = drain_rounds 64 0 reads s
