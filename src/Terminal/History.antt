-- ===== src/Terminal/History.antt =====
-- The replay history: `expire_history` and `batch` (device/terminal/src/lib.rs). The list's head
-- is the front of the deque.
use donkeywork_desktop.Base.{
  ℕ, ◌+◌, ◌-◌, Bool, ◌&&◌, ◌||◌, none, some, List, [], ◌∷◌, map, leb, ltb, length, keep_if,
  if◌then◌else◌,
}
use donkeywork_desktop.Terminal.State.{
  State, Entry, Output, Batch, retention, replay_limit, replay_entry_limit,
}

-- `duration_since` is 0 where `at` is later than `now`.
abbrev pub is_old : ℕ → Entry → Bool
is_old now e = leb retention (now - e.at)

-- The `while` of `expire_history`, with the byte count beside the deque.
unfoldable pub trim : ℕ → List Entry → ℕ → List Entry × ℕ
trim now [] bytes = ([], bytes)
trim now (e ∷ es) bytes =
    let rest = trim now es (bytes - length e.output.bytes) in
    if is_old now e || ltb replay_limit bytes || ltb replay_entry_limit (length (e ∷ es))
    then rest
    else (e ∷ es, bytes)

-- `history.front().map_or(latest + 1, |e| e.output.sequence)`
abbrev pub first_sequence : List Entry → ℕ → ℕ
first_sequence [] latest = latest + 1
first_sequence (e ∷ es) latest = e.output.sequence

abbrev pub earliest : State → ℕ
earliest s = first_sequence s.history s.latest

-- A client that the history has left behind is detached.
pub detach_if_behind : ℕ → State → State
detach_if_behind now s =
    if s.attached && ltb (s.last_delivered + 1) (earliest s)
    then record s { attached = Bool.false; detached = some now }
    else s

unfoldable pub expire_history : State → ℕ → State
unfolding detach_if_behind
expire_history s now =
    let (history, bytes) = trim now s.history s.history_bytes in
    detach_if_behind now (record s { history = history; history_bytes = bytes })

abbrev pub newer : ℕ → List Entry → List Output
newer after es = map (λ e. e.output) (keep_if (λ e. ltb after e.output.sequence) es)

unfoldable pub batch : State → ℕ → State × Batch
batch s after = (
  record s { last_delivered = s.latest },
  record {
    output = newer after s.history;
    gap =
        if ltb (after + 1) (earliest s)
        then some (record { earliest_available_sequence = earliest s; latest_sequence = s.latest })
        else none;
    exit = s.exit;
    latest_output_sequence = s.latest;
  },
)
