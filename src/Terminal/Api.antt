-- ===== src/Terminal/Api.antt =====
-- The calls of `Pty` (device/terminal/src/lib.rs). A call returns the state that it leaves beside
-- its result, since what it wrote before an error stays written.
use donkeywork_desktop.Base.{
  ℕ, ◌+◌, Bool, true, false, ◌&&◌, ◌||◌, not, Option, none, some, List, [], ◌∷◌, ◌++◌, ok, err, leb,
  ltb, ◌==◌, length, take, drop, is_some, if◌then◌else◌,
}
use donkeywork_desktop.Terminal.State.{
  State, Fallible, invalid_size, invalid_sequence, invalid_input, not_attached, control_conflict,
  closed, io, output_failed, Batch, Resumed, chunk_limit, max_sequence,
}
use donkeywork_desktop.Terminal.History.{expire_history, batch}
use donkeywork_desktop.Terminal.Monitor.{is_abandoned}

pub record Size : Type 0 where
  pub rows : ℕ
  pub cols : ℕ

-- `Size::winsize`; the pixel fields of the result are 0.
unfoldable pub winsize : Size → Fallible Size
winsize size =
    if size.rows == 0 || ltb 500 size.rows || size.cols == 0 || ltb 1000 size.cols
    then err invalid_size
    else ok size

unfoldable pub check_attached : State → Fallible (Unit {0})
check_attached s =
    if s.stop || is_some s.exit then err closed else if s.attached then ok tt else err not_attached

-- One answer of the nonblocking `write`; `would_block` carries the clock that is read after it.
pub data WriteOutcome : Type 0 where
  wrote : ℕ → WriteOutcome
  interrupted : WriteOutcome
  would_block : ℕ → WriteOutcome
  failed : WriteOutcome

-- What reached the terminal, and the result; `none` while the answers given so far do not end the
-- loop.
pub record Written : Type 0 where
  pub delivered : List ℕ
  pub result : Option (Fallible (Unit {0}))

abbrev stopped : Fallible (Unit {0}) → Written
stopped r = record { delivered = []; result = some r }

abbrev pub after_write : ℕ → List ℕ → Written → Written
after_write n remaining w = record w { delivered = take n remaining ++ w.delivered }

-- The `while !remaining.is_empty()` of `Pty::write`.
unfoldable pub write_loop : Bool → ℕ → List ℕ → List WriteOutcome → Written
write_loop master deadline [] answers = stopped (ok tt)
write_loop master deadline (b ∷ bs) [] = record { delivered = []; result = none }
write_loop master deadline (b ∷ bs) (wrote n ∷ answers) =
    let rest = write_loop master deadline (drop n (b ∷ bs)) answers in
    if master
    then (if n == 0 then stopped (err io) else after_write n (b ∷ bs) rest)
    else stopped (err closed)
write_loop master deadline (b ∷ bs) (interrupted ∷ answers) =
    let rest = write_loop master deadline (b ∷ bs) answers in
    if master then rest else stopped (err closed)
write_loop master deadline (b ∷ bs) (would_block now ∷ answers) =
    let rest = write_loop master deadline (b ∷ bs) answers in
    if master then (if ltb now deadline then rest else stopped (err io)) else stopped (err closed)
write_loop master deadline (b ∷ bs) (failed ∷ answers) =
    if master then stopped (err io) else stopped (err closed)

abbrev pub send : State → ℕ → ℕ → List ℕ → List WriteOutcome → State × Written
send s now sequence bytes answers =
    if not (sequence == s.last_input + 1) || ltb max_sequence sequence
    then (s, stopped (err invalid_sequence))
    else (record s { last_input = sequence }, write_loop s.master (now + 100) bytes answers)

unfoldable pub write : State → ℕ → ℕ → List ℕ → List WriteOutcome → State × Written
write s now sequence bytes answers =
    if length bytes == 0 || ltb chunk_limit (length bytes)
    then (s, stopped (err invalid_input))
    else elim (check_attached s) [
      | ok _ ↦ send s now sequence bytes answers
      | err e ↦ (s, stopped (err e))
    ]

abbrev apply_size : State → ℕ → Bool → State × Fallible (Unit {0})
apply_size s sequence ioctl =
    if leb sequence s.last_resize || ltb max_sequence sequence then (s, err invalid_sequence) else (
      record s { last_resize = sequence },
      (if s.master then (if ioctl then ok tt else err io) else err closed),
    )

-- `ioctl` says whether the system call succeeds.
unfoldable pub resize : State → ℕ → Size → Bool → State × Fallible (Unit {0})
unfolding winsize check_attached
resize s sequence size ioctl = elim (winsize size) [
  | ok _ ↦ elim (check_attached s) [ ok _ ↦ apply_size s sequence ioctl | err e ↦ (s, err e) ]
  | err e ↦ (s, err e)
]

-- The checks of `read` after the wait, and the batch.
unfoldable pub read_after_wait : State → ℕ → State × Fallible Batch
read_after_wait s after =
    if not s.attached
    then (s, err not_attached)
    else if s.output_failed
    then (s, err output_failed)
    else let (s', b) = batch s after in (s', ok b)

-- What `read` does before the wait: an error, or whether it has to wait.
unfoldable pub read_before_wait : State → ℕ → ℕ → State × Fallible Bool
read_before_wait s now after =
    let seen = expire_history s now in
    if ltb seen.latest after
    then (seen, err invalid_sequence)
    else if not seen.attached
    then (seen, err not_attached)
    else if seen.output_failed
    then (seen, err output_failed)
    else (seen, ok (after == seen.latest && not (is_some seen.exit)))

-- `wait_timeout` gives the lock away: `woken` is what the other threads make of the state
-- meanwhile.
unfoldable pub read : (State → State) → State → ℕ → ℕ → State × Fallible Batch
unfolding read_before_wait read_after_wait
read woken s now after =
    let (seen, waits) = read_before_wait s now after in
    elim waits [
      | ok w ↦ read_after_wait (if w then woken seen else seen) after
      | err e ↦ (seen, err e)
    ]

unfoldable pub detach : State → ℕ → State
detach s now = if s.attached then record s { attached = false; detached = some now } else s

-- `elapsed_at` and `now` are the two readings of the clock.
unfoldable pub resume : State → ℕ → ℕ → ℕ → State × Fallible Resumed
resume s elapsed_at now after =
    if s.attached
    then (s, err control_conflict)
    else if s.stop || is_abandoned elapsed_at s
    then (s, err closed)
    else if ltb s.latest after
    then (s, err invalid_sequence)
    else let seen = expire_history s now in
      let back = record seen { attached = true; detached = none } in
      let (s', b) = batch back after in
      (
        s',
        ok (record {
          batch = b;
          last_accepted_input_sequence = back.last_input;
          last_resize_sequence = back.last_resize;
        }),
      )

-- `close` asks the monitor to stop; its own result is read after the thread has ended.
unfoldable pub request_stop : State → State
request_stop s = record s { stop = true }

unfoldable pub close_result : State → Fallible (Unit {0})
close_result s = if s.output_failed then err output_failed else ok tt
