-- ===== src/Input/Stream.antt =====
-- Reading and writing on the peer's socket (device/console/src/bin/input-daemon.rs, `poll`,
-- `remaining`, `send`, `unavailable`). The clock is also read where there is no deadline to compare.
use donkeywork_desktop.Base.{
  ℕ, zero, suc, ◌+◌, ◌-◌, ◌%◌, min, Bool, not, ◌||◌, Option, none, some, List, [], ◌∷◌, ◌++◌,
  Result, ok_or, leb, ltb, if◌then◌else◌, length, drop, is_empty, is_some_and,
}
use donkeywork_desktop.Base.Actions.{pure, raise, lift, gets, modify, ensure, ◌>>=◌, ◌>>◌}
use donkeywork_desktop.Console.Records.{to_be_bytes}
use donkeywork_desktop.Console.Lease.{lease_ms}
use donkeywork_desktop.Console.Owner.{Refusal}
use donkeywork_desktop.Input.Requests.{Message, unavailable, max_input}
use donkeywork_desktop.Input.Reader.{FrameReader, wanted, finish_read}
use donkeywork_desktop.Input.Daemon.{
  Daemon, Method, ask, observe, Arrival, arrived, again, failed, Sent, wrote, interrupted, broken,
}

abbrev pub is_over : Option ℕ → ℕ → Bool
is_over end now = is_some_and end (λ e. leb e now)

abbrev pub until : Option ℕ → ℕ → ℕ
until none wake = wake
until (some end) wake = min wake end

module _ {X S : Type 0} (K : Daemon X S) where
  -- What is left up to the deadline, if it is not over.
  unfoldable pub remaining : ℕ → Method X S ℕ
  remaining deadline = do
    now ← observe K.now
    ensure (ltb now deadline) Refusal.io_error
    pure (deadline - now)

  abbrev pub keep_reader :
      FrameReader × Result Refusal (Option (List ℕ)) → Method X S (Option (List ℕ))
  keep_reader (r, result) t = (record t { reader = r }, result)

  abbrev pub start_frame : Option ℕ → Method X S (Unit {0})
  start_frame (some end) = pure tt
  start_frame none = do
    now ← observe K.now
    modify (λ t. record t { reader = record t.reader { deadline = some (now + lease_ms) } })

  -- The bytes of a read, appended; and the deadline once more.
  unfoldable pub take_in : List ℕ → Method X S (Option (List ℕ))
  take_in bytes = do
    first ← gets (λ t. t.reader.deadline)
    start_frame first
    modify (λ t. record t { reader = record t.reader { bytes = t.reader.bytes ++ bytes } })
    now ← observe K.now
    over ← gets (λ t. is_over t.reader.deadline now)
    ensure (not over) Refusal.invalid
    reader ← gets (λ t. t.reader)
    keep_reader (finish_read reader)

  abbrev pub after_read : Arrival → Method X S (Option (List ℕ))
  after_read (arrived []) = raise Refusal.io_error
  after_read (arrived (b ∷ bytes)) = take_in (b ∷ bytes)
  after_read again = pure none
  after_read failed = raise Refusal.io_error

  -- One `read` of what is wanted.
  unfoldable pub read_some : Method X S (Option (List ℕ))
  read_some = do
    most ← gets (λ t. wanted t.reader)
    arrival ← observe (K.read most)
    after_read arrival

  unfoldable pub poll : ℕ → Method X S (Option (List ℕ))
  poll wake = do
    now ← observe K.now
    over ← gets (λ t. is_over t.reader.deadline now)
    ensure (not over) Refusal.invalid
    limit ← gets (λ t. until t.reader.deadline wake)
    -- `remaining`: where nothing is left, nothing is read.
    later ← observe K.now
    if leb limit later then pure none else ask (K.set_timeout (limit - later)) >> read_some

  -- What follows a write of the bytes.
  abbrev pub after_write : (List ℕ → Method X S (Unit {0})) → List ℕ → Sent → Method X S (Unit {0})
  after_write go bytes (wrote zero) = raise Refusal.io_error
  after_write go bytes (wrote (suc n)) = go (drop (suc n) bytes)
  after_write go bytes interrupted = go bytes
  after_write go bytes broken = raise Refusal.io_error

  -- The loop of `send`: an interrupted write is tried again, while the deadline allows it.
  unfoldable pub write_loop : ℕ → List ℕ → ℕ → Method X S (Unit {0})
  write_loop rounds [] deadline = pure tt
  write_loop zero (b ∷ bytes) deadline = raise Refusal.unfinished
  write_loop (suc rounds) (b ∷ bytes) deadline = do
    left ← remaining deadline
    ask (K.set_timeout left)
    sent ← observe (K.write (b ∷ bytes))
    after_write (λ rest. write_loop rounds rest deadline) (b ∷ bytes) sent

  -- `send`: one deadline for the whole message, and what is left of it at the end.
  abbrev pub send_packet : List ℕ → ℕ → Method X S (Unit {0})
  send_packet body deadline = do
    now ← observe K.now
    write_loop K.rounds (to_be_bytes (length body % 4294967296) ++ body) (min deadline (now + 100))
    left ← remaining (min deadline (now + 100))
    pure tt

  unfoldable pub send : Message → ℕ → Method X S (Unit {0})
  send message deadline = do
    body ← lift (ok_or (K.encode message) Refusal.io_error)
    ensure (not (is_empty body || ltb max_input (length body))) Refusal.invalid
    send_packet body deadline

  unfoldable pub send_unavailable : Option (List ℕ) → Method X S (Unit {0})
  send_unavailable request_id = do now ← observe K.now; send (unavailable request_id) (now + 100)
