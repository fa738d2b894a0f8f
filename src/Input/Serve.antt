-- ===== src/Input/Serve.antt =====
-- `serve`: the thread of one peer of the input daemon (device/console/src/bin/input-daemon.rs).
use donkeywork_desktop.Base.{
  ℕ, zero, suc, ◌+◌, ◌^◌, min, Bool, true, false, not, ◌||◌, Option, none, some, List, Result, ok,
  err, ok_or, leb, ltb, ◌==◌, if◌then◌else◌, is_some_and, is_empty, length,
}
use donkeywork_desktop.Base.Actions.{pure, lift, gets, modify, ensure, ◌>>=◌, ◌>>◌}
use donkeywork_desktop.Console.Lease.{lease_ms, next_deadline, end_at}
use donkeywork_desktop.Console.Owner.{Refusal, SharedDevice, claim, with_owned}
use donkeywork_desktop.Console.Devices.{InputDevice}
use donkeywork_desktop.Input.Requests.{Event, hello, ack, validate}
use donkeywork_desktop.Input.Effects.{perform}
use donkeywork_desktop.Input.Guards.{Guard, read_guard, is_baseline}
use donkeywork_desktop.Input.Daemon.{
  Daemon, Control, Method, ask, observe, locked, on_shared, load_stop, release_owned,
}
use donkeywork_desktop.Input.Stream.{poll, send, send_unavailable}

-- One round of the loop goes on with the next, or returns.
pub data Turn : Type 0 where
  again over : Turn

abbrev pub is_again : Turn → Bool
is_again again = true
is_again over = false

abbrev pub is_renew : Event → Bool
is_renew Event.renew = true
is_renew (Event.move x y) = false
is_renew (Event.button b down x y) = false
is_renew (Event.wheel v h x y) = false
is_renew (Event.key hid down) = false
is_renew Event.reset = false
is_renew Event.release = false

abbrev pub is_release : Event → Bool
is_release Event.release = true
is_release Event.renew = false
is_release (Event.move x y) = false
is_release (Event.button b down x y) = false
is_release (Event.wheel v h x y) = false
is_release (Event.key hid down) = false
is_release Event.reset = false

-- `matches!(request_id, Some(id) if id.is_empty() || id.len() > 64)`
abbrev pub is_bad_id : Option (List ℕ) → Bool
is_bad_id id = is_some_and id (λ t. is_empty t || ltb 64 (length t))

abbrev pub from_claim : {D : Type 0} → SharedDevice D × Bool → SharedDevice D × Result Refusal Bool
from_claim (s, claimed) = (s, ok claimed)

-- The next look at the clock: with control not after its deadline.
abbrev pub wake_at : ℕ → Option Control → ℕ
wake_at now none = now + 100
wake_at now (some c) = min (now + 100) c.deadline

-- `guarded` says whether a guard file is configured.
module _ {X S : Type 0} (K : Daemon X S) (peer width height : ℕ) (guarded : Bool) where
  unfoldable pub peer_root : Method X S (Unit {0})
  peer_root = do uid ← ask K.peer_uid; ensure (uid == 0) Refusal.io_error

  abbrev pub look_guard : Method X S (Result Refusal Guard)
  look_guard = do path ← observe K.guard_path; pure (read_guard K.parse_guard width height path)

  abbrev pub compare_guard : Bool → Option Guard → Method X S Bool
  compare_guard true (some baseline) = do current ← look_guard; pure (is_baseline baseline current)
  compare_guard true none = pure false
  compare_guard false (some baseline) = pure false
  compare_guard false none = pure true

  -- `Control::valid`
  unfoldable pub is_valid : Control → Method X S Bool
  is_valid c = do
    now ← observe K.now
    (if leb c.deadline now then pure false else compare_guard guarded c.guard)

  abbrev pub drop_control : Method X S (Unit {0})
  drop_control = modify (λ t. record t { control = none })

  abbrev pub give_notice : Method X S (Unit {0})
  give_notice = do release_owned K peer; drop_control; send_unavailable K none

  abbrev pub test_control : Option Control → Method X S (Unit {0})
  test_control none = pure tt
  test_control (some c) = do valid ← is_valid c; (if valid then pure tt else give_notice)

  -- Control that is no longer valid is given up.
  unfoldable pub revoke_expired : Method X S (Unit {0})
  revoke_expired = do control ← gets (λ t. t.control); test_control control

  abbrev pub keep_control : Control → Method X S (Unit {0})
  keep_control c = modify (λ t. record t { control = some c })

  -- The claim and the greeting.
  unfoldable pub take_control : Option (List ℕ) → Option Guard → Method X S Turn
  take_control request_id guard = do
    generation ← ask K.entropy
    now ← observe K.now
    claimed ← locked K peer (on_shared K peer (λ s. from_claim (claim peer s)))
    (if not claimed then send_unavailable K request_id >> pure again else do
      send K (hello generation width height lease_ms) (now + lease_ms)
      keep_control (record {
        generation = generation;
        sequence = 1;
        deadline = now + lease_ms;
        end = elim guard [ none ↦ some (now + 10000) | some g ↦ none ];
        guard = guard;
      })
      pure again)

  abbrev pub take_guarded : Option (List ℕ) → Result Refusal Guard → Method X S Turn
  take_guarded request_id (ok g) = take_control request_id (some g)
  take_guarded request_id (err e) = send_unavailable K request_id >> pure again

  -- A frame without control: it may ask for control, and any other request is not executed.
  abbrev pub answer : List ℕ → Option (Option (List ℕ)) → Method X S Turn
  answer bytes none = do
    request ← lift (ok_or (K.parse_request bytes) Refusal.invalid)
    send_unavailable K none
    pure again
  answer bytes (some request_id) = do
    ensure (not (is_bad_id request_id)) Refusal.invalid
    (if not guarded
        then take_control request_id none
        else look_guard >>= (λ guard. take_guarded request_id guard))

  unfoldable pub acquire : List ℕ → Method X S Turn
  acquire bytes = answer bytes (K.parse_acquire bytes)

  -- After a release that succeeds nobody owns the devices.
  abbrev pub give_up :
      Bool
      → SharedDevice (InputDevice S) × Result Refusal (Unit {0})
      → SharedDevice (InputDevice S) × Result Refusal (Unit {0})
  give_up true (s, ok u) = (record s { owner = none }, ok u)
  give_up true (s, err e) = (s, err e)
  give_up false (s, r) = (s, r)

  -- The event on the devices: one use of the lock.
  abbrev pub act :
      Event
      → SharedDevice (InputDevice S)
      → SharedDevice (InputDevice S) × Result Refusal (Unit {0})
  act event s = give_up (is_release event) (with_owned peer (perform K.emit event) s)

  abbrev pub set_deadline : ℕ → Method X S (Unit {0})
  set_deadline d = modify λ t. record t {
    control = elim t.control [ none ↦ none | some c ↦ some (record c { deadline = d }) ];
  }

  -- `checked_add` on 64 bits.
  abbrev pub next_sequence : ℕ → Method X S ℕ
  next_sequence n = do ensure (ltb (n + 1) (2 ^ 64)) Refusal.invalid; pure (n + 1)

  abbrev pub keep_sequence : ℕ → Method X S (Unit {0})
  keep_sequence n = modify λ t. record t {
    control = elim t.control [ none ↦ none | some c ↦ some (record c { sequence = n }) ];
  }

  -- From the check of the deadline on.
  unfoldable pub obey : Control → Event → Method X S Turn
  obey c event = do
    accepted ← observe K.now
    deadline ← lift (
        next_deadline (record { is_renew = is_renew event; accepted_at = accepted }) c.deadline
          (end_at c.end accepted))
    set_deadline deadline
    locked K peer (on_shared K peer (act event))
    send K (ack c.sequence true) deadline
    next ← next_sequence c.sequence
    keep_sequence next
    (if is_release event then drop_control else pure tt)
    pure again

  -- A frame under control.
  unfoldable pub execute : Control → List ℕ → Method X S Turn
  execute c bytes = do
    request ← lift (ok_or (K.parse_request bytes) Refusal.invalid)
    lift (validate request c.generation c.sequence width height)
    obey c request.event

  abbrev pub serve_frame : List ℕ → Option Control → Method X S Turn
  serve_frame bytes none = acquire bytes
  serve_frame bytes (some c) = execute c bytes

  abbrev pub leave : Method X S Turn
  leave = release_owned K peer >> pure over

  -- A frame that has arrived: the tests are made once more, before anything is done.
  unfoldable pub handle : List ℕ → Method X S Turn
  handle bytes = do
    stopped ← load_stop K peer
    (if stopped
        then leave
        else do revoke_expired; control ← gets (λ t. t.control); serve_frame bytes control)

  abbrev pub after_poll : Option (List ℕ) → Method X S Turn
  after_poll none = pure again
  after_poll (some bytes) = handle bytes

  -- One round of the loop.
  unfoldable pub round : Method X S Turn
  round = do
    stopped ← load_stop K peer
    (if stopped then leave else do
      revoke_expired
      now ← observe K.now
      wake ← gets (λ t. wake_at now t.control)
      frame ← poll K wake
      after_poll frame)

  -- The loop, for a number of rounds.
  unfoldable pub serve_rounds : ℕ → Method X S Turn
  serve_rounds zero = pure again
  serve_rounds (suc rounds) = do
    turn ← round
    (if is_again turn then serve_rounds rounds else pure over)

  unfoldable pub serve : ℕ → Method X S Turn
  serve rounds = peer_root >> serve_rounds rounds

  -- The thread of a peer: whatever `serve` returns, what the peer owns is released.
  unfoldable pub peer_thread : ℕ → Method X S (Unit {0})
  peer_thread rounds t = release_owned K peer (serve rounds t).0
