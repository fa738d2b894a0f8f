-- ===== src/Input/Peers.antt =====
-- The loop that accepts peers, and the end of the daemon
-- (device/console/src/bin/input-daemon.rs, `main`).
use donkeywork_desktop.Base.{
  ℕ, zero, suc, ◌+◌, Bool, true, false, Option, none, some, List, [], ◌∷◌, ◌++◌, Result, ok, err,
  leb, ltb, if◌then◌else◌, length, take, drop,
}
use donkeywork_desktop.Base.Actions.{Act, pure, raise, gets, modify, ensure, ◌>>=◌, ◌>>◌}
use donkeywork_desktop.Console.Owner.{Refusal, SharedDevice}
use donkeywork_desktop.Console.Devices.{Emit, InputDevice, reset}

-- One `accept`, with the stream.
pub data Acceptance : Type 0 where
  accepted : ℕ → Acceptance
  would_block interrupted failed : Acceptance

-- The surroundings: STOP, the threads, the listener, and the devices as the threads leave them.
-- `poll` is false after an error that is no interrupt, `join` after a panic.
pub record Listener (X S : Type 0) : Type 0 where
  pub stops : X → X × Bool
  pub stop : X → X
  pub is_finished : ℕ → X → X × Bool
  pub join : ℕ → X → X × Bool
  pub accept : X → X × Acceptance
  pub poll : X → X × Bool
  pub close : ℕ → X → X
  pub set_blocking : ℕ → X → X × Bool
  pub spawn : ℕ → ℕ → X → X × Option ℕ
  pub devices : X → SharedDevice (InputDevice S)
  pub emit : Emit S

-- The variables of `main`, with the threads that were spawned and those that were joined.
pub record Host (X : Type 0) : Type 0 where
  pub world : X
  pub workers : List ℕ
  pub peer : ℕ
  pub spawned : List ℕ
  pub joined : List ℕ

abbrev pub max_peers : ℕ
max_peers = 8

abbrev pub new_host : {X : Type 0} → X → Host X
new_host x = record { world = x; workers = []; peer = 0; spawned = []; joined = [] }

-- `swap_remove`: the last one takes the place of the one that goes.
abbrev pub all_but_last : ℕ → List ℕ → List ℕ
all_but_last x [] = []
all_but_last x (y ∷ ys) = x ∷ all_but_last y ys

abbrev pub last : ℕ → List ℕ → ℕ
last x [] = x
last x (y ∷ ys) = last y ys

abbrev pub moved_up : List ℕ → List ℕ
moved_up [] = []
moved_up (x ∷ xs) = last x xs ∷ all_but_last x xs

module _ {X S : Type 0} (K : Listener X S) where
  abbrev pub observe : {A : Type 0} → (X → X × A) → Act (Host X) Refusal A
  observe f h = (record h { world = (f h.world).0 }, ok (f h.world).1)

  abbrev pub look_at : List ℕ → Act (Host X) Refusal Bool
  look_at [] = pure false
  look_at (w ∷ rest) = observe (K.is_finished w)

  abbrev pub answer_of : Bool → Result Refusal (Unit {0})
  answer_of true = ok tt
  answer_of false = err Refusal.io_error

  abbrev pub retire_at : ℕ → List ℕ → Act (Host X) Refusal (Unit {0})
  retire_at i [] h = (h, ok tt)
  retire_at i (w ∷ rest) h = (
    record h {
      world = (K.join w h.world).0;
      workers = take i h.workers ++ moved_up rest;
      joined = w ∷ h.joined;
    },
    answer_of (K.join w h.world).1,
  )

  -- `workers.swap_remove(index).join()`
  unfoldable pub retire : ℕ → Act (Host X) Refusal (Unit {0})
  retire i h = retire_at i (drop i h.workers) h

  -- The loop over the workers, a round for each, since a round retires one or goes past it. Its
  -- result is the index in the end.
  unfoldable pub reap : ℕ → ℕ → Act (Host X) Refusal ℕ
  reap zero i = pure i
  reap (suc rounds) i = do
    workers ← gets (λ h. h.workers)
    finished ← look_at (drop i workers)
    if finished then retire i >> reap rounds i else reap rounds (i + 1)

  abbrev pub keep_worker : Option ℕ → Act (Host X) Refusal (Unit {0})
  keep_worker none = raise Refusal.io_error
  keep_worker (some w) =
      modify λ h. record h { workers = h.workers ++ w ∷ []; spawned = w ∷ h.spawned }

  -- A thread of its own for the peer, under the next number (`checked_add` of a `u64`).
  unfoldable pub admit : ℕ → Act (Host X) Refusal (Unit {0})
  admit stream = do
    blocking ← observe (K.set_blocking stream)
    ensure blocking Refusal.io_error
    peer ← gets (λ h. h.peer)
    ensure (ltb (peer + 1) 18446744073709551616) Refusal.invalid
    modify (λ h. record h { peer = peer + 1 })
    worker ← observe (K.spawn stream (peer + 1))
    keep_worker worker

  abbrev pub admit_or_drop : Bool → ℕ → Act (Host X) Refusal (Unit {0})
  admit_or_drop true stream = modify (λ h. record h { world = K.close stream h.world })
  admit_or_drop false stream = admit stream

  abbrev pub welcome : Acceptance → Act (Host X) Refusal (Unit {0})
  welcome (accepted stream) = do
    workers ← gets (λ h. h.workers)
    admit_or_drop (leb max_peers (length workers)) stream
  welcome would_block = do polled ← observe K.poll; ensure polled Refusal.io_error
  welcome interrupted = pure tt
  welcome failed = raise Refusal.io_error

  -- One round of the loop that accepts.
  unfoldable pub turn : Act (Host X) Refusal (Unit {0})
  turn = do
    workers ← gets (λ h. h.workers)
    end ← reap (length workers) 0
    acceptance ← observe K.accept
    welcome acceptance

  unfoldable pub accept_loop : ℕ → Act (Host X) Refusal (Unit {0})
  accept_loop zero = raise Refusal.unfinished
  accept_loop (suc rounds) = do
    stop ← observe K.stops
    if stop then pure tt else turn >> accept_loop rounds

  -- `for worker in workers { let _ = worker.join(); }`
  unfoldable pub join_all : List ℕ → Host X → Host X
  join_all [] h = record h { workers = [] }
  join_all (w ∷ ws) h =
      join_all ws (record h { world = (K.join w h.world).0; joined = w ∷ h.joined })

  -- `input.device.reset()?` leaves before the owner is forgotten.
  abbrev pub forget_owner :
      Result Refusal (Unit {0})
      → SharedDevice (InputDevice S)
      → InputDevice S × Result Refusal (Unit {0})
      → SharedDevice (InputDevice S) × Result Refusal (Unit {0})
  forget_owner result s (d, ok u) = (record { device = d; owner = none }, result)
  forget_owner result s (d, err e) = (record s { device = d }, err e)

  -- After the loop: STOP is set, the workers are joined, and the devices are reset.
  abbrev pub shut_down :
      Host X × Result Refusal (Unit {0})
      → Host X × (SharedDevice (InputDevice S) × Result Refusal (Unit {0}))
  shut_down (h, result) =
      let ended = join_all h.workers (record h { world = K.stop h.world }) in
      let devices = K.devices ended.world in
      (ended, forget_owner result devices (reset K.emit devices.device))

  unfoldable pub run : ℕ → X → Host X × (SharedDevice (InputDevice S) × Result Refusal (Unit {0}))
  run rounds x = shut_down (accept_loop rounds (new_host x))
