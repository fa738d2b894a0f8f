-- ===== src/Input/Daemon.antt =====
-- What a peer's thread of the input daemon holds, and what it asks of its surroundings
-- (device/console/src/bin/input-daemon.rs, `Control`, `locked`, `release_owned`).
use donkeywork_desktop.Base.{ℕ, Bool, true, ◌||◌, Option, List, Result, ok, err, if◌then◌else◌}
use donkeywork_desktop.Base.Actions.{Act, pure, raise, gets, modify, ◌>>=◌, ◌>>◌}
use donkeywork_desktop.Console.Owner.{Refusal, SharedDevice, Use, release, use_all}
use donkeywork_desktop.Console.Devices.{Emit, InputDevice, reset}
use donkeywork_desktop.Input.Requests.{Request, Message}
use donkeywork_desktop.Input.Guards.{Guard, GuardPath}
use donkeywork_desktop.Input.Reader.{FrameReader}

-- One `read` on the peer's socket: no bytes at its end; `again` is a time-out or an interrupt.
pub data Arrival : Type 0 where
  arrived : List ℕ → Arrival
  again failed : Arrival

-- One `write` on the peer's socket.
pub data Sent : Type 0 where
  wrote : ℕ → Sent
  interrupted broken : Sent

-- What the other threads do up to a point: their uses of the lock, whether STOP is set, and whether
-- one of them has failed inside the lock.
pub record Meanwhile (S : Type 0) : Type 0 where
  pub uses : List (Use (InputDevice S))
  pub stops : Bool
  pub poisons : Bool

-- The surroundings: the kernel, the file system, the other threads, the JSON codec and the device
-- files.
pub record Daemon (X S : Type 0) : Type 0 where
  pub now : X → X × ℕ
  pub meanwhile : X → X × Meanwhile S
  pub peer_uid : X → X × Result Refusal ℕ
  pub set_timeout : ℕ → X → X × Result Refusal (Unit {0})
  pub read : ℕ → X → X × Arrival
  pub write : List ℕ → X → X × Sent
  pub guard_path : X → X × GuardPath
  pub entropy : X → X × Result Refusal ℕ
  pub parse_guard : List ℕ → Option Guard
  pub parse_acquire : List ℕ → Option (Option (List ℕ))
  pub parse_request : List ℕ → Option Request
  pub encode : Message → Option (List ℕ)
  pub emit : Emit S
  -- How many writes of one message are followed.
  pub rounds : ℕ

pub record Control : Type 0 where
  pub generation : ℕ
  pub sequence : ℕ
  pub deadline : ℕ
  pub end : Option ℕ
  pub guard : Option Guard

-- A peer's thread: its surroundings, the devices behind the lock, STOP, and the variables of
-- `serve`.
pub record Thread (X S : Type 0) : Type 0 where
  pub world : X
  pub shared : SharedDevice (InputDevice S)
  pub stopped : Bool
  pub control : Option Control
  pub reader : FrameReader

abbrev pub Method : Type 0 → Type 0 → Type 0 → Type 0
Method X S A = Act (Thread X S) Refusal A

-- A call of the surroundings.
abbrev pub ask : {X S A : Type 0} → (X → X × Result Refusal A) → Method X S A
ask f t = (record t { world = (f t.world).0 }, (f t.world).1)

abbrev pub observe : {X S A : Type 0} → (X → X × A) → Method X S A
observe f t = (record t { world = (f t.world).0 }, ok (f t.world).1)

module _ {X S : Type 0} (K : Daemon X S) (peer : ℕ) where
  -- What the others did is there.
  abbrev pub catch_up : Meanwhile S → Method X S (Unit {0})
  catch_up m =
      modify λ t. record t { shared = use_all m.uses t.shared; stopped = t.stopped || m.stops }

  abbrev pub see_others : Method X S (Meanwhile S)
  see_others = observe K.meanwhile >>= λ m. catch_up m >> pure m

  unfoldable pub load_stop : Method X S Bool
  load_stop = see_others >>= λ m. gets (λ t. t.stopped)

  abbrev pub set_stop : Method X S (Unit {0})
  set_stop = modify (λ t. record t { stopped = true })

  -- One use of the lock: what the others did first is there, and a failed lock stops the daemon.
  abbrev pub locked : {A : Type 0} → Method X S A → Method X S A
  locked inside =
      see_others >>= λ m. if m.poisons then set_stop >> raise Refusal.invalid else inside

  -- A use of the shared devices.
  abbrev pub on_shared :
      {A : Type 0}
      → (SharedDevice (InputDevice S) → SharedDevice (InputDevice S) × Result Refusal A)
      → Method X S A
  on_shared f t = (record t { shared = (f t.shared).0 }, (f t.shared).1)

  -- An error stops the daemon.
  abbrev pub stop_on_error :
      Thread X S × Result Refusal (Unit {0}) → Thread X S × Result Refusal (Unit {0})
  stop_on_error (t, ok u) = (t, ok u)
  stop_on_error (t, err e) = (record t { stopped = true }, err e)

  -- `locked(shared)?` leaves before the test of the result.
  unfoldable pub release_owned : Method X S (Unit {0})
  release_owned = locked (λ t. stop_on_error (on_shared (release peer (reset K.emit)) t))
