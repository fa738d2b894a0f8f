-- ===== src/Broker/Kernel.antt =====
-- What a worker of the capability broker asks of the kernel, with a log of the calls that matter
-- (device/console/src/bin/socket-broker.rs).
use donkeywork_desktop.Base.{ℕ, Bool, Option, List, ◌∷◌, Result, ok, err}
use donkeywork_desktop.Base.Actions.{Act}

-- The kinds of `io::Error` in use; `unfinished` is of the model alone, where a loop is followed no
-- further.
pub data ErrorKind : Type 0 where
  invalid_input invalid_data permission_denied timed_out would_block : ErrorKind
  interrupted write_zero unfinished other : ErrorKind

pub record Metadata : Type 0 where
  pub is_dir : Bool
  pub is_socket : Bool
  pub uid : ℕ
  pub mode : ℕ

-- A path, with what `Path` answers about it.
pub record SocketPath : Type 0 where
  pub bytes : List ℕ
  pub is_absolute : Bool
  pub parent : Option (List ℕ)

-- One `read` of a byte.
pub data Reading : Type 0 where
  at_end : Reading
  byte : ℕ → Reading
  fails : ErrorKind → Reading

-- `F` with a descriptor, or `E`.
pub data Message : Type 0 where
  rights : ℕ → Message
  unavailable : Message

-- One `sendmsg`: what it returns, or the error where that is negative.
pub data Sending : Type 0 where
  took : ℕ → Sending
  refused : ErrorKind → Sending

-- Instants and time-outs in milliseconds, descriptors as numbers. `first_header` says whether
-- `CMSG_FIRSTHDR` of a control buffer of that length is not null.
pub record Kernel (X : Type 0) : Type 0 where
  pub now : X → X × ℕ
  pub stops : X → X × Bool
  pub peer_uid : ℕ → X → X × Result ErrorKind ℕ
  pub set_read_timeout : ℕ → ℕ → X → X × Result ErrorKind (Unit {0})
  pub set_write_timeout : ℕ → ℕ → X → X × Result ErrorKind (Unit {0})
  pub set_nonblocking : ℕ → Bool → X → X × Result ErrorKind (Unit {0})
  pub read : ℕ → X → X × Reading
  pub symlink_metadata : List ℕ → X → X × Result ErrorKind Metadata
  pub socket : X → X × Result ErrorKind ℕ
  pub connect : ℕ → List ℕ → X → X × Result ErrorKind (Unit {0})
  pub sendmsg : ℕ → Message → X → X × Sending
  pub close : ℕ → X → X
  pub cmsg_space : ℕ
  pub cmsghdr_size : ℕ
  pub first_header : ℕ → Bool
  -- How often one message is sent while the sending is interrupted.
  pub rounds : ℕ

-- The calls that are written down, with their answers.
pub data Call : Type 0 where
  received : ℕ → Call
  looked : List ℕ → Metadata → Call
  made : ℕ → Call
  linked : ℕ → List ℕ → Call
  peer_is : ℕ → ℕ → Call
  timed : ℕ → Call
  sent : Message → ℕ → Sending → Call
  closed : ℕ → Call

-- The kernel, and the calls up to now, the latest first.
pub record Worker (X : Type 0) : Type 0 where
  pub world : X
  pub calls : List Call

abbrev pub Method : Type 0 → Type 0 → Type 0
Method X A = Act (Worker X) ErrorKind A

abbrev pub written : {A : Type 0} → (A → Call) → List Call → Result ErrorKind A → List Call
written note calls (ok a) = note a ∷ calls
written note calls (err e) = calls

module _ {X A : Type 0} where
  -- A call that is not written down.
  abbrev pub ask : (X → X × Result ErrorKind A) → Method X A
  ask f s = (record s { world = (f s.world).0 }, (f s.world).1)

  abbrev pub observe : (X → X × A) → Method X A
  observe f s = (record s { world = (f s.world).0 }, ok (f s.world).1)

  -- A call that is written down where it succeeds.
  abbrev pub ask_noted : (A → Call) → (X → X × Result ErrorKind A) → Method X A
  ask_noted note f s =
      (record { world = (f s.world).0; calls = written note s.calls (f s.world).1 }, (f s.world).1)

  -- A call that cannot fail, written down.
  abbrev pub observe_noted : (A → Call) → (X → X × A) → Method X A
  observe_noted note f s =
      (record { world = (f s.world).0; calls = note (f s.world).1 ∷ s.calls }, ok (f s.world).1)
