-- ===== src/Core/Types.antt =====
-- The data of the worker: device/core/src/core.rs, backend.rs and the `Reply` of wire.rs.
-- Identifiers (uuids, their texts, display and snapshot names) are compared for equality only and
-- are numbers; instants are numbers of milliseconds; a request is what the JSON of a request holds
-- once the schema has accepted it. The backend is a parameter: a state of any type with the
-- operations of the trait.
use donkeywork_desktop.Base.{ℕ, Bool, Option, List, String, Result, Assoc}

-- Error codes. A backend may return any of these, or one of its own.
pub data Code : Type 0 where
  invalid_argument unauthorized forbidden unsupported_capability worker_unavailable : Code
  not_found stale_epoch expired control_conflict resource_exhausted : Code
  stale_sequence stale_topology capture_failed : Code
  other : ℕ → Code

abbrev pub Fallible : Type 0 → Type 0
Fallible A = Result Code A

abbrev pub retention : ℕ
retention = 120000

abbrev pub lease_time : ℕ
lease_time = 45000

pub record Policy : Type 0 where
  pub uid : ℕ
  pub profile : String
  pub permissions : List String

pub record Resolution : Type 0 where
  pub width : ℕ
  pub height : ℕ

pub record Display : Type 0 where
  pub display_id : ℕ
  pub width : ℕ
  pub height : ℕ
  pub topology_revision : ℕ
  pub cursor_embedded : Bool
  pub can_resize : Bool
  pub available_resolutions : List Resolution

pub record Frame : Type 0 where
  pub display_id : ℕ
  pub topology_revision : ℕ
  pub captured_at : ℕ
  pub width : ℕ
  pub height : ℕ
  pub cursor_embedded : Bool
  pub rgba : List ℕ

pub data Action : Type 0 where
  move down up click : Action

pub data Button : Type 0 where
  no_button left middle right wheel_up wheel_down wheel_left wheel_right : Button

pub data Input : Type 0 where
  pointer : ℕ → ℕ → Action → Button → Input
  key : ℕ → Bool → Input
  text : List ℕ → Input

pub record ResizeResult : Type 0 where
  pub display : Display
  pub applied : Bool
  pub reason : ℕ

-- What the caller hands to the backend to check before each action.
pub record Guard : Type 0 where
  pub deadline : ℕ
  pub connection : ℕ

pub record Backend (B : Type 0) : Type 0 where
  pub capabilities : B → List String
  pub displays : B → B × Fallible (List Display)
  pub capture_next : ℕ → Bool → ℕ → B → B × Fallible Frame
  pub inject : ℕ → ℕ → Input → Guard → B → B × Fallible (Unit {0})
  pub resize : ℕ → ℕ → Resolution → Guard → B → B × Fallible ResizeResult
  pub release_all : B → B × Fallible (Unit {0})

pub record Connection : Type 0 where
  pub uid : ℕ
  pub id : ℕ

pub record Snapshot : Type 0 where
  pub id : ℕ
  pub display : Display
  pub captured : ℕ

pub record Session : Type 0 where
  pub uid : ℕ
  pub profile : String
  pub epoch : ℕ
  pub origin : ℕ
  pub connections : List ℕ
  pub retain_until : Option ℕ
  pub closed : Bool
  pub snapshots : List Snapshot

pub record Lease : Type 0 where
  pub id : ℕ
  pub session : ℕ
  pub connection : ℕ
  pub deadline : ℕ
  pub sequence : ℕ

-- The session that a request names, and its epoch.
pub record Target : Type 0 where
  pub session_id : ℕ
  pub session_epoch : ℕ

-- What the input requests but `input.reset` say of the screen that they mean.
pub record Aim : Type 0 where
  pub display_id : ℕ
  pub snapshot_id : ℕ
  pub topology_revision : ℕ

-- The request types with their payloads. A type that is bound to a session holds its target.
pub data Body : Type 0 where
  describe session_open : Body
  session_close control_acquire : Target → Body
  control_renew control_release : Target → ℕ → Body
  screenshot_request : Target → ℕ → Bool → Body
  input_event : Target → ℕ → ℕ → Aim → Input → Body
  input_reset : Target → ℕ → ℕ → Body
  display_resize : Target → ℕ → ℕ → ℕ → Resolution → Body
  terminal_open terminal_close terminal_other : Target → Body

pub record Request : Type 0 where
  pub message_id : ℕ
  pub body : Body

pub data Payload : Type 0 where
  described : ℕ → ℕ → String → List String → List Display → Payload
  opened ack : Payload
  granted : ℕ → Payload
  resized : ℕ → Bool → ℕ → ℕ → ℕ → ℕ → Payload
  shot : ℕ → Frame → ℕ → ℕ → Payload
  error : Code → Payload

pub record Reply : Type 0 where
  pub message_id : ℕ
  pub request_message_id : ℕ
  pub target : Option Target
  pub payload : Payload
  pub binary : List ℕ

pub record Cached : Type 0 where
  pub uid : ℕ
  pub session : Option ℕ
  pub message : ℕ
  pub request : Request
  pub reply : Reply
  pub expires : ℕ

pub record Core (B : Type 0) : Type 0 where
  pub worker_id : ℕ
  pub policies : Assoc Policy
  pub backend : B
  pub sessions : Assoc Session
  pub lease : Option Lease
  pub cache : List Cached
  pub faulted : Bool
