-- ===== src/Capture/Types.antt =====
-- The data of the capture crate (device/capture/src/lib.rs). An error keeps its kind; its message
-- is not modelled. The id of a display is the number of its output, which the source writes in
-- decimal and reads back.
use donkeywork_desktop.Base.{ℕ, Bool, List, Result}
use donkeywork_desktop.Base.Int.{ℤ}

pub record FrameLimits : Type 0 where
  pub max_dimension : ℕ
  pub max_rgba_bytes : ℕ
  pub max_png_bytes : ℕ

pub record BackendCapabilities : Type 0 where
  pub capture : Bool
  pub input : Bool
  pub cursor_composition : Bool

pub record Resolution : Type 0 where
  pub width : ℕ
  pub height : ℕ

pub record Display : Type 0 where
  pub id : ℕ
  pub x : ℤ
  pub y : ℤ
  pub width : ℕ
  pub height : ℕ
  pub primary : Bool
  pub can_resize : Bool
  pub modes : List Resolution

pub record Topology : Type 0 where
  pub revision : ℕ
  pub displays : List Display

pub record NativeFrame : Type 0 where
  pub display_id : ℕ
  pub topology_revision : ℕ
  pub captured_at : ℕ
  pub width : ℕ
  pub height : ℕ
  pub cursor_embedded : Bool
  pub rgba : List ℕ

pub data Button : Type 0 where
  left middle right wheel_up wheel_down wheel_left wheel_right : Button

pub data PointerAction : Type 0 where
  move : PointerAction
  down up click : Button → PointerAction

-- A text is the list of its characters.
pub data InputAction : Type 0 where
  pointer : ℕ → ℕ → PointerAction → InputAction
  key : ℕ → Bool → InputAction
  text : List ℕ → InputAction

pub data ResizeRejection : Type 0 where
  unsupported_mode os_failed rollback_failed : ResizeRejection

pub data ResizeStatus : Type 0 where
  applied : ResizeStatus
  rejected : ResizeRejection → ResizeStatus

pub record ResizeOutcome : Type 0 where
  pub status : ResizeStatus
  pub topology : Topology

pub data ErrorKind : Type 0 where
  unavailable unsupported invalid_argument stale_topology not_found resource_exhausted : ErrorKind
  capture_failed input_failed cancelled deadline_exceeded os_failed : ErrorKind

abbrev pub Fallible : Type 0 → Type 0
Fallible A = Result ErrorKind A
