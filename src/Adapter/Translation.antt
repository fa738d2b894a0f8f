-- ===== src/Adapter/Translation.antt =====
-- The translations of the adapter between the capture crate and the worker
-- (device/core/src/x11_adapter.rs).
use donkeywork_desktop.Base.{
  ℕ, Bool, true, false, not, ◌&&◌, Option, none, some, List, [], ◌∷◌, ok, err, leb, ◌==◌,
  if◌then◌else◌,
}
use donkeywork_desktop.Core.Types as Worker
use donkeywork_desktop.Capture.Types as Capture

unfoldable pub code : Capture.ErrorKind → Worker.Code
code Capture.unavailable = Worker.worker_unavailable
code Capture.unsupported = Worker.unsupported_capability
code Capture.invalid_argument = Worker.invalid_argument
code Capture.stale_topology = Worker.stale_topology
code Capture.not_found = Worker.not_found
code Capture.resource_exhausted = Worker.resource_exhausted
code Capture.capture_failed = Worker.capture_failed
code Capture.cancelled = Worker.expired
code Capture.deadline_exceeded = Worker.expired
code Capture.input_failed = Worker.worker_unavailable
code Capture.os_failed = Worker.worker_unavailable

-- `map_err(code)`
abbrev pub with_code : {A : Type 0} → Capture.Fallible A → Worker.Fallible A
with_code (ok a) = ok a
with_code (err e) = err (code e)

abbrev pub is_usable : ℕ → ℕ → Bool
is_usable width height = not (width == 0) && not (height == 0) && leb width 4096 && leb height 4096

-- `filter` and `map` over the modes.
unfoldable pub resolutions : List Capture.Resolution → List Worker.Resolution
resolutions [] = []
resolutions (m ∷ ms) =
    let rest = resolutions ms in
    if is_usable m.width m.height
    then record { width = m.width; height = m.height } ∷ rest
    else rest

unfoldable pub display : Capture.Display → ℕ → Worker.Fallible Worker.Display
display raw revision =
    if not (is_usable raw.width raw.height)
    then err Worker.unsupported_capability
    else ok (record {
      display_id = raw.id;
      width = raw.width;
      height = raw.height;
      topology_revision = revision;
      cursor_embedded = false;
      can_resize = raw.can_resize;
      available_resolutions = resolutions raw.modes;
    })

abbrev prepend :
    Worker.Fallible Worker.Display
    → Worker.Fallible (List Worker.Display)
    → Worker.Fallible (List Worker.Display)
prepend (err e) rest = err e
prepend (ok d) (err e) = err e
prepend (ok d) (ok ds) = ok (d ∷ ds)

-- `collect` over the displays.
unfoldable pub displays_of : List Capture.Display → ℕ → Worker.Fallible (List Worker.Display)
displays_of [] revision = ok []
displays_of (d ∷ ds) revision = prepend (display d revision) (displays_of ds revision)

abbrev pub is_click : Worker.Action → Bool
is_click Worker.click = true
is_click Worker.move = false
is_click Worker.down = false
is_click Worker.up = false

abbrev wheel : Bool → Capture.Button → Worker.Fallible (Option Capture.Button)
wheel true b = ok (some b)
wheel false b = err Worker.invalid_argument

-- `button_value`: a wheel button can only be clicked.
unfoldable pub button_value :
    Worker.Button → Worker.Action → Worker.Fallible (Option Capture.Button)
button_value Worker.left action = ok (some Capture.left)
button_value Worker.middle action = ok (some Capture.middle)
button_value Worker.right action = ok (some Capture.right)
button_value Worker.wheel_up action = wheel (is_click action) Capture.wheel_up
button_value Worker.wheel_down action = wheel (is_click action) Capture.wheel_down
button_value Worker.wheel_left action = wheel (is_click action) Capture.wheel_left
button_value Worker.wheel_right action = wheel (is_click action) Capture.wheel_right
button_value Worker.no_button action = ok none

unfoldable pub pointer_action :
    Worker.Action → Option Capture.Button → Worker.Fallible Capture.PointerAction
pointer_action Worker.move none = ok Capture.move
pointer_action Worker.move (some b) = err Worker.invalid_argument
pointer_action Worker.down none = err Worker.invalid_argument
pointer_action Worker.down (some b) = ok (Capture.down b)
pointer_action Worker.up none = err Worker.invalid_argument
pointer_action Worker.up (some b) = ok (Capture.up b)
pointer_action Worker.click none = err Worker.invalid_argument
pointer_action Worker.click (some b) = ok (Capture.click b)

abbrev pointer_input :
    ℕ
    → ℕ
    → Worker.Action
    → Worker.Fallible (Option Capture.Button)
    → Worker.Fallible Capture.InputAction
pointer_input x y action (err e) = err e
pointer_input x y action (ok b) = elim (pointer_action action b) [
  | err e ↦ err e
  | ok a ↦ ok (Capture.pointer x y a)
]

unfoldable pub input : Worker.Input → Worker.Fallible Capture.InputAction
input (Worker.pointer x y action button) = pointer_input x y action (button_value button action)
input (Worker.key usage down) = ok (Capture.key usage down)
input (Worker.text chars) = ok (Capture.text chars)
