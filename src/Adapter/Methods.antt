-- ===== src/Adapter/Methods.antt =====
-- The methods of the adapter, which make it a backend (device/core/src/x11_adapter.rs).
use donkeywork_desktop.Base.{
  ℕ, Bool, true, false, ◌&&◌, none, some, List, [], ◌∷◌, ◌++◌, ok, err, ◌==◌, if◌then◌else◌, any,
  find, String,
}
use donkeywork_desktop.Base.Actions.{Act, pure, lift, modify, ◌>>=◌, ◌>>◌}
use donkeywork_desktop.Core.Types as Worker
use donkeywork_desktop.Capture.Types as Capture
use donkeywork_desktop.Capture.Server.{Server, X11Backend, Method, Call}
use donkeywork_desktop.Capture.Topology.{read_topology}
use donkeywork_desktop.Capture.Screenshot.{capture_next}
use donkeywork_desktop.Capture.Input.{inject}
use donkeywork_desktop.Capture.Resize.{resize}
use donkeywork_desktop.Capture.Events.{release_all}
use donkeywork_desktop.Adapter.Translation.{with_code, display, displays_of, input}

pub record X11Adapter (X : Type 0) : Type 0 where
  pub inner : X11Backend X
  pub resize_supported : Bool

-- A method of the adapter.
abbrev pub Service : Type 0 → Type 0 → Type 0
Service X A = Act (X11Adapter X) Worker.Code A

-- A method of the capture crate, with its error as a code.
abbrev pub inside : {X A : Type 0} → Method X A → Service X A
inside m a = (record a { inner = (m a.inner).0 }, with_code (m a.inner).1)

-- The reasons of a resize result, as numbers for their texts.
abbrev pub reason_none : ℕ
reason_none = 0

abbrev pub reason_unsupported_mode : ℕ
reason_unsupported_mode = 1

abbrev pub reason_os_failed : ℕ
reason_os_failed = 2

abbrev pub reason_rollback_failed : ℕ
reason_rollback_failed = 3

unfoldable pub applied_of : Capture.ResizeStatus → Bool × ℕ
applied_of Capture.applied = (true, reason_none)
applied_of (Capture.rejected Capture.unsupported_mode) = (false, reason_unsupported_mode)
applied_of (Capture.rejected Capture.os_failed) = (false, reason_os_failed)
applied_of (Capture.rejected Capture.rollback_failed) = (false, reason_rollback_failed)

abbrev pub frame_of : Capture.NativeFrame → Worker.Frame
frame_of f = record {
  display_id = f.display_id;
  topology_revision = f.topology_revision;
  captured_at = f.captured_at;
  width = f.width;
  height = f.height;
  cursor_embedded = f.cursor_embedded;
  rgba = f.rgba;
}

-- The end of `resize`: the display that was meant, as it is now.
unfoldable pub resize_result : Capture.ResizeOutcome → ℕ → Worker.Fallible Worker.ResizeResult
resize_result o id = elim (find (λ d. d.id == id) o.topology.displays) [
  | none ↦ err Worker.capture_failed
  | some actual ↦ elim (display actual o.topology.revision) [
    | err e ↦ err e
    | ok d ↦ ok (record {
      display = d;
      applied = (applied_of o.status).0;
      reason = (applied_of o.status).1;
    })
  ]
]

-- `GuardAdapter`: any refusal is a cancellation.
abbrev pub cancelled_guard : {X : Type 0} → (X → X × Worker.Fallible (Unit {0})) → Call X (Unit {0})
cancelled_guard check x =
    ((check x).0, elim (check x).1 [ ok u ↦ ok u | err e ↦ err Capture.cancelled ])

module _ {X : Type 0} ⦃K : Server X⦄
    (check : Worker.Guard → X → X × Worker.Fallible (Unit {0})) where
  unfoldable pub capabilities : X11Adapter X → List String
  capabilities a =
      "desktop.view" ∷ (if a.inner.input_supported then "desktop.control" ∷ [] else [])
      ++ (if a.resize_supported && a.inner.input_supported then "desktop.resize" ∷ [] else [])

  unfoldable pub displays : Service X (List Worker.Display)
  displays = do
    topology ← inside read_topology
    modify (λ a. record a { resize_supported = any (λ d. d.can_resize) topology.displays })
    lift (displays_of topology.displays topology.revision)

  unfoldable pub capture : ℕ → Bool → ℕ → Service X Worker.Frame
  capture id cursor deadline = do
    frame ← inside (capture_next id cursor deadline)
    pure (frame_of frame)

  unfoldable pub inject_input : ℕ → ℕ → Worker.Input → Worker.Guard → Service X (Unit {0})
  inject_input revision id action guard = do
    translated ← lift (input action)
    inside (inject (cancelled_guard (check guard)) revision id translated)

  unfoldable pub resize_display :
      ℕ → ℕ → Worker.Resolution → Worker.Guard → Service X Worker.ResizeResult
  resize_display revision id requested guard = do
    outcome ← inside (
        resize (cancelled_guard (check guard)) revision id
          (record { width = requested.width; height = requested.height }))
    lift (resize_result outcome id)

  -- The adapter is a backend.
  abbrev pub x11_backend : Worker.Backend (X11Adapter X)
  x11_backend = record {
    capabilities = capabilities;
    displays = displays;
    capture_next = capture;
    inject = inject_input;
    resize = resize_display;
    release_all = inside release_all;
  }
