-- ===== src/Capture/Transaction.antt =====
-- The transaction that changes a mode: `ModeTransaction` and `transact`, and the transaction
-- against X11 (device/capture/src/resize.rs).
use donkeywork_desktop.Base.{
  ℕ, ◌*◌, ◌/◌, ◌%◌, ◌^◌, max, Bool, true, false, not, ◌&&◌, ◌||◌, List, [], ◌∷◌, ok, err, ltb, ◌==◌,
  if◌then◌else◌,
}
use donkeywork_desktop.Base.Actions.{Act, pure, gets, modify, ensure, ◌>>=◌, ◌>>◌}
use donkeywork_desktop.Capture.Types.{
  Resolution, Topology, ResizeStatus, applied, rejected, ResizeRejection, ResizeOutcome, ErrorKind,
  Fallible, rollback_failed,
}
use donkeywork_desktop.Capture.Server.{Server, X11Backend, Method, Call, ask, arm_after, CrtcInfo}
use donkeywork_desktop.Capture.Topology.{check_deadline, read_topology, is_int}

pub record ModeTransaction (T : Type 0) : Type 0 where
  pub apply : Act T ErrorKind (Unit {0})
  pub confirm_applied : Act T ErrorKind Bool
  pub restore : Act T ErrorKind (Unit {0})
  pub confirm_restored : Act T ErrorKind Bool
  pub actual_topology : Act T ErrorKind Topology

-- `unwrap_or(false)`
abbrev pub unwrap_or_false : Fallible Bool → Bool
unwrap_or_false (ok b) = b
unwrap_or_false (err e) = false

module _ {T : Type 0} (M : ModeTransaction T) where
  unfoldable pub try_apply : T → T × Bool
  try_apply t = let (u, r) = (M.apply >> M.confirm_applied) t in (u, unwrap_or_false r)

  unfoldable pub try_restore : T → T × Bool
  try_restore t = let (u, r) = (M.restore >> M.confirm_restored) t in (u, unwrap_or_false r)

  abbrev pub with_status : ResizeStatus → Act T ErrorKind ResizeOutcome
  with_status status = do
    topology ← M.actual_topology
    pure (record { status = status; topology = topology })

  unfoldable pub roll_back : Act T ErrorKind ResizeOutcome
  roll_back t =
      let (u, restored) = try_restore t in
      with_status (rejected (if restored then ResizeRejection.os_failed else rollback_failed)) u

  unfoldable pub transact : Act T ErrorKind ResizeOutcome
  transact t =
      let (u, is_applied) = try_apply t in if is_applied then with_status applied u else roll_back u

pub record SavedMode : Type 0 where
  pub crtc_id : ℕ
  pub crtc : CrtcInfo
  pub width : ℕ
  pub height : ℕ
  pub mm_width : ℕ
  pub mm_height : ℕ

pub record X11Transaction (X : Type 0) : Type 0 where
  pub backend : X11Backend X
  pub saved : SavedMode
  pub target : Resolution
  pub mode : ℕ
  pub deadline : ℕ
  pub mutated : Bool

abbrev pub Step : Type 0 → Type 0 → Type 0
Step X A = Act (X11Transaction X) ErrorKind A

-- A method of the backend inside the transaction.
abbrev pub on_backend : {X A : Type 0} → Method X A → Step X A
on_backend m t = (record t { backend = (m t.backend).0 }, (m t.backend).1)

-- `as u16`
abbrev pub as_u16 : ℕ → ℕ
as_u16 n = n % 2 ^ 16

-- A physical size in proportion, at least one millimetre.
unfoldable pub scaled : ℕ → ℕ → ℕ → ℕ
scaled mm new old = max (mm * new / old) 1 % 2 ^ 32

unfoldable pub are_outputs : List ℕ → List ℕ → Bool
are_outputs [] [] = true
are_outputs (x ∷ xs) (y ∷ ys) = x == y && are_outputs xs ys
are_outputs [] (y ∷ ys) = false
are_outputs (x ∷ xs) [] = false

-- The mode and the placement of the CRTC are those that were meant.
abbrev pub is_placed : SavedMode → ℕ → CrtcInfo → Bool
is_placed saved mode actual =
    actual.is_success
    && actual.mode == mode
    && are_outputs actual.outputs saved.crtc.outputs
    && is_int actual.x saved.crtc.x
    && is_int actual.y saved.crtc.y
    && actual.rotation == saved.crtc.rotation

module _ {X : Type 0} ⦃K : Server X⦄ (guard : Call X (Unit {0})) where
  -- The checks before each call that changes the mode, but for cleanup.
  abbrev pub check_allowed : Bool → Step X (Unit {0})
  check_allowed true = pure tt
  check_allowed false = do
    deadline ← gets (λ t. t.deadline)
    on_backend (check_deadline deadline)
    on_backend (ask guard)

  unfoldable pub screen_size : ℕ → ℕ → ℕ → ℕ → Bool → Step X (Unit {0})
  screen_size width height mm_width mm_height cleanup = do
    check_allowed cleanup
    modify (λ t. record t { mutated = true })
    on_backend (ask (K.set_screen_size width height mm_width mm_height))

  unfoldable pub set_crtc : ℕ → Bool → Step X (Unit {0})
  set_crtc mode cleanup = do
    resources ← on_backend (ask K.screen_resources)
    check_allowed cleanup
    modify (λ t. record t { mutated = true })
    saved ← gets (λ t. t.saved)
    is_success ←
        on_backend
          (ask (K.set_crtc_config saved.crtc_id resources.config_timestamp saved.crtc mode))
    ensure is_success ErrorKind.os_failed

  unfoldable pub confirm : ℕ → ℕ → ℕ → Step X Bool
  confirm mode width height = do
    saved ← gets (λ t. t.saved)
    resources ← on_backend (ask K.screen_resources)
    actual ← on_backend (ask (K.crtc_info saved.crtc_id resources.config_timestamp))
    root ← on_backend (ask K.geometry)
    pure (is_placed saved mode actual && root.width == width && root.height == height)

  abbrev pub check_again : Step X (Unit {0})
  check_again = do
    deadline ← gets (λ t. t.deadline)
    on_backend (ask guard)
    on_backend (check_deadline deadline)

  -- The screen grows before the mode changes, where the new mode is larger in a direction.
  unfoldable pub grow : SavedMode → ℕ → ℕ → ℕ → ℕ → Step X (Unit {0})
  grow saved width height mm_width mm_height =
      if ltb saved.width width || ltb saved.height height
      then screen_size (max width saved.width) (max height saved.height) mm_width mm_height false
      else pure tt

  unfoldable pub apply : Step X (Unit {0})
  apply = do
    check_again
    t ← gets (λ t. t)
    let width = as_u16 t.target.width
    let height = as_u16 t.target.height
    let mm_width = scaled t.saved.mm_width width t.saved.width
    let mm_height = scaled t.saved.mm_height height t.saved.height
    grow t.saved width height mm_width mm_height
    check_again
    set_crtc t.mode false
    check_again
    screen_size width height mm_width mm_height false

  unfoldable pub confirm_applied : Step X Bool
  confirm_applied = do
    t ← gets (λ t. t)
    on_backend (check_deadline t.deadline)
    on_backend (ask guard)
    confirm t.mode (as_u16 t.target.width) (as_u16 t.target.height)

  abbrev pub undo : SavedMode → Step X (Unit {0})
  undo saved = do
    root ← on_backend (ask K.geometry)
    screen_size (max root.width saved.width) (max root.height saved.height) saved.mm_width
        saved.mm_height true
    set_crtc saved.crtc.mode true
    screen_size saved.width saved.height saved.mm_width saved.mm_height true

  -- Cleanup, also after control has ended.
  unfoldable pub restore : Step X (Unit {0})
  restore = do
    on_backend (arm_after 2000)
    t ← gets (λ t. t)
    (if not t.mutated then pure tt else undo t.saved)

  unfoldable pub confirm_restored : Step X Bool
  confirm_restored = do
    saved ← gets (λ t. t.saved)
    confirm saved.crtc.mode saved.width saved.height

  abbrev pub x11_transaction : ModeTransaction (X11Transaction X)
  x11_transaction = record {
    apply = apply;
    confirm_applied = confirm_applied;
    restore = restore;
    confirm_restored = confirm_restored;
    actual_topology = on_backend read_topology;
  }
