-- ===== src/Capture/Confirmed.antt =====
-- A mode that is reported as applied was seen on the server (device/capture/src/resize.rs).
use donkeywork_desktop.Base.{
  ℕ, ◌+◌, ◌≤◌, ◌≡◌, refl, ap, sym, ◌∙◌, Bool, true, false, not, ◌&&◌, Option, none, some, List, [],
  ◌∷◌, ok, ◌==◌, if◌then◌else◌, inl, inr, arith, Bool-cases, Member, here, there,
}
use donkeywork_desktop.Base.Actions.{
  lift, gets, modify, ensure, ◌>>◌, Gives, >>=-Ensures, >>=-Ensures_given, >>=-eq_ok,
}
use donkeywork_desktop.Capture.Types.{
  Resolution, Display, Topology, applied, ResizeOutcome, stale_topology,
}
use donkeywork_desktop.Capture.Server.{
  Server, X11Backend, Method, Call, ask, read_clock, arm_after, CrtcInfo, Area, Mode, OutputInfo,
  Resources,
}
use donkeywork_desktop.Capture.Topology.{
  read_topology, check_deadline, checked_display, simple_transform,
}
use donkeywork_desktop.Capture.Events.{release_all}
use donkeywork_desktop.Capture.Transaction.{
  transact, X11Transaction, on_backend, as_u16, confirm, confirm_applied, apply, x11_transaction,
}
use donkeywork_desktop.Capture.Resize.{
  root_physical_dimensions, is_refused, find_mode, is_suitable, reject, reject_now, others_active,
  change_mode, prepare, check_crtc, check_output, resize, begin, run_transaction,
}
use donkeywork_desktop.Capture.Resized.{transact_cases}
use donkeywork_desktop.Capture.Seen.{IsSeen, confirm-IsSeen}
use donkeywork_desktop.Capture.Goals.{SameGoal-IsPreorder, apply-SameGoal}

-- A mode of the size that was asked for, among those that the server listed.
pub record IsChosen (X : Type 0) ⦃K : Server X⦄ (requested : Resolution) (mode : Mode)
    : Type 0 where
  pub before : X
  pub resources : Resources
  pub listed : (K.screen_resources before).1 ≡ ok resources
  pub among : Member mode resources.modes
  pub same_width : mode.width ≡ requested.width
  pub same_height : mode.height ≡ requested.height

-- Such a mode, and what the server answered about its id.
pub record IsShown (X : Type 0) ⦃K : Server X⦄ (requested : Resolution) : Type 0 where
  pub mode : Mode
  pub chosen : IsChosen X requested mode
  pub seen : IsSeen X mode.id requested.width requested.height

module _ {X : Type 0} ⦃K : Server X⦄ (guard : Call X (Unit {0})) where
  abbrev SeenOf : X11Transaction X → Type 0
  SeenOf t = IsSeen X t.mode (as_u16 t.target.width) (as_u16 t.target.height)

  confirm_applied-IsSeen : (t : X11Transaction X) → (confirm_applied guard t).1 ≡ ok true → SeenOf t
  unfolding confirm_applied
  confirm_applied-IsSeen t h = checked.at t true h refl
    where
      checked :
          Gives
            (λ b. b ≡ true → SeenOf t)
            (on_backend (check_deadline t.deadline)
              >> (on_backend (ask guard)
                  >> confirm guard t.mode (as_u16 t.target.width) (as_u16 t.target.height)))
      checked =
          >>=-Ensures (on_backend (check_deadline t.deadline)) _
            λ _. >>=-Ensures (on_backend (ask guard)) _ λ _. confirm-IsSeen guard t.mode _ _

  same_goal :
      {mode mode' : ℕ} {target target' : Resolution}
      → mode ≡ mode'
      → target ≡ target'
      → IsSeen X mode (as_u16 target.width) (as_u16 target.height)
      → IsSeen X mode' (as_u16 target'.width) (as_u16 target'.height)
  same_goal p q seen = rw (sym p, sym q) seen

  -- The transaction's goal was seen, where it is reported as applied.
  transact-IsSeen :
      (t : X11Transaction X) (o : ResizeOutcome)
      → (transact (x11_transaction guard) t).1 ≡ ok o
      → o.status ≡ applied
      → SeenOf t
  transact-IsSeen t o h is_applied = elim (transact_cases (x11_transaction guard) t o h) [
    | inl (a, b, c) ↦
        let (u, e, same) = >>=-eq_ok (apply guard) (λ _. confirm_applied guard) t b in
        let goal = (apply-SameGoal guard).apply t in
        let seen = confirm_applied-IsSeen (apply guard t).0 (ap (λ r. r.1) (sym same) ∙ b) in
        same_goal goal.mode goal.target seen
    | inr (inl (a, b, c, d)) ↦ cc
    | inr (inr (a, b, c, d)) ↦ cc
  ]

  abbrev Truthful : Resolution → ResizeOutcome → Type 0
  Truthful requested o = o.status ≡ applied → IsShown X requested

  reject-Truthful :
      (requested : Resolution) (t : Topology)
      → Gives {S = X11Backend X} (Truthful requested) (reject t)
  reject-Truthful requested t = record { at = λ s o h a. ground (arith, h, a) }

  reject_now-Truthful :
      (requested : Resolution) → Gives {S = X11Backend X} (Truthful requested) reject_now
  reject_now-Truthful requested = >>=-Ensures read_topology _ λ t. reject-Truthful requested t

  same_size : {mode a b c d : ℕ} → a ≡ c → b ≡ d → IsSeen X mode a b → IsSeen X mode c d
  same_size p q seen = rw (sym p, sym q) seen

  -- A dimension up to 4096 fits 16 bits.
  fitting :
      {mode : ℕ} {requested : Resolution}
      → (requested.width ≤ 4096) × (requested.height ≤ 4096)
      → IsSeen X mode (as_u16 requested.width) (as_u16 requested.height)
      → IsSeen X mode requested.width requested.height
  fitting {requested} small seen =
      let w : as_u16 requested.width ≡ requested.width = omega arith in
      let h : as_u16 requested.height ≡ requested.height = omega arith in same_size w h seen

  change_mode-Truthful :
      (info : OutputInfo) (crtc : CrtcInfo) (area : Area) (mm : ℕ × ℕ) (requested : Resolution)
      (mode : Mode)
      → IsChosen X requested mode
      → (requested.width ≤ 4096) × (requested.height ≤ 4096)
      → Gives (Truthful requested) (change_mode guard info crtc area mm requested mode.id)
  unfolding change_mode
  change_mode-Truthful info crtc area mm requested mode size small =
      >>=-Ensures (arm_after 5000) _ λ _.
        >>=-Ensures read_clock
          (λ now s. run_transaction guard (begin info crtc area mm requested mode.id now s))
          λ now. record {
            at = λ s o h a. record {
              mode = mode;
              chosen = size;
              seen =
                  fitting small
                    (transact-IsSeen (begin info crtc area mm requested mode.id now s) o h a);
            };
          }

  find_mode_lem :
      (info : OutputInfo) (requested : Resolution) (modes : List Mode) (mode : Mode)
      → find_mode info requested modes ≡ some mode
      → (mode.width ≡ requested.width) × (mode.height ≡ requested.height)
  unfolding find_mode
  find_mode_lem info requested [] mode h = cc
  find_mode_lem info requested (m ∷ modes) mode h =
      ground (arith, find_mode_lem info requested modes mode)

  find_mode-Member :
      (info : OutputInfo) (requested : Resolution) (modes : List Mode) (mode : Mode)
      → find_mode info requested modes ≡ some mode
      → Member mode modes
  unfolding find_mode
  find_mode-Member info requested [] mode h = cc
  find_mode-Member info requested (m ∷ modes) mode h =
      elim (Bool-cases (is_suitable info requested m)) [
        | inl yes' ↦ let same : m ≡ mode = ground (arith, yes', h) in rw (sym same) here
        | inr no' ↦ there (find_mode-Member info requested modes mode (ground (arith, no', h)))
      ]

  chosen :
      (info : OutputInfo) (requested : Resolution) (resources : Resources) (before : X)
      → (K.screen_resources before).1 ≡ ok resources
      → (mode : Mode) → find_mode info requested resources.modes ≡ some mode
      → IsChosen X requested mode
  chosen info requested resources before listed mode h =
      let size = find_mode_lem info requested resources.modes mode h in
      record {
        before = before;
        resources = resources;
        listed = listed;
        among = find_mode-Member info requested resources.modes mode h;
        same_width = size.0;
        same_height = size.1;
      }

  prepare-Truthful :
      (deadline revision id : ℕ) (info : OutputInfo) (crtc : CrtcInfo) (requested : Resolution)
      (found : Option Mode)
      → ((mode : Mode) → found ≡ some mode → IsChosen X requested mode)
      → (requested.width ≤ 4096) × (requested.height ≤ 4096)
      → Gives (Truthful requested) (prepare guard deadline revision id info crtc requested found)
  unfolding prepare
  prepare-Truthful deadline revision id info crtc requested none size small =
      reject_now-Truthful requested
  prepare-Truthful deadline revision id info crtc requested (some mode) size small =
      >>=-Ensures (ask (K.connect_until deadline)) _ λ screen.
        >>=-Ensures (ask K.geometry) _ λ area. >>=-Ensures (gets (λ s. s.root)) _ λ root.
          >>=-Ensures (lift (root_physical_dimensions screen root area)) _ λ mm.
            >>=-Ensures (checked_display revision id) _ λ display. >>=-Ensures (ask guard) _ λ _.
              >>=-Ensures release_all _
                λ _. change_mode-Truthful info crtc area mm requested mode (size mode refl) small

  if-Gives :
      {A : Type 0} {P : A → Type 0} (b : Bool) {m n : Method X A}
      → Gives P m
      → Gives P n
      → Gives P (if b then m else n)
  if-Gives true p q = p
  if-Gives false p q = q

  check_crtc-Truthful :
      (deadline revision id : ℕ) (resources : Resources) (info : OutputInfo)
      (requested : Resolution) (before : X)
      → (K.screen_resources before).1 ≡ ok resources
      → (requested.width ≤ 4096) × (requested.height ≤ 4096)
      → Gives (Truthful requested) (check_crtc guard deadline revision id resources info requested)
  unfolding check_crtc
  check_crtc-Truthful deadline revision id resources info requested before listed small =
      >>=-Ensures (ask (K.crtc_info info.crtc resources.config_timestamp)) _ λ crtc.
        if-Gives _ (reject_now-Truthful requested) (
          >>=-Ensures (others_active info.crtc resources.config_timestamp resources.crtcs) _ λ busy.
            if-Gives busy (reject_now-Truthful requested) (
              >>=-Ensures (simple_transform info.crtc) _ λ simple.
                if-Gives (not simple) (reject_now-Truthful requested) (
                  prepare-Truthful deadline revision id info crtc requested _
                    (chosen info requested resources before listed) small)))

  check_output-Truthful :
      (deadline revision id : ℕ) (requested : Resolution)
      → (requested.width ≤ 4096) × (requested.height ≤ 4096)
      → Gives (Truthful requested) (check_output guard deadline revision id requested)
  unfolding check_output
  check_output-Truthful deadline revision id requested small =
      >>=-Ensures_given (λ resources. (x : X) × ((K.screen_resources x).1 ≡ ok resources))
        (ask K.screen_resources) _ (record { at = λ s r h. (s.world, h) })
        λ resources from. >>=-Ensures (ask (K.output_info id resources.config_timestamp)) _ λ info.
          >>=-Ensures (ensure (info.is_success && not (info.crtc == 0)) stale_topology) _ λ _.
            check_crtc-Truthful deadline revision id resources info requested from.0 from.1 small

  after_display :
      (deadline revision id : ℕ) (requested : Resolution) (display : Display) (topology : Topology)
      → Gives (Truthful requested) (
          if is_refused display requested
          then reject topology
          else check_output guard deadline revision id requested)
  after_display deadline revision id requested display topology =
      elim (Bool-cases (is_refused display requested)) [
        | inl yes' ↦ rw yes' (reject-Truthful requested topology)
        | inr no' ↦ rw no' (check_output-Truthful deadline revision id requested (ground arith))
      ]

  -- A resize is reported as applied only where the server listed a mode of the size that was asked
  -- for, and answered that a CRTC shows the mode of this id and that the root window has this size.
  pub resize-Truthful :
      (revision id : ℕ) (requested : Resolution) (s : X11Backend X) (o : ResizeOutcome)
      → (resize guard revision id requested s).1 ≡ ok o
      → o.status ≡ applied
      → IsShown X requested
  unfolding resize
  resize-Truthful revision id requested s o h a = whole.at s o h a
    where
      whole : Gives (Truthful requested) (resize guard revision id requested)
      whole = >>=-Ensures read_clock _ λ now.
          >>=-Ensures (modify (λ s. record s { world = K.arm (now + 5000) s.world })) _ λ _.
            >>=-Ensures (ask guard) _ λ _. >>=-Ensures (checked_display revision id) _ λ display.
              >>=-Ensures (gets (λ s. s.topology)) _
                λ topology. after_display (now + 5000) revision id requested display topology
