-- ===== src/Core/Screen.antt =====
-- `screenshot` and the `display.resize` request (device/core/src/core.rs). The PNG encoder is a
-- third-party library: it is seen as the list of writes that it makes, or none where it fails.
use donkeywork_desktop.Base.{
  ℕ, ◌+◌, ◌-◌, ◌*◌, ◌^◌, min, Bool, true, false, not, ◌&&◌, ◌||◌, Option, none, some, List, [], ◌∷◌,
  ◌++◌, ok_or, leb, ltb, ◌==◌, if◌then◌else◌, find, any, length, drop, lookup, put,
}
use donkeywork_desktop.Core.Types.{
  Core, Backend, Session, Snapshot, Display, Frame, Resolution, ResizeResult, Guard, Connection,
  Target, Payload, resized, shot, capture_failed, expired, not_found, stale_topology,
  unsupported_capability, resource_exhausted,
}
use donkeywork_desktop.Core.Monad.{Act, pure, lift, gets, ask, modify, ensure, ◌>>=◌, ◌>>◌}
use donkeywork_desktop.Core.Admission.{require, guard}
use donkeywork_desktop.Core.Requests.{Env}

abbrev pub max_png : ℕ
max_png = 67108864

-- `impl Write for Bounded`, over all the writes of the encoder.
unfoldable pub write_bounded : List ℕ → List (List ℕ) → Option (List ℕ)
write_bounded written [] = some written
write_bounded written (bytes ∷ rest) =
    let more = write_bounded (written ++ bytes) rest in
    if ltb (max_png - length written) (length bytes) then none else more

abbrev pub encoded : Option (List (List ℕ)) → Option (List ℕ)
encoded none = none
encoded (some writes) = write_bounded [] writes

-- `checked_mul` on 64 bits, twice.
unfoldable pub pixel_bytes : ℕ → ℕ → Option ℕ
pixel_bytes width height =
    if leb (2 ^ 64) (width * height)
    then none
    else if leb (2 ^ 64) (width * height * 4)
    then none
    else some (width * height * 4)

unfoldable pub is_bad_frame : Frame → ℕ → Bool
is_bad_frame f pixels =
    f.width == 0
    || f.height == 0
    || ltb 4096 f.width
    || ltb 4096 f.height
    || ltb max_png pixels
    || not (length f.rgba == pixels)

-- At most 32 snapshots: the oldest goes.
unfoldable pub add_snapshot : Snapshot → List Snapshot → List Snapshot
add_snapshot p ps = (if length ps == 32 then drop 1 ps else ps) ++ p ∷ []

-- The clock of a screenshot: when it is accepted, and the readings after the capture, in the check
-- of the frame's own time, and after the encoding.
pub record Shutter : Type 0 where
  pub accepted : ℕ
  pub captured_by : ℕ
  pub checked_at : ℕ
  pub encoded_by : ℕ
  pub cancelled : Bool
  pub new_snapshot : ℕ

abbrev pub matches : Frame → Display → ℕ → Bool
matches f d id =
    f.display_id == id
    && d.width == f.width
    && d.height == f.height
    && d.topology_revision == f.topology_revision

abbrev pub same_bool : Bool → Bool → Bool
same_bool true b = b
same_bool false b = not b

abbrev store_snapshot : Snapshot → Option Session → Option Session
store_snapshot p none = none
store_snapshot p (some s) = some (record s { snapshots = add_snapshot p s.snapshots })

abbrev origin_of : Option Session → ℕ
origin_of none = 0
origin_of (some s) = s.origin

abbrev offers : Resolution → Display → Bool
offers r d = any (λ m. m.width == r.width && m.height == r.height) d.available_resolutions

-- What the backend reports must be what the display shows; an applied resize must have the size
-- asked for, and a new revision if the size was another.
unfoldable pub check_outcome : Display → Resolution → ResizeResult → Display → Bool
check_outcome current requested outcome actual =
    actual.width == outcome.display.width
    && actual.height == outcome.display.height
    && actual.topology_revision == outcome.display.topology_revision
    && not (
        outcome.applied
        && (not (actual.width == requested.width)
            || not (actual.height == requested.height)
            || (not (requested.width == current.width) || not (requested.height == current.height))
              && leb actual.topology_revision current.topology_revision))

module _ {B : Type 0} ⦃K : Backend B⦄ where
  abbrev keep_session : ℕ → Option Session → Core B → Core B
  keep_session id none c = c
  keep_session id (some s) c = record c { sessions = put id s c.sessions }

  -- The payload of the reply, and the bytes that follow it. A millisecond is 1000 microseconds.
  unfoldable pub screenshot :
      (Frame → Option (List (List ℕ)))
      → Shutter
      → Connection
      → Target
      → ℕ
      → Bool
      → Act B (Payload × List ℕ)
  screenshot png t connection target display_id cursor = do
    require connection.uid "desktop.view"
    frame ← ask (K.capture_next display_id cursor (t.accepted + 5000))
    ensure
        (not (
          ltb (t.accepted + 5000) t.captured_by
          || ltb frame.captured_at t.accepted
          || ltb t.checked_at frame.captured_at))
        capture_failed
    ensure (not t.cancelled) expired
    shown ← ask K.displays
    display ← lift (ok_or (find (λ d. d.display_id == display_id) shown) not_found)
    ensure (matches frame display display_id) stale_topology
    ensure (same_bool frame.cursor_embedded cursor) unsupported_capability
    pixels ← lift (ok_or (pixel_bytes frame.width frame.height) resource_exhausted)
    ensure (not (is_bad_frame frame pixels)) resource_exhausted
    bytes ← lift (ok_or (encoded (png frame)) capture_failed)
    ensure (not (ltb (t.accepted + 5000) t.encoded_by)) capture_failed
    held ← gets (λ c. lookup target.session_id c.sessions)
    let snapshot : Snapshot = record {
      id = t.new_snapshot;
      display = display;
      captured = frame.captured_at;
    }
    modify (λ c. keep_session target.session_id (store_snapshot snapshot held) c)
    pure (
      shot t.new_snapshot frame ((frame.captured_at - origin_of held) * 1000) (length bytes),
      bytes,
    )

  resize_shown : ℕ → ℕ → Display → Resolution → Guard → Act B Payload
  resize_shown now display_id current requested g = do
    ask K.release_all
    outcome ← ask (
        K.resize current.topology_revision display_id requested
          (record g { deadline = min g.deadline (now + 5000) }))
    shown ← ask K.displays
    actual ← lift (ok_or (find (λ d. d.display_id == display_id) shown) capture_failed)
    ensure (check_outcome current requested outcome actual) capture_failed
    pure (
        resized display_id outcome.applied actual.width actual.height actual.topology_revision
          outcome.reason)

  -- `reason` 0 stands for the worker's own "unsupported_mode".
  unfoldable pub resize_display : Env → Connection → Target → ℕ → ℕ → ℕ → Resolution → Act B Payload
  unfolding resize_shown check_outcome
  resize_display env connection target lease_id display_id revision requested = do
    require connection.uid "desktop.resize"
    g ← guard connection target lease_id env.cancelled_guard env.guarded_at
    shown ← ask K.displays
    current ← lift (ok_or (find (λ d. d.display_id == display_id) shown) not_found)
    ensure (current.topology_revision == revision) stale_topology
    if current.can_resize && offers requested current
        then resize_shown env.done_at display_id current requested g
        else pure
            (resized display_id false current.width current.height current.topology_revision 0)
