-- ===== src/Adapter/Contract.antt =====
-- What the worker can rely on in the adapter (device/core/src/x11_adapter.rs).
use donkeywork_desktop.Base.{
  ℕ, ◌*◌, ◌≡◌, refl, ap, sym, ◌∙◌, Bool, true, false, some, ok, err, arith, ◌==◌,
}
use donkeywork_desktop.Base.Actions.{pure, lift, >>=-eq_ok}
use donkeywork_desktop.Core.Types as Worker
use donkeywork_desktop.Core.Screen.{matches, same_bool, pixel_bytes, is_bad_frame}
use donkeywork_desktop.Capture.Types as Capture
use donkeywork_desktop.Capture.Server.{Server, X11Backend}
use donkeywork_desktop.Capture.Screenshot.{capture_next}
use donkeywork_desktop.Capture.Resize.{resize}
use donkeywork_desktop.Capture.Frames.{IsReading, shown, IsFrameOf, capture_next-IsFrameOf}
use donkeywork_desktop.Capture.Confirmed.{IsShown, resize-Truthful}
use donkeywork_desktop.Adapter.Translation.{with_code, display, resolutions}
use donkeywork_desktop.Adapter.Methods.{
  X11Adapter, inside, applied_of, frame_of, resize_result, cancelled_guard, capture, resize_display,
}

with_code-eq_ok : {A : Type 0} (r : Capture.Fallible A) {a : A} → with_code r ≡ ok a → r ≡ ok a
with_code-eq_ok (ok b) h = ground (arith, h)
with_code-eq_ok (err e) h = cc

-- The tests that the worker makes of a frame, against the request, the display as the adapter
-- translates it, and the limits; of its time only that the clock has shown it.
pub record IsAccepted {X : Type 0} ⦃K : Server X⦄ (id : ℕ) (cursor : Bool) (s : X11Backend X)
    (f : Worker.Frame) : Type 0 where
  pub raw : Capture.Display
  pub is_shown : shown id s.topology ≡ some raw
  pub actual : Worker.Display
  pub translated : display raw s.topology.revision ≡ ok actual
  pub same_display : matches f actual id ≡ true
  pub same_cursor : same_bool f.cursor_embedded cursor ≡ true
  pub timed : IsReading X f.captured_at
  pub counted : pixel_bytes f.width f.height ≡ some (f.width * f.height * 4)
  pub whole : is_bad_frame f (f.width * f.height * 4) ≡ false

==-refl : (n : ℕ) → (n == n) ≡ true
==-refl n = ground arith

abbrev translation : Capture.Display → ℕ → Worker.Display
translation raw revision = record {
  display_id = raw.id;
  width = raw.width;
  height = raw.height;
  topology_revision = revision;
  cursor_embedded = false;
  can_resize = raw.can_resize;
  available_resolutions = resolutions raw.modes;
}

frame_of-IsAccepted :
    {X : Type 0} ⦃K : Server X⦄ (id : ℕ) (raw : Capture.NativeFrame) (s : X11Backend X)
    → IsFrameOf id raw s
    → IsAccepted id false s (frame_of raw)
unfolding pixel_bytes is_bad_frame display
frame_of-IsAccepted id raw s h = record {
  raw = h.display;
  is_shown = h.is_shown;
  actual = translation h.display s.topology.revision;
  translated = ground (arith, h.sized, h.same_width, h.same_height);
  same_display = ground (arith, h.same_id, h.same_width, h.same_height, h.current);
  same_cursor = ground (arith, h.no_cursor);
  timed = h.timed;
  counted = ground (arith, h.sized);
  whole = ground (arith, h.sized, h.whole);
}

applied_of-applied : (s : Capture.ResizeStatus) → (applied_of s).0 ≡ true → s ≡ Capture.applied
unfolding applied_of
applied_of-applied Capture.applied h = refl
applied_of-applied (Capture.rejected Capture.unsupported_mode) h = cc
applied_of-applied (Capture.rejected Capture.os_failed) h = cc
applied_of-applied (Capture.rejected Capture.rollback_failed) h = cc

resize_result-applied :
    (o : Capture.ResizeOutcome) (id : ℕ) (r : Worker.ResizeResult)
    → resize_result o id ≡ ok r
    → r.applied ≡ true
    → o.status ≡ Capture.applied
unfolding resize_result
resize_result-applied o id r h a = ground (arith, applied_of-applied o.status)

module _ {X : Type 0} ⦃K : Server X⦄
    (check : Worker.Guard → X → X × Worker.Fallible (Unit {0})) where
  -- A frame that the adapter captures passes every test that the worker makes of a frame, but for
  -- those of the time, which the clock has shown: its id and its cursor are those of the request, its
  -- size and revision those of the display of this id in the adapter's topology, as the adapter
  -- translates it, and its size and its bytes are within the limits.
  pub capture-IsAccepted :
      (id : ℕ) (cursor : Bool) (deadline : ℕ) (a : X11Adapter X) (f : Worker.Frame)
      → (capture check id cursor deadline a).1 ≡ ok f
      → IsAccepted id cursor (capture check id cursor deadline a).0.inner f
  unfolding capture
  capture-IsAccepted id true deadline a f h =
      let (raw, e, same) =
        >>=-eq_ok (inside (capture_next id true deadline)) (λ r. pure (frame_of r)) a h in
      let (frame, plain) =
        capture_next-IsFrameOf deadline id true a.inner raw
          (with_code-eq_ok (capture_next id true deadline a.inner).1 e) in
      cc
  capture-IsAccepted id false deadline a f h =
      let (raw, e, same) =
        >>=-eq_ok (inside (capture_next id false deadline)) (λ r. pure (frame_of r)) a h in
      let (frame, plain) =
        capture_next-IsFrameOf deadline id false a.inner raw
          (with_code-eq_ok (capture_next id false deadline a.inner).1 e) in
      let shown_ : f ≡ frame_of raw = ground (arith, ap (λ r. r.1) same, h) in
      let kept = ap (λ r. r.0.inner) same in
      rw (shown_, kept)
        (frame_of-IsAccepted id raw (capture_next id false deadline a.inner).0 frame)

  -- The adapter reports a resize as applied only where the server listed a mode of the size that was
  -- asked for, and answered that a CRTC shows the mode of this id and that the root window has this
  -- size.
  pub resize_display-Truthful :
      (revision id : ℕ) (requested : Worker.Resolution) (guard : Worker.Guard) (a : X11Adapter X)
      (r : Worker.ResizeResult)
      → (resize_display check revision id requested guard a).1 ≡ ok r
      → r.applied ≡ true
      → IsShown X (record { width = requested.width; height = requested.height })
  unfolding resize_display
  resize_display-Truthful revision id requested guard a r h is_applied =
      let size : Capture.Resolution = record {
        width = requested.width;
        height = requested.height;
      } in
      let asked = cancelled_guard (check guard) in
      let (o, e, same) =
        >>=-eq_ok (inside (resize asked revision id size)) (λ o. lift (resize_result o id)) a h in
      let result : resize_result o id ≡ ok r = sym (ap (λ p. p.1) same) ∙ h in
      resize-Truthful asked revision id size a.inner o
        (with_code-eq_ok (resize asked revision id size a.inner).1 e)
        (resize_result-applied o id r result is_applied)
