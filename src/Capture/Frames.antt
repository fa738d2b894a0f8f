-- ===== src/Capture/Frames.antt =====
-- What a captured frame is (device/capture/src/x11.rs).
use donkeywork_desktop.Base.{
  ℕ, ◌+◌, ◌*◌, ◌≤◌, ◌<◌, ◌≡◌, refl, ap, sym, ◌∙◌, min, Bool, true, false, ◌&&◌, Option, none, some,
  List, [], ◌∷◌, ok, ok_or, ◌==◌, find, length, arith,
}
use donkeywork_desktop.Base.Actions.{
  pure, lift, gets, modify, ensure, ◌>>◌, Ensures, Gives, >>=-Ensures, >>=-Ensures_given,
  lift-Gives, >>=-eq_ok,
}
use donkeywork_desktop.Capture.Types.{
  Display, Topology, NativeFrame, not_found, stale_topology, unsupported, capture_failed,
}
use donkeywork_desktop.Capture.Server.{Server, X11Backend, Method, ask, read_clock}
use donkeywork_desktop.Capture.Topology.{check_deadline, refresh_topology, is_i16}
use donkeywork_desktop.Capture.Image.{PixelFormat, max_bytes, rgba_len, x11_to_rgba}
use donkeywork_desktop.Capture.Images.{rgba_len-eq_ok, length-x11_to_rgba}
use donkeywork_desktop.Capture.Screenshot.{
  packing_of, is_topology, read_image, check_shown, finish_capture, capture_shown, capture_next,
}
use donkeywork_desktop.Capture.Revisions.{are_displays-eq, refresh_topology_lem}

abbrev pub shown : ℕ → Topology → Option Display
shown id t = find (λ d. d.id == id) t.displays

-- The bounds on the size of a frame.
abbrev pub IsSized : ℕ → ℕ → Type 0
IsSized width height =
    (0 < width) × (0 < height) × (width ≤ 4096) × (height ≤ 4096) × (width * height * 4 ≤ max_bytes)

-- The clock has shown the time.
abbrev pub IsReading : (X : Type 0) → ⦃K : Server X⦄ → ℕ → Type 0
IsReading X ⦃K⦄ time = (x : X) × (time ≡ (K.now x).1)

-- The frame has that id, the size of the display of the id in the recorded topology, the topology's
-- revision, no cursor, a time that the clock showed, and four bytes for each pixel, of 4096 pixels at
-- most in each direction.
pub record IsFrameOf {X : Type 0} ⦃K : Server X⦄ (display_id : ℕ) (f : NativeFrame)
    (s : X11Backend X) : Type 0 where
  pub display : Display
  pub same_id : f.display_id ≡ display_id
  pub no_cursor : f.cursor_embedded ≡ false
  pub timed : IsReading X f.captured_at
  pub is_shown : shown display_id s.topology ≡ some display
  pub same_width : f.width ≡ display.width
  pub same_height : f.height ≡ display.height
  pub current : f.topology_revision ≡ s.topology.revision
  pub whole : length f.rgba ≡ f.width * f.height * 4
  pub sized : IsSized f.width f.height

find-id :
    (id : ℕ) (ds : List Display) (d : Display) → find (λ d. d.id == id) ds ≡ some d → d.id ≡ id
find-id id [] d h = cc
find-id id (e ∷ ds) d h = ground (arith, find-id id ds d)

ok_or-eq_ok : (o : Option Display) {d : Display} → ok_or o not_found ≡ ok d → o ≡ some d
ok_or-eq_ok none e = cc
ok_or-eq_ok (some d) e = ground arith

is_topology-eq : (a b : Topology) → is_topology a b ≡ true → a ≡ b
is_topology-eq a b h = ground (arith, are_displays-eq a.displays b.displays)

abbrev frame : Topology → Display → ℕ × List ℕ → NativeFrame
frame topology display (captured_at, rgba) = record {
  display_id = display.id;
  topology_revision = topology.revision;
  captured_at = captured_at;
  width = display.width;
  height = display.height;
  cursor_embedded = false;
  rgba = rgba;
}

module _ {X : Type 0} ⦃K : Server X⦄ (deadline : ℕ) where
  -- What `finish_capture` does with the topology that it reads.
  abbrev conclude : Topology → Display → ℕ × List ℕ → Topology → Method X NativeFrame
  conclude topology display image after =
      ensure (is_topology topology after) stale_topology
      >> (check_deadline deadline >> pure (frame topology display image))

  conclude_lem :
      (topology : Topology) (display : Display) (image : ℕ × List ℕ) (after : Topology)
      (s : X11Backend X) (f : NativeFrame)
      → (conclude topology display image after s).1 ≡ ok f
      → (is_topology topology after ≡ true)
        × (f ≡ frame topology display image)
        × ((conclude topology display image after s).0.topology ≡ s.topology)
  unfolding check_deadline
  conclude_lem topology display image after s f h = ground arith

  finish_capture-IsFrameOf :
      (id : ℕ) (topology : Topology) (display : Display) (image : ℕ × List ℕ)
      → shown id topology ≡ some display
      → IsReading X image.0
      → length image.1 ≡ display.width * display.height * 4
      → IsSized display.width display.height
      → Ensures {S = X11Backend X} (IsFrameOf id) (finish_capture topology display deadline image)
  unfolding finish_capture
  finish_capture-IsFrameOf id topology display image found time size sized = record {
    at = λ s f h.
        let (after, e, same) = >>=-eq_ok refresh_topology (conclude topology display image) s h in
        let u = (refresh_topology s).0 in
        let now = refresh_topology_lem s after e in
        let end = conclude_lem topology display image after u f (ap (λ r. r.1) (sym same) ∙ h) in
        let kept : (finish_capture topology display deadline image s).0.topology ≡ topology =
          ap (λ r. r.0.topology) same
          ∙ end.2
          ∙ sym now.0
          ∙ sym (is_topology-eq topology after end.0) in
        record {
          display = display;
          same_id = ap (λ x. x.display_id) end.1 ∙ find-id id topology.displays display found;
          no_cursor = ap (λ x. x.cursor_embedded) end.1;
          timed = (time.0, ap (λ x. x.captured_at) end.1 ∙ time.1);
          is_shown = ap (shown id) kept ∙ found;
          same_width = ap (λ x. x.width) end.1;
          same_height = ap (λ x. x.height) end.1;
          current = ap (λ x. x.topology_revision) end.1 ∙ ap (λ t. t.revision) (sym kept);
          whole = rw (end.1) size;
          sized = rw (end.1) sized;
        };
  }

  read_clock-IsReading : Gives {S = X11Backend X} (IsReading X) read_clock
  read_clock-IsReading = record { at = λ s n h. (s.world, ground (arith, h)) }

  read_image-Gives :
      (display : Display) (packing : PixelFormat)
      → Gives {S = X11Backend X}
          (λ image. IsReading X image.0 × (length image.1 ≡ display.width * display.height * 4))
          (read_image display packing deadline)
  unfolding read_image
  read_image-Gives display packing =
      >>=-Ensures_given (IsReading X) read_clock _ read_clock-IsReading λ captured_at time.
        >>=-Ensures (check_deadline deadline) _ λ _.
          >>=-Ensures (ensure (is_i16 display.x && is_i16 display.y) unsupported) _ λ _.
            >>=-Ensures (ask (K.get_image display.x display.y display.width display.height)) _
              λ reply. >>=-Ensures (gets (λ s. s)) _ λ s.
                >>=-Ensures
                  (ensure
                    (reply.depth == s.setup.screen.root_depth
                      && reply.visual == s.setup.screen.root_visual)
                    capture_failed)
                  _
                  λ _.
                    >>=-Ensures_given (λ rgba. length rgba ≡ display.width * display.height * 4)
                      (lift (x11_to_rgba reply.bytes display.width display.height packing s.limits))
                      (λ rgba. pure (captured_at, rgba))
                      (record {
                        at = λ t rgba h.
                            (length-x11_to_rgba reply.bytes display.width display.height packing
                              s.limits rgba h).0;
                      })
                      λ rgba size. record {
                        at = λ t image h. ((time.0, ground (arith, h, time.1)), ground (arith, h));
                      }

  capture_shown-IsFrameOf :
      (id : ℕ) (topology : Topology) (display : Display)
      → shown id topology ≡ some display
      → Ensures {S = X11Backend X} (IsFrameOf id) (capture_shown topology display deadline)
  unfolding capture_shown
  capture_shown-IsFrameOf id topology display found = >>=-Ensures (gets (λ s. s)) _ λ s.
      >>=-Ensures_given (λ n. rgba_len display.width display.height s.limits ≡ ok n)
        (lift (rgba_len display.width display.height s.limits)) _
        (lift-Gives (rgba_len display.width display.height s.limits))
        λ n e. >>=-Ensures (check_shown display.id) _ λ _.
          >>=-Ensures (lift (packing_of s.setup)) _ λ packing.
            >>=-Ensures_given
              (λ image. IsReading X image.0 × (length image.1 ≡ display.width * display.height * 4))
              (read_image display packing deadline) _ (read_image-Gives display packing)
              (λ image of_display.
                finish_capture-IsFrameOf id topology display image found of_display.0 of_display.1
                  (ground (arith, rgba_len-eq_ok display.width display.height s.limits n e)))

  after_checks :
      (id : ℕ) → Ensures {S = X11Backend X} (IsFrameOf id) (capture_next id false deadline)
  unfolding capture_next
  after_checks id = >>=-Ensures (check_deadline deadline) _ λ _. >>=-Ensures read_clock _ λ now.
      >>=-Ensures (modify (λ s. record s { world = K.arm (min deadline (now + 5000)) s.world })) _
        λ _. >>=-Ensures refresh_topology _ λ topology.
          >>=-Ensures_given (λ display. ok_or (shown id topology) not_found ≡ ok display)
            (lift (ok_or (shown id topology) not_found)) _
            (lift-Gives (ok_or (shown id topology) not_found))
            λ display e.
              capture_shown-IsFrameOf id topology display (ok_or-eq_ok (shown id topology) e)

  -- A frame that `capture_next` returns has the id that was asked for, the size of the display of this
  -- id in the topology that is recorded when it returns, that topology's revision, no cursor, a time
  -- that the clock has shown, and four bytes for each pixel; and no cursor was asked for.
  pub capture_next-IsFrameOf :
      (id : ℕ) (cursor : Bool) (s : X11Backend X) (f : NativeFrame)
      → (capture_next id cursor deadline s).1 ≡ ok f
      → IsFrameOf id f (capture_next id cursor deadline s).0 × (cursor ≡ false)
  unfolding capture_next
  capture_next-IsFrameOf id true s f h = cc
  capture_next-IsFrameOf id false s f h = ((after_checks id).at s f h, refl)
