-- ===== src/Capture/Seen.antt =====
-- What `confirm` saw on the server (device/capture/src/resize.rs).
use donkeywork_desktop.Base.{ℕ, ◌≡◌, Bool, true, ◌&&◌, ok, ◌==◌, arith}
use donkeywork_desktop.Base.Actions.{pure, gets, Gives, >>=-Ensures, >>=-Ensures_given}
use donkeywork_desktop.Capture.Server.{Server, Call, ask, CrtcInfo, Area}
use donkeywork_desktop.Capture.Transaction.{SavedMode, on_backend, is_placed, confirm}

-- The server answered, at some time, that the CRTC shows the mode and that the root window has the
-- size.
pub record IsSeen (X : Type 0) ⦃K : Server X⦄ (mode width height : ℕ) : Type 0 where
  pub world : X
  pub crtc : ℕ
  pub timestamp : ℕ
  pub actual : CrtcInfo
  pub answered : (K.crtc_info crtc timestamp world).1 ≡ ok actual
  pub succeeded : actual.is_success ≡ true
  pub shows : actual.mode ≡ mode
  pub later : X
  pub area : Area
  pub measured : (K.geometry later).1 ≡ ok area
  pub same_width : area.width ≡ width
  pub same_height : area.height ≡ height

abbrev tested : SavedMode → ℕ → ℕ → ℕ → CrtcInfo → Area → Bool
tested saved mode width height actual root =
    is_placed saved mode actual && root.width == width && root.height == height

module _ {X : Type 0} ⦃K : Server X⦄ where
  answer :
      {A : Type 0} (f : Call X A) → Gives (λ a. (x : X) × ((f x).1 ≡ ok a)) (on_backend (ask f))
  answer f = record { at = λ t a h. (t.backend.world, h) }

  pub confirm-IsSeen :
      (guard : Call X (Unit {0})) (mode width height : ℕ)
      → Gives (λ b. b ≡ true → IsSeen X mode width height) (confirm guard mode width height)
  unfolding confirm
  confirm-IsSeen guard mode width height = >>=-Ensures (gets (λ t. t.saved)) _ λ saved.
      >>=-Ensures (on_backend (ask K.screen_resources)) _ λ resources.
        >>=-Ensures_given
          (λ a. (x : X) × ((K.crtc_info saved.crtc_id resources.config_timestamp x).1 ≡ ok a))
          (on_backend (ask (K.crtc_info saved.crtc_id resources.config_timestamp))) _
          (answer (K.crtc_info saved.crtc_id resources.config_timestamp))
          λ actual seen.
            >>=-Ensures_given (λ a. (x : X) × ((K.geometry x).1 ≡ ok a))
              (on_backend (ask K.geometry))
              (λ root. pure (tested saved mode width height actual root)) (answer K.geometry)
              λ root measured. record {
                at = λ t b h yes'. record {
                  world = seen.0;
                  crtc = saved.crtc_id;
                  timestamp = resources.config_timestamp;
                  actual = actual;
                  answered = seen.1;
                  succeeded = ground (arith, h);
                  shows = ground (arith, h);
                  later = measured.0;
                  area = root;
                  measured = measured.1;
                  same_width = ground (arith, h);
                  same_height = ground (arith, h);
                };
              }
