-- ===== src/Capture/Examples.antt =====
-- Runs of the capture crate against the small X server.
use donkeywork_desktop.Base.{◌≡◌, refl, true, false, [], ◌∷◌, ok, arith}
use donkeywork_desktop.Base.Sets.{contains, remove, contains-insert, contains-remove}
use donkeywork_desktop.Capture.Types.{pointer, click, left}
use donkeywork_desktop.Capture.Server.{X11Backend}
use donkeywork_desktop.Capture.Sample.{World, small_server, idle, allow}
use donkeywork_desktop.Capture.Held.{Held, Protocol, IsQuiet, tracks}
use donkeywork_desktop.Capture.Events.{
  release_all, release_held, release_keys, release_buttons, fake,
}
use donkeywork_desktop.Capture.Input.{inject}
use donkeywork_desktop.Capture.Released.{inject-tracks, release_all_frees}

abbrev held : Held World
held = record { keys = λ w c. contains c w.keys; buttons = λ w c. contains c w.buttons }

protocol : Protocol held
protocol = record {
  clock = λ w c. (refl, refl);
  arming = λ t c w. (refl, refl);
  polling = λ w c. (refl, refl);
  resources = λ w c. (refl, refl);
  primary = λ w c. (refl, refl);
  output = λ i t w c. (refl, refl);
  crtc = λ i t w c. (refl, refl);
  transform = λ i w c. (refl, refl);
  panning = λ i w c. (refl, refl);
  names = λ w c. (refl, refl);
  state = λ w c. (refl, refl);
  keymap = λ w c. (refl, refl);
  modifiers = λ w c. (refl, refl);
  faked_keys = λ event detail x y w c h.
      ground (arith, h, contains-insert c detail w.keys, contains-remove c detail w.keys);
  faked_buttons = λ event detail x y w c h.
      ground (arith, h, contains-insert c detail w.buttons, contains-remove c detail w.buttons);
  released_key = λ detail x y w h. ground (arith, contains-remove detail detail w.keys);
  released_button = λ detail x y w h. ground (arith, contains-remove detail detail w.buttons);
}

allow-IsQuiet : IsQuiet held allow
allow-IsQuiet w c = (refl, refl)

nothing_held : tracks held 1 idle ≡ true
unfolding contains
nothing_held = refl

inject-tracks_example : tracks held 1 (inject allow 1 1 (pointer 0 0 (click left)) idle).0 ≡ true
inject-tracks_example =
    inject-tracks held protocol 1 allow allow-IsQuiet 1 1 (pointer 0 0 (click left)) idle
      nothing_held

abbrev holding : X11Backend World
holding = record idle {
  world = record { keys = 30 ∷ []; buttons = 1 ∷ []; mode = 7; width = 2; height = 1 };
  held_keys = 30 ∷ [];
  held_buttons = 1 ∷ [];
}

holding_tracked : tracks held 30 holding ≡ true
unfolding contains
holding_tracked = refl

holding_released : (release_all holding).1 ≡ ok tt
unfolding release_all release_held release_keys release_buttons fake remove
holding_released = refl

release_all_frees_example :
    (contains 30 (release_all holding).0.world.keys ≡ false)
    × (contains 30 (release_all holding).0.world.buttons ≡ false)
release_all_frees_example =
    release_all_frees held protocol 30 holding holding_tracked holding_released
