-- ===== src/Input/Acted.antt =====
-- What the event of a request does to the devices (device/console/src/bin/input-daemon.rs, `serve`).
use donkeywork_desktop.Base.{ℕ, ◌≡◌, refl, ap, ◌∙◌, Bool, true, false, some, [], ◌∷◌, ok, arith}
use donkeywork_desktop.Base.Contracts.{Contract, by_result}
use donkeywork_desktop.Console.Owner.{
  SharedDevice, acts, releases, with_owned, release, use_once, use_all, are_others,
}
use donkeywork_desktop.Console.Devices.{InputDevice, reset}
use donkeywork_desktop.Input.Requests.{Event}
use donkeywork_desktop.Input.Effects.{perform}
use donkeywork_desktop.Input.Daemon.{Daemon, Thread, on_shared}
use donkeywork_desktop.Input.Serve.{Turn, is_release, act}
use donkeywork_desktop.Input.Quiet.{SameHold}
use donkeywork_desktop.Input.Traces.{Allowed, freed, Touched, Touched-more, Touched-same}
use donkeywork_desktop.Input.Holding.{Holding, Reached, IsFresh, Outcome}

module _ {X S : Type 0} (K : Daemon X S) (peer width height : ℕ) (guarded : Bool)
    (others : (x : X) → are_others peer (K.meanwhile x).1.uses ≡ true) (t : Thread X S) where
  abbrev Start : Thread X S → Type 0
  Start = Holding K peer width height guarded others t

  abbrev Left : Thread X S → Type 0
  Left = Reached K peer width height guarded others t

  abbrev Fresh : Thread X S → Type 0
  Fresh = IsFresh K peer width height guarded others t

  abbrev After : Turn → Thread X S → Type 0
  After = Outcome K peer width height guarded others t

  -- What an event that was done leaves.
  pub record IsActed (event : Event) (u : Thread X S) : Type 0 where
    pub touched : Touched K peer width height guarded t u
    pub owned : is_release event ≡ false → u.shared.owner ≡ some peer

  owned-act :
      (event : Event) (s : SharedDevice (InputDevice S)) (u : Unit {0})
      → is_release event ≡ false
      → (act K peer width height guarded event s).1 ≡ ok u
      → (act K peer width height guarded event s).0.owner ≡ some peer
  unfolding with_owned
  owned-act event s u n h = ground (arith, n, h)

  -- An event that is no release is one use of the lock.
  other-act :
      (event : Event) (s : SharedDevice (InputDevice S))
      → is_release event ≡ false
      → (act K peer width height guarded event s).0 ≡ use_once (acts peer (perform K.emit event)) s
  unfolding use_once with_owned
  other-act event s n = ground (arith, n)

  -- A release is one that the end of a control does, too.
  release-act :
      (s : SharedDevice (InputDevice S))
      → (act K peer width height guarded Event.release s).0
        ≡ use_once (releases peer (reset K.emit)) s
  unfolding use_once with_owned release perform
  release-act s = ground arith

  abbrev Acting : Event → Type 0
  Acting event = Allowed K peer width height guarded t (acts peer (perform K.emit event))

  abbrev acted_by : Event → Thread X S → Thread X S
  acted_by event s = record s { shared = (act K peer width height guarded event s.shared).0 }

  other-touched :
      (event : Event) (s : Thread X S)
      → is_release event ≡ false
      → Acting event
      → Left s
      → Left (acted_by event s)
  unfolding use_all
  other-touched event s n a h =
      Touched-more K peer width height guarded t s (acted_by event s)
        (acts peer (perform K.emit event) ∷ []) (a, tt) (other-act event s.shared n) h

  release-touched : (s : Thread X S) → Left s → Left (acted_by Event.release s)
  unfolding use_all
  release-touched s h =
      Touched-more K peer width height guarded t s (acted_by Event.release s)
        (releases peer (reset K.emit) ∷ []) (freed, tt) (release-act s.shared) h

  touched-act : (event : Event) (s : Thread X S) → Acting event → Left s → Left (acted_by event s)
  touched-act Event.release s a h = release-touched s h
  touched-act (Event.move x y) s a h = other-touched (Event.move x y) s refl a h
  touched-act (Event.button b down x y) s a h = other-touched (Event.button b down x y) s refl a h
  touched-act (Event.wheel v w x y) s a h = other-touched (Event.wheel v w x y) s refl a h
  touched-act (Event.key hid down) s a h = other-touched (Event.key hid down) s refl a h
  touched-act Event.reset s a h = other-touched Event.reset s refl a h
  touched-act Event.renew s a h = other-touched Event.renew s refl a h

  pub act-Contract :
      (event : Event)
      → Acting event
      → Contract Left
          (on_shared K peer (act K peer width height guarded event))
          (λ u. IsActed event)
          Left
  act-Contract event a =
      by_result
        (λ s h u e. record {
          touched = touched-act event s a h;
          owned = λ n. owned-act event s.shared u n e;
        })
        (λ s h x e. touched-act event s a h)

  pub IsActed-same :
      (event : Event) (s u : Thread X S) → SameHold s u → IsActed event s → IsActed event u
  IsActed-same event s u p h = record {
    touched = Touched-same K peer width height guarded t s u p.shared h.touched;
    owned = λ n. ap (λ d. d.owner) p.shared ∙ h.owned n;
  }
