-- ===== src/Input/Holding.antt =====
-- What holds of a peer's thread inside one round, and what a release and the test of its control
-- keep of it (device/console/src/bin/input-daemon.rs, `serve`, `release_owned`, `Control::valid`).
use donkeywork_desktop.Base.{
  ℕ, ◌≡◌, refl, Bool, true, none, some, [], ◌∷◌, Result, ok, err, inl, inr, arith,
}
use donkeywork_desktop.Base.Actions.{raise, ◌>>◌, Keeps}
use donkeywork_desktop.Base.Contracts.{
  Contract, Post, gets-Contract, if-Contract, >>=-Contract, Keeps-Contract,
}
use donkeywork_desktop.Console.Owner.{
  Refusal, SharedDevice, releases, release, use_once, use_all, are_others,
}
use donkeywork_desktop.Console.Devices.{InputDevice, reset}
use donkeywork_desktop.Input.Daemon.{
  Daemon, Control, Thread, Method, see_others, locked, load_stop, release_owned, set_stop,
  stop_on_error,
}
use donkeywork_desktop.Input.Serve.{Turn, again, over}
use donkeywork_desktop.Input.Quiet.{SameHold}
use donkeywork_desktop.Input.Traces.{
  Vouched, freed, Touched, IsHeld, IsHolding, Touched-more, Touched-same, IsHolding-same,
  IsHolding-others, others-All,
}

module _ {X S : Type 0} (K : Daemon X S) (peer width height : ℕ) (guarded : Bool)
    (others : (x : X) → are_others peer (K.meanwhile x).1.uses ≡ true) (t : Thread X S) where
  -- After a round: what was touched, and control goes with ownership.
  pub record IsDone (u : Thread X S) : Type 0 where
    pub touched : Touched K peer width height guarded t u
    pub held : IsHeld K peer width height guarded u

  abbrev pub Holding : Thread X S → Type 0
  Holding = IsHolding K peer width height guarded t

  abbrev pub Reached : Thread X S → Type 0
  Reached = Touched K peer width height guarded t

  pub quietly :
      {A : Type 0} {m : Method X S A} → Keeps SameHold m → Contract Holding m (λ a. Holding) Reached
  quietly k = Keeps-Contract k (IsHolding-same K peer width height guarded t) (λ s h. h.touched)

  pub kept_quietly :
      {A : Type 0} {m : Method X S A} → Keeps SameHold m → Contract Reached m (λ a. Reached) Reached
  kept_quietly k =
      Keeps-Contract k (λ s u p h. Touched-same K peer width height guarded t s u p.shared h)
        (λ s h. h)

  pub see_all-Contract : Contract Reached (see_others K peer) (λ m. Reached) Reached
  see_all-Contract = record {
    at = λ s h.
        Touched-more K peer width height guarded t s (see_others K peer s).0
          (K.meanwhile s.world).1.uses
          (others-All K peer width height guarded t s.world (others s.world)) refl h;
  }

  pub see-Contract : Contract Holding (see_others K peer) (λ m. Holding) Reached
  see-Contract = record {
    at = λ s h.
        IsHolding-others K peer width height guarded t s (see_others K peer s).0 s.world
          (others s.world) refl refl h;
  }

  pub load_stop-Contract : Contract Holding (load_stop K peer) (λ b. Holding) Reached
  unfolding load_stop
  load_stop-Contract = >>=-Contract see-Contract λ m. gets-Contract (λ u. u.stopped) (λ s h. h)

  pub locked-Contract :
      {A : Type 0} {m : Method X S A} {I : Thread X S → Type 0} {J : A → Thread X S → Type 0}
      → ((s : Thread X S) → I s → Reached s)
      → Contract I (see_others K peer) (λ seen. I) Reached
      → Contract I m J Reached
      → Contract I (locked K peer m) J Reached
  locked-Contract {m} p see c = >>=-Contract see λ seen.
      if-Contract seen.poisons (set_stop K peer >> raise Refusal.invalid) m
        (λ e. record {
          at = λ s h.
              Touched-same K peer width height guarded t s (record s { stopped = true }) refl
                (p s h);
        })
        (λ e. c)

  -- A release that succeeds leaves the peer without the devices; a failed one ends the thread.
  released :
      (s : Thread X S) (r : Result Refusal (Unit {0})) (d : SharedDevice (InputDevice S))
      → d ≡ (release peer (reset K.emit) s.shared).0
      → Reached s
      → Post (λ u. Reached) Reached (stop_on_error K peer (record s { shared = d }, r))
  unfolding use_all release use_once
  released s (ok u) d e h =
      Touched-more K peer width height guarded t s (record s { shared = d })
        (releases peer (reset K.emit) ∷ []) (freed, tt) e h
  released s (err x) d e h =
      Touched-more K peer width height guarded t s (record s { shared = d; stopped = true })
        (releases peer (reset K.emit) ∷ []) (freed, tt) e h

  pub release_owned-Contract : Contract Reached (release_owned K peer) (λ u. Reached) Reached
  unfolding release_owned
  release_owned-Contract =
      locked-Contract (λ s h. h) see_all-Contract
        (record {
          at = λ s h.
              released s (release peer (reset K.emit) s.shared).1
                (release peer (reset K.emit) s.shared).0 refl h;
        })

  -- Control that is there was tested.
  pub record IsFresh (u : Thread X S) : Type 0 where
    pub holding : IsHolding K peer width height guarded t u
    pub vouched : (c : Control) → u.control ≡ some c → Vouched K peer width height guarded c.guard

  -- Without control the devices may be held or not.
  pub dropped-IsFresh : (u : Thread X S) → Reached u → IsFresh (record u { control = none })
  dropped-IsFresh u h = record {
    holding = record {
      touched = Touched-same K peer width height guarded t u (record u { control = none }) refl h;
      kept = inr refl;
      held = inl refl;
    };
    vouched = λ c e. ground arith;
  }

  -- A turn that goes on leaves control with ownership.
  abbrev pub Outcome : Turn → Thread X S → Type 0
  Outcome again = IsDone
  Outcome over = Reached

  pub Holding-IsDone : (u : Thread X S) → Holding u → IsDone u
  Holding-IsDone u h = record { touched = h.touched; held = h.held }
