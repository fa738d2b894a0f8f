-- ===== src/Input/Revoked.antt =====
-- The test of a peer's control, and its end where it fails (device/console/src/bin/input-daemon.rs,
-- `Control::valid` and its two uses in `serve`).
use donkeywork_desktop.Base.{
  ℕ, ◌≡◌, refl, sym, ap, ◌∙◌, Bool, true, false, Option, none, some, ok, inl, inr, arith, leb,
  if◌then◌else◌,
}
use mathlib.Core.Option.{some-injective}
use donkeywork_desktop.Base.Actions.{pure}
use donkeywork_desktop.Base.Contracts.{
  Contract, pure-Contract, gets-Contract, modify-Contract, before-Contract, >>=-Contract,
  Keeps-Contract, by_result,
}
use donkeywork_desktop.Console.Owner.{are_others}
use donkeywork_desktop.Input.Guards.{Guard}
use donkeywork_desktop.Input.Daemon.{Daemon, Control, Thread}
use donkeywork_desktop.Input.Serve.{
  is_valid, compare_guard, revoke_expired, give_notice, test_control,
}
use donkeywork_desktop.Input.Quiet.{SameHold, send_unavailable-SameHold, is_valid-SameHold}
use donkeywork_desktop.Input.Traces.{Vouched, IsHolding, Touched-same, IsHolding-same}
use donkeywork_desktop.Input.Holding.{
  Holding, Reached, IsFresh, release_owned-Contract, dropped-IsFresh,
}

module _ {X S : Type 0} (K : Daemon X S) (peer width height : ℕ) (guarded : Bool)
    (others : (x : X) → are_others peer (K.meanwhile x).1.uses ≡ true) (t : Thread X S) where
  abbrev Start : Thread X S → Type 0
  Start = Holding K peer width height guarded others t

  abbrev Left : Thread X S → Type 0
  Left = Reached K peer width height guarded others t

  abbrev Fresh : Thread X S → Type 0
  Fresh = IsFresh K peer width height guarded others t

  IsFresh-same : (s u : Thread X S) → SameHold s u → Fresh s → Fresh u
  IsFresh-same s u p h = record {
    holding = IsHolding-same K peer width height guarded t s u p h.holding;
    vouched = λ c e. h.vouched c (sym p.control ∙ e);
  }

  -- The test of the guard looks at the file where one is configured.
  compare_guard-Vouched :
      (on : Bool) (guard : Option Guard) (s : Thread X S)
      → guarded ≡ on
      → (compare_guard K peer width height guarded on guard s).1 ≡ ok true
      → Vouched K peer width height guarded guard
  compare_guard-Vouched true (some g) s e h = inr (e, g, s.world, refl, ground arith)
  compare_guard-Vouched false none s e h = inl (e, refl)
  compare_guard-Vouched true none s e h = ground arith
  compare_guard-Vouched false (some g) s e h = ground arith

  -- Control that the test lets pass was granted for the guard as it is.
  is_valid-Vouched :
      (c : Control) (s : Thread X S)
      → (is_valid K peer width height guarded c s).1 ≡ ok true
      → Vouched K peer width height guarded c.guard
  unfolding is_valid
  is_valid-Vouched c s h = go (leb c.deadline (K.now s.world).1) h
    where
      go :
          (late : Bool)
          → ((if late
                then pure false
                else compare_guard K peer width height guarded guarded c.guard)
              (record s { world = (K.now s.world).0 })).1
            ≡ ok true
          → Vouched K peer width height guarded c.guard
      go true e = ground arith
      go false e =
          compare_guard-Vouched guarded c.guard (record s { world = (K.now s.world).0 }) refl e

  -- The control of the thread, and the test of it.
  pub record IsTested (c : Control) (valid : Bool) (u : Thread X S) : Type 0 where
    pub holding : IsHolding K peer width height guarded t u
    pub control : u.control ≡ some c
    pub vouched : valid ≡ true → Vouched K peer width height guarded c.guard

  is_valid-Contract :
      (c : Control)
      → Contract
          (λ u. Start u × (u.control ≡ some c))
          (is_valid K peer width height guarded c)
          (λ valid. IsTested c valid)
          Left
  is_valid-Contract c =
      by_result
        (λ s h valid e. record {
          holding =
              IsHolding-same K peer width height guarded t s
                (is_valid K peer width height guarded c s).0
                ((is_valid-SameHold K width height guarded peer c).apply s) h.0;
          control = ((is_valid-SameHold K width height guarded peer c).apply s).control ∙ h.1;
          vouched = λ v. is_valid-Vouched c s (e ∙ ap ok v);
        })
        (λ s h e w.
          Touched-same K peer width height guarded t s (is_valid K peer width height guarded c s).0
            ((is_valid-SameHold K width height guarded peer c).apply s).shared h.0.touched)

  tested-IsFresh : (c : Control) (u : Thread X S) → IsTested c true u → Fresh u
  tested-IsFresh c u h = record {
    holding = h.holding;
    vouched = λ d e.
        let same : d ≡ c = some-injective d c (sym e ∙ h.control) in rw same (h.vouched refl);
  }

  stale-Contract : Contract Start (give_notice K peer width height guarded) (λ u. Fresh) Left
  stale-Contract =
      before-Contract (λ s h. h.touched)
        (>>=-Contract (release_owned-Contract K peer width height guarded others t) λ _.
          >>=-Contract
            (modify-Contract (λ u. record u { control = none })
              (dropped-IsFresh K peer width height guarded others t))
            λ _.
              Keeps-Contract (send_unavailable-SameHold K none) IsFresh-same
                (λ s h. h.holding.touched))

  revoke_if-Contract :
      (c : Control) (valid : Bool)
      → Contract
          (IsTested c valid)
          (if valid then pure tt else give_notice K peer width height guarded)
          (λ u. Fresh)
          Left
  revoke_if-Contract c true = pure-Contract tt (tested-IsFresh c)
  revoke_if-Contract c false = before-Contract (λ s h. h.holding) stale-Contract

  test_control-Contract :
      (control : Option Control)
      → Contract
          (λ u. Start u × (u.control ≡ control))
          (test_control K peer width height guarded control)
          (λ u. Fresh)
          Left
  test_control-Contract none =
      pure-Contract tt (λ s h. record { holding = h.0; vouched = λ c e. ground arith })
  test_control-Contract (some c) = >>=-Contract (is_valid-Contract c) (revoke_if-Contract c)

  pub revoke_expired-Contract :
      Contract Start (revoke_expired K peer width height guarded) (λ u. Fresh) Left
  unfolding revoke_expired
  revoke_expired-Contract =
      >>=-Contract {J = λ control u. Start u × (u.control ≡ control)}
        (gets-Contract (λ u. u.control) (λ s h. (h, refl))) test_control-Contract
