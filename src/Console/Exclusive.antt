-- ===== src/Console/Exclusive.antt =====
-- What the ownership of the input devices promises (device/console/src/bin/input-daemon.rs).
use donkeywork_desktop.Base.{ℕ, ◌≡◌, refl, ap, ◌∙◌, true, some, List, [], ◌∷◌, arith}
use donkeywork_desktop.Console.Owner.{
  Action, SharedDevice, Use, claims, acts, releases, claim, with_owned, release, use_once, use_all,
  are_others, is_owner, is_err,
}

module _ {D : Type 0} where
  use_once_other :
      (peer : ℕ) (u : Use D) (s : SharedDevice D)
      → s.owner ≡ some peer
      → are_others peer (u ∷ []) ≡ true
      → use_once u s ≡ s
  unfolding use_once are_others claim with_owned release
  use_once_other peer (claims p) s h o = ground arith
  use_once_other peer (acts p a) s h o = ground arith
  use_once_other peer (releases p r) s h o = ground arith

  -- While a peer owns the devices, whatever other peers attempt, in any number and order, leaves
  -- the devices and their owner exactly as they were.
  pub use_all_others :
      (peer : ℕ) (us : List (Use D)) (s : SharedDevice D)
      → s.owner ≡ some peer
      → are_others peer us ≡ true
      → use_all us s ≡ s
  unfolding use_all are_others
  use_all_others peer [] s h o = refl
  use_all_others peer (u ∷ us) s h o =
      ap (use_all us) (use_once_other peer u s h (ground arith))
      ∙ use_all_others peer us s h (ground arith)

  -- A release fails exactly when the peer is still the owner after it: a failed reset of the owner
  -- keeps the devices owned, and any other release leaves the peer without them.
  pub release-owner :
      (peer : ℕ) (reset : Action D) (s : SharedDevice D)
      → is_owner peer (release peer reset s).0 ≡ is_err (release peer reset s).1
  unfolding release
  release-owner peer reset s = ground arith
