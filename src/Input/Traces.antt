-- ===== src/Input/Traces.antt =====
-- What the thread of a peer does to the devices, as a sequence of uses of the lock
-- (device/console/src/bin/input-daemon.rs).
use donkeywork_desktop.Base.{
  ℕ, ◌≡◌, ◌<◌, refl, sym, ap, ◌∙◌, Bool, true, false, Option, none, some, List, [], ◌∷◌, ◌++◌, ok,
  ◌==◌, ◌⊎◌, inl, inr, arith, Member, here, there,
}
use donkeywork_desktop.Console.Owner.{
  SharedDevice, Use, claims, acts, releases, use_once, use_all, peer_of, are_others,
}
use donkeywork_desktop.Console.Devices.{InputDevice, reset}
use donkeywork_desktop.Console.Exclusive.{use_all_others}
use donkeywork_desktop.Input.Requests.{Request, validate}
use donkeywork_desktop.Input.Effects.{perform}
use donkeywork_desktop.Input.Guards.{Guard, read_guard, is_baseline}
use donkeywork_desktop.Input.Daemon.{Daemon, Control, Thread}
use donkeywork_desktop.Input.Quiet.{SameHold}

pub use_all-append :
    {D : Type 0} (us ws : List (Use D)) (s : SharedDevice D)
    → use_all (us ++ ws) s ≡ use_all ws (use_all us s)
unfolding use_all
use_all-append [] ws s = refl
use_all-append (u ∷ us) ws s = use_all-append us ws (use_once u s)

abbrev pub All : {A : Type 0} → (A → Type 0) → List A → Type 0
All P [] = Unit {0}
All P (x ∷ xs) = P x × All P xs

pub All-append :
    {A : Type 0} (P : A → Type 0) (xs ys : List A) → All P xs → All P ys → All P (xs ++ ys)
All-append P [] ys p q = q
All-append P (x ∷ xs) ys p q = (p.0, All-append P xs ys p.1 q)

module _ {X S : Type 0} (K : Daemon X S) (peer width height : ℕ) (guarded : Bool) where
  -- Where a guard file is configured it was read, and is the one that control was granted for.
  abbrev pub Vouched : Option Guard → Type 0
  Vouched guard =
      ((guarded ≡ false) × (guard ≡ none))
      ⊎ ((guarded ≡ true)
          × (baseline : Guard) × (x : X) × (guard ≡ some baseline)
          × (is_baseline baseline (read_guard K.parse_guard width height (K.guard_path x).1)
              ≡ true))

  -- A use of the lock in a round that starts in the state: one that the surroundings answer that
  -- another peer has made meanwhile, a claim, a release with a reset, or the event of a request that
  -- the check accepts for the control of the state, at a reading of the clock before its deadline.
  pub data Allowed (t : Thread X S) : Use (InputDevice S) → Type 0 where
    other :
        (x : X) (u : Use (InputDevice S))
        → Member u (K.meanwhile x).1.uses
        → (peer_of u == peer) ≡ false
        → Allowed t u
    claimed : Allowed t (claims peer)
    freed : Allowed t (releases peer (reset K.emit))
    acted :
        (c : Control) (bytes : List ℕ) (r : Request) (x : X)
        → t.control ≡ some c
        → K.parse_request bytes ≡ some r
        → validate r c.generation c.sequence width height ≡ ok tt
        → (K.now x).1 < c.deadline
        → Vouched c.guard
        → Allowed t (acts peer (perform K.emit r.event))

  pub record Touched (t u : Thread X S) : Type 0 where
    pub uses : List (Use (InputDevice S))
    pub same : u.shared ≡ use_all uses t.shared
    pub allowed : All (Allowed t) uses

  -- Control goes with ownership.
  abbrev pub IsHeld : Thread X S → Type 0
  IsHeld u = (u.control ≡ none) ⊎ (u.shared.owner ≡ some peer)

  -- Before a request is obeyed: the control is that of the start, or given up.
  pub record IsHolding (t u : Thread X S) : Type 0 where
    pub touched : Touched t u
    pub kept : (u.control ≡ t.control) ⊎ (u.control ≡ none)
    pub held : IsHeld u

  pub Touched-more :
      (t u v : Thread X S) (ws : List (Use (InputDevice S)))
      → All (Allowed t) ws
      → v.shared ≡ use_all ws u.shared
      → Touched t u
      → Touched t v
  Touched-more t u v ws a e p = record {
    uses = p.uses ++ ws;
    same = e ∙ ap (use_all ws) p.same ∙ sym (use_all-append p.uses ws t.shared);
    allowed = All-append (Allowed t) p.uses ws p.allowed a;
  }

  pub Touched-same : (t u v : Thread X S) → v.shared ≡ u.shared → Touched t u → Touched t v
  Touched-same t u v e p = record { uses = p.uses; same = e ∙ p.same; allowed = p.allowed }

  pub IsHeld-same : (u v : Thread X S) → SameHold u v → IsHeld u → IsHeld v
  IsHeld-same u v p (inl e) = inl (p.control ∙ e)
  IsHeld-same u v p (inr e) = inr (ap (λ s. s.owner) p.shared ∙ e)

  pub IsHolding-same : (t u v : Thread X S) → SameHold u v → IsHolding t u → IsHolding t v
  IsHolding-same t u v p h = record {
    touched = Touched-same t u v p.shared h.touched;
    kept = elim h.kept [ inl e ↦ inl (p.control ∙ e) | inr e ↦ inr (p.control ∙ e) ];
    held = IsHeld-same u v p h.held;
  }

  member-All :
      (t : Thread X S) (x : X) (us : List (Use (InputDevice S)))
      → are_others peer us ≡ true
      → ((u : Use (InputDevice S)) → Member u us → Member u (K.meanwhile x).1.uses)
      → All (Allowed t) us
  unfolding are_others
  member-All t x [] h m = tt
  member-All t x (u ∷ us) h m = (
    other x u (m u here) (ground (arith, h)),
    member-All t x us (ground (arith, h)) (λ w k. m w (there k)),
  )

  pub others-All :
      (t : Thread X S) (x : X)
      → are_others peer (K.meanwhile x).1.uses ≡ true
      → All (Allowed t) (K.meanwhile x).1.uses
  others-All t x h = member-All t x (K.meanwhile x).1.uses h (λ u m. m)

  -- What other peers do leaves what is held.
  pub IsHeld-others :
      (u v : Thread X S) (us : List (Use (InputDevice S)))
      → are_others peer us ≡ true
      → v.control ≡ u.control
      → v.shared ≡ use_all us u.shared
      → IsHeld u
      → IsHeld v
  IsHeld-others u v us o c s (inl e) = inl (c ∙ e)
  IsHeld-others u v us o c s (inr e) =
      inr (ap (λ d. d.owner) (s ∙ use_all_others peer us u.shared e o) ∙ e)

  pub IsHolding-others :
      (t u v : Thread X S) (x : X)
      → are_others peer (K.meanwhile x).1.uses ≡ true
      → v.control ≡ u.control
      → v.shared ≡ use_all (K.meanwhile x).1.uses u.shared
      → IsHolding t u
      → IsHolding t v
  IsHolding-others t u v x o c s h = record {
    touched = Touched-more t u v (K.meanwhile x).1.uses (others-All t x o) s h.touched;
    kept = elim h.kept [ inl e ↦ inl (c ∙ e) | inr e ↦ inr (c ∙ e) ];
    held = IsHeld-others u v (K.meanwhile x).1.uses o c s h.held;
  }
