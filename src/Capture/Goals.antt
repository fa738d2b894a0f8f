-- ===== src/Capture/Goals.antt =====
-- The goal of a transaction while it is applied (device/capture/src/resize.rs).
use donkeywork_desktop.Base.{ℕ, ◌≡◌, refl, ◌∙◌, Bool, true, false}
use donkeywork_desktop.Base.Actions.{modify}
use donkeywork_desktop.Capture.Transaction.{check_allowed, check_again, grow, screen_size, set_crtc}
use donkeywork_desktop.Base.Actions.{
  Keeps, IsPreorder, pure-Keeps, gets-Keeps, ensure-Keeps, >>=-Keeps,
}
use donkeywork_desktop.Capture.Reads.{if-Keeps}
use donkeywork_desktop.Capture.Types.{os_failed, ErrorKind}
use donkeywork_desktop.Capture.Server.{Server, Method, Call, ask}
use donkeywork_desktop.Capture.Topology.{check_deadline}
use donkeywork_desktop.Capture.Transaction.{X11Transaction, on_backend, apply}

-- The goal of the transaction stays as it is.
pub record SameGoal {X : Type 0} (s t : X11Transaction X) : Type 0 where
  pub target : t.target ≡ s.target
  pub mode : t.mode ≡ s.mode

instance abbrev pub SameGoal-IsPreorder : {X : Type 0} → IsPreorder (SameGoal {X = X})
SameGoal-IsPreorder = record {
  reflexive = λ s. record { target = refl; mode = refl };
  transitive = λ s t u p q. record { target = q.target ∙ p.target; mode = q.mode ∙ p.mode };
}

module _ {X : Type 0} ⦃K : Server X⦄ (guard : Call X (Unit {0})) where
  within : {A : Type 0} (m : Method X A) → Keeps (SameGoal {X = X}) (on_backend m)
  within m = record { apply = λ s. record { target = refl; mode = refl } }

  marking : Keeps {E = ErrorKind} (SameGoal {X = X}) (modify (λ t. record t { mutated = true }))
  marking = record { apply = λ s. record { target = refl; mode = refl } }

  check_allowed-SameGoal : (cleanup : Bool) → Keeps SameGoal (check_allowed guard cleanup)
  check_allowed-SameGoal true = pure-Keeps
  check_allowed-SameGoal false =
      >>=-Keeps (gets-Keeps {f = λ t. t.deadline})
        λ deadline. >>=-Keeps (within (check_deadline deadline)) λ _. within (ask guard)

  check_again-SameGoal : Keeps SameGoal (check_again guard)
  check_again-SameGoal =
      >>=-Keeps (gets-Keeps {f = λ t. t.deadline})
        λ deadline. >>=-Keeps (within (ask guard)) λ _. within (check_deadline deadline)

  screen_size-SameGoal :
      (width height mm_width mm_height : ℕ) (cleanup : Bool)
      → Keeps SameGoal (screen_size guard width height mm_width mm_height cleanup)
  unfolding screen_size
  screen_size-SameGoal width height mm_width mm_height cleanup =
      >>=-Keeps (check_allowed-SameGoal cleanup)
        λ _. >>=-Keeps marking λ _. within (ask (K.set_screen_size width height mm_width mm_height))

  set_crtc-SameGoal : (mode : ℕ) (cleanup : Bool) → Keeps SameGoal (set_crtc guard mode cleanup)
  unfolding set_crtc
  set_crtc-SameGoal mode cleanup = >>=-Keeps (within (ask K.screen_resources)) λ resources.
      >>=-Keeps (check_allowed-SameGoal cleanup) λ _. >>=-Keeps marking λ _.
        >>=-Keeps (gets-Keeps {f = λ t. t.saved}) λ saved.
          >>=-Keeps
            (within
              (ask (K.set_crtc_config saved.crtc_id resources.config_timestamp saved.crtc mode)))
            λ is_success. ensure-Keeps is_success os_failed

  pub apply-SameGoal : Keeps SameGoal (apply guard)
  unfolding apply grow
  apply-SameGoal = >>=-Keeps check_again-SameGoal λ _. >>=-Keeps (gets-Keeps {f = λ t. t}) λ t.
      >>=-Keeps (if-Keeps _ (screen_size-SameGoal _ _ _ _ false) pure-Keeps) λ _.
        >>=-Keeps check_again-SameGoal λ _.
          >>=-Keeps (set_crtc-SameGoal t.mode false)
            λ _. >>=-Keeps check_again-SameGoal λ _. screen_size-SameGoal _ _ _ _ false
