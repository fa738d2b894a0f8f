-- ===== src/Input/Acquired.antt =====
-- A request for control (device/console/src/bin/input-daemon.rs, `serve`).
use donkeywork_desktop.Base.{
  ℕ, ◌+◌, ◌≡◌, refl, ap, ◌∙◌, Bool, true, false, not, Option, none, some, List, [], ◌∷◌, Result, ok,
  err, ok_or, inl, inr, arith, if◌then◌else◌,
}
use donkeywork_desktop.Base.Actions.{pure, ◌>>=◌, ◌>>◌}
use donkeywork_desktop.Base.Contracts.{
  Contract, pure-Contract, if-Contract, lift-Contract, modify-Contract, ensure-Contract,
  before-Contract, >>=-Contract, Keeps-Contract,
}
use donkeywork_desktop.Console.Lease.{lease_ms}
use donkeywork_desktop.Console.Owner.{
  Refusal, SharedDevice, claims, claim, use_once, use_all, are_others,
}
use donkeywork_desktop.Console.Devices.{InputDevice}
use donkeywork_desktop.Input.Requests.{Message, hello}
use donkeywork_desktop.Input.Guards.{Guard, read_guard}
use donkeywork_desktop.Input.Daemon.{Daemon, Control, Thread, on_shared}
use donkeywork_desktop.Input.Stream.{send, send_unavailable}
use donkeywork_desktop.Input.Serve.{
  look_guard, take_control, keep_control, take_guarded, answer, acquire, Turn, again, from_claim,
  is_bad_id,
}
use donkeywork_desktop.Input.Quiet.{
  SameHold, observe-SameHold, ask-SameHold, send-SameHold, send_unavailable-SameHold,
}
use donkeywork_desktop.Input.Traces.{
  claimed, IsHeld, IsHolding, Touched-more, Touched-same, IsHolding-same,
}
use donkeywork_desktop.Input.Holding.{
  Holding, Reached, IsFresh, IsDone, Outcome, Holding-IsDone, quietly, see-Contract,
  locked-Contract,
}

module _ {X S : Type 0} (K : Daemon X S) (peer width height : ℕ) (guarded : Bool)
    (others : (x : X) → are_others peer (K.meanwhile x).1.uses ≡ true) (t : Thread X S) where
  abbrev Start : Thread X S → Type 0
  Start = Holding K peer width height guarded others t

  abbrev Left : Thread X S → Type 0
  Left = Reached K peer width height guarded others t

  abbrev Fresh : Thread X S → Type 0
  Fresh = IsFresh K peer width height guarded others t

  abbrev After : Turn → Thread X S → Type 0
  After = Outcome K peer width height guarded others t

  -- What a claim that succeeds gives.
  pub record IsClaimed (won : Bool) (u : Thread X S) : Type 0 where
    pub holding : IsHolding K peer width height guarded t u
    pub owned : won ≡ true → u.shared.owner ≡ some peer

  claim-held :
      (s : Thread X S)
      → IsHeld K peer width height guarded s
      → IsHeld K peer width height guarded (record s { shared = (claim peer s.shared).0 })
  unfolding claim
  claim-held s (inl e) = inl e
  claim-held s (inr e) = inr (ground (arith, e))

  claim-owned :
      (s : SharedDevice (InputDevice S))
      → (claim peer s).1 ≡ true
      → (claim peer s).0.owner ≡ some peer
  unfolding claim
  claim-owned s h = ground (arith, h)

  claim-Contract :
      Contract Start (on_shared K peer (λ s. from_claim (claim peer s))) (λ won. IsClaimed won) Left
  unfolding use_all claim use_once
  claim-Contract = record {
    at = λ s h. record {
      holding = record {
        touched =
            Touched-more K peer width height guarded t s
              (record s { shared = (claim peer s.shared).0 }) (claims peer ∷ []) (claimed, tt) refl
              h.touched;
        kept = h.kept;
        held = claim-held s h.held;
      };
      owned = claim-owned s.shared;
    };
  }

  IsClaimed-same :
      (won : Bool) (s u : Thread X S) → SameHold s u → IsClaimed won s → IsClaimed won u
  IsClaimed-same won s u p h = record {
    holding = IsHolding-same K peer width height guarded t s u p h.holding;
    owned = λ e. ap (λ d. d.owner) p.shared ∙ h.owned e;
  }

  noticed-Contract :
      (request_id : Option (List ℕ))
      → Contract Start (send_unavailable K request_id >> pure again) After Left
  noticed-Contract request_id =
      >>=-Contract
        (quietly K peer width height guarded others t (send_unavailable-SameHold K request_id))
        λ _. pure-Contract again (Holding-IsDone K peer width height guarded others t)

  kept-IsDone :
      (c : Control) (u : Thread X S)
      → IsClaimed true u
      → IsDone K peer width height guarded others t (record u { control = some c })
  kept-IsDone c u h = record {
    touched =
        Touched-same K peer width height guarded t u (record u { control = some c }) refl
          h.holding.touched;
    held = inr (h.owned refl);
  }

  greet-Contract :
      (message : Message) (deadline : ℕ) (c : Control)
      → Contract
          (IsClaimed true)
          (send K message deadline >> (keep_control K peer width height guarded c >> pure again))
          After
          Left
  greet-Contract message deadline c =
      >>=-Contract {J = λ _. IsClaimed true}
        (Keeps-Contract (send-SameHold K message deadline) (IsClaimed-same true)
          (λ s h. h.holding.touched))
        λ _.
          >>=-Contract {J = λ _. After again}
            (modify-Contract (λ u. record u { control = some c }) (kept-IsDone c))
            λ _. pure-Contract again (λ s h. h)

  settled-Contract :
      (won : Bool) (request_id : Option (List ℕ)) (message : Message) (deadline : ℕ) (c : Control)
      → Contract
          (IsClaimed won)
          (if not won
            then send_unavailable K request_id >> pure again
            else send K message deadline
              >> (keep_control K peer width height guarded c >> pure again))
          After
          Left
  settled-Contract true request_id message deadline c = greet-Contract message deadline c
  settled-Contract false request_id message deadline c =
      before-Contract (λ s h. h.holding) (noticed-Contract request_id)

  take_control-Contract :
      (request_id : Option (List ℕ)) (guard : Option Guard)
      → Contract Start (take_control K peer width height guarded request_id guard) After Left
  unfolding take_control
  take_control-Contract request_id guard =
      >>=-Contract (quietly K peer width height guarded others t (ask-SameHold K K.entropy))
        λ generation.
          >>=-Contract (quietly K peer width height guarded others t (observe-SameHold K K.now))
            λ now.
              >>=-Contract {J = λ won. IsClaimed won}
                (locked-Contract K peer width height guarded others t (λ s h. h.touched)
                  (see-Contract K peer width height guarded others t) claim-Contract)
                λ won.
                  settled-Contract won request_id (hello generation width height lease_ms)
                    (now + lease_ms)
                    (record {
                      generation = generation;
                      sequence = 1;
                      deadline = now + lease_ms;
                      end = elim guard [ none ↦ some (now + 10000) | some g ↦ none ];
                      guard = guard;
                    })

  take_guarded-Contract :
      (request_id : Option (List ℕ)) (guard : Result Refusal Guard)
      → Contract Start (take_guarded K peer width height guarded request_id guard) After Left
  take_guarded-Contract request_id (ok g) = take_control-Contract request_id (some g)
  take_guarded-Contract request_id (err e) = noticed-Contract request_id

  look_guard-Contract :
      Contract Start (look_guard K peer width height guarded) (λ guard. Start) Left
  look_guard-Contract =
      >>=-Contract (quietly K peer width height guarded others t (observe-SameHold K K.guard_path))
        λ path. pure-Contract (read_guard K.parse_guard width height path) (λ s h. h)

  answer-Contract :
      (bytes : List ℕ) (request : Option (Option (List ℕ)))
      → Contract Start (answer K peer width height guarded bytes request) After Left
  answer-Contract bytes none =
      >>=-Contract
        (lift-Contract {J = λ r. Start} (ok_or (K.parse_request bytes) Refusal.invalid)
          (λ s h r e. h) (λ s h. h.touched))
        λ r. noticed-Contract none
  answer-Contract bytes (some request_id) =
      >>=-Contract {J = λ u. Start}
        (ensure-Contract (not (is_bad_id request_id)) Refusal.invalid (λ e s h. h)
          (λ s h. h.touched))
        λ _.
          if-Contract (not guarded) (take_control K peer width height guarded request_id none)
            (look_guard K peer width height guarded
              >>= (λ guard. take_guarded K peer width height guarded request_id guard))
            (λ e. take_control-Contract request_id none)
            (λ e. >>=-Contract look_guard-Contract (take_guarded-Contract request_id))

  pub acquire-Contract :
      (bytes : List ℕ) → Contract Start (acquire K peer width height guarded bytes) After Left
  unfolding acquire
  acquire-Contract bytes = answer-Contract bytes (K.parse_acquire bytes)
