-- ===== src/Input/Rounds.antt =====
-- One round of a peer's thread, and the thread up to its end
-- (device/console/src/bin/input-daemon.rs, `serve`, the spawned thread).
use donkeywork_desktop.Base.{
  ℕ, ◌≡◌, refl, sym, ◌∙◌, Bool, true, Option, none, some, List, [], ok, ok_or, ◌⊎◌, inl, inr, arith,
}
use donkeywork_desktop.Base.Actions.{gets, ◌>>=◌, ◌>>◌}
use donkeywork_desktop.Base.Contracts.{
  Contract, Post, pure-Contract, gets-Contract, if-Contract, lift-Contract, before-Contract,
  fact-Contract, >>=-Contract,
}
use donkeywork_desktop.Console.Owner.{Refusal, use_all, are_others}
use donkeywork_desktop.Input.Requests.{validate}
use donkeywork_desktop.Input.Daemon.{Daemon, Control, Thread, observe}
use donkeywork_desktop.Input.Stream.{poll}
use donkeywork_desktop.Input.Serve.{
  revoke_expired, serve_frame, after_poll, wake_at, execute, handle, round, Turn, again, over,
  leave,
}
use donkeywork_desktop.Input.Quiet.{observe-SameHold, poll-SameHold}
use donkeywork_desktop.Input.Traces.{Vouched, IsHeld}
use donkeywork_desktop.Input.Revoked.{revoke_expired-Contract}
use donkeywork_desktop.Input.Acquired.{acquire-Contract}
use donkeywork_desktop.Input.Obeyed.{obey-Contract}
use donkeywork_desktop.Input.Holding.{
  Holding, Reached, IsFresh, Outcome, Holding-IsDone, quietly, load_stop-Contract,
  release_owned-Contract,
}

module _ {X S : Type 0} (K : Daemon X S) (peer width height : ℕ) (guarded : Bool)
    (others : (x : X) → are_others peer (K.meanwhile x).1.uses ≡ true) (t : Thread X S) where
  abbrev Start : Thread X S → Type 0
  Start = Holding K peer width height guarded others t

  abbrev Left : Thread X S → Type 0
  Left = Reached K peer width height guarded others t

  abbrev Fresh : Thread X S → Type 0
  Fresh = IsFresh K peer width height guarded others t

  abbrev After : Turn → Thread X S → Type 0
  After = Outcome K peer width height guarded others t

  same_control : (c : Control) (u : Thread X S) → Fresh u → u.control ≡ some c → t.control ≡ some c
  same_control c u h e = go h.holding.kept
    where
      go : ((u.control ≡ t.control) ⊎ (u.control ≡ none)) → t.control ≡ some c
      go (inl k) = sym k ∙ e
      go (inr k) = ground (arith, k, e)

  execute-Contract :
      (c : Control) (bytes : List ℕ)
      → Contract
          (λ u. Fresh u × (u.control ≡ some c))
          (execute K peer width height guarded c bytes)
          After
          Left
  unfolding execute
  execute-Contract c bytes =
      fact-Contract {F = (t.control ≡ some c) × Vouched K peer width height guarded c.guard}
        (λ s h. (same_control c s h.0 h.1, h.0.vouched c h.1))
        λ known.
          before-Contract (λ s h. h.0.holding.touched)
            (>>=-Contract {J = λ r u. Left u × (K.parse_request bytes ≡ some r)}
              (lift-Contract (ok_or (K.parse_request bytes) Refusal.invalid)
                (λ s h r e. (h, ground (arith, e))) (λ s h. h))
              λ r.
                fact-Contract (λ s h. h.1)
                  λ parsed.
                    before-Contract (λ s h. h.0)
                      (>>=-Contract
                        {J = λ u v.
                          Left v × (validate r c.generation c.sequence width height ≡ ok tt)}
                        (lift-Contract (validate r c.generation c.sequence width height)
                          (λ s h u e. (h, e)) (λ s h. h))
                        λ u.
                          fact-Contract (λ s h. h.1)
                            λ valid.
                              before-Contract (λ s h. h.0)
                                (obey-Contract K peer width height guarded others t c bytes r
                                  known.0 parsed valid known.1)))

  serve_frame-Contract :
      (bytes : List ℕ) (control : Option Control)
      → Contract
          (λ u. Fresh u × (u.control ≡ control))
          (serve_frame K peer width height guarded bytes control)
          After
          Left
  serve_frame-Contract bytes none =
      before-Contract (λ s h. h.0.holding)
        (acquire-Contract K peer width height guarded others t bytes)
  serve_frame-Contract bytes (some c) = execute-Contract c bytes

  leave-Contract : Contract Start (leave K peer width height guarded) After Left
  leave-Contract =
      before-Contract (λ s h. h.touched)
        (>>=-Contract (release_owned-Contract K peer width height guarded others t)
          λ _. pure-Contract over (λ s h. h))

  handle-Contract :
      (bytes : List ℕ) → Contract Start (handle K peer width height guarded bytes) After Left
  unfolding handle
  handle-Contract bytes =
      >>=-Contract (load_stop-Contract K peer width height guarded others t) λ stopped.
        if-Contract stopped (leave K peer width height guarded)
          (revoke_expired K peer width height guarded
            >> (gets (λ s. s.control)
                >>= (λ control. serve_frame K peer width height guarded bytes control)))
          (λ e. leave-Contract)
          (λ e. >>=-Contract (revoke_expired-Contract K peer width height guarded others t) λ _.
            >>=-Contract {J = λ control u. Fresh u × (u.control ≡ control)}
              (gets-Contract (λ s. s.control) (λ s h. (h, refl))) (serve_frame-Contract bytes))

  after_poll-Contract :
      (frame : Option (List ℕ))
      → Contract Start (after_poll K peer width height guarded frame) After Left
  after_poll-Contract none =
      pure-Contract again (Holding-IsDone K peer width height guarded others t)
  after_poll-Contract (some bytes) = handle-Contract bytes

  round-Contract : Contract Start (round K peer width height guarded) After Left
  unfolding round
  round-Contract = >>=-Contract (load_stop-Contract K peer width height guarded others t) λ stopped.
      if-Contract stopped (leave K peer width height guarded)
        (revoke_expired K peer width height guarded
          >> (observe K.now >>= (λ now. gets (λ s. wake_at now s.control) >>= (λ wake.
              poll K wake >>= (λ frame. after_poll K peer width height guarded frame)))))
        (λ e. leave-Contract)
        (λ e. >>=-Contract (revoke_expired-Contract K peer width height guarded others t) λ _.
          before-Contract (λ s h. h.holding)
            (>>=-Contract (quietly K peer width height guarded others t (observe-SameHold K K.now))
              λ now.
                >>=-Contract {J = λ wake. Start}
                  (gets-Contract (λ s. wake_at now s.control) (λ s h. h))
                  λ wake.
                    >>=-Contract
                      (quietly K peer width height guarded others t (poll-SameHold K wake))
                      after_poll-Contract))

  -- Where what the other threads do is done by other peers, and a round begins with control only where
  -- the peer owns the devices: every use of the lock up to its end, also where it fails, is one that
  -- is allowed, and a round that goes on leaves control only where the peer owns the devices.
  pub round-Outcome :
      IsHeld K peer width height guarded t → Post After Left (round K peer width height guarded t)
  unfolding use_all
  round-Outcome h = round-Contract.at t (record {
    touched = record { uses = []; same = refl; allowed = tt };
    kept = inl refl;
    held = h;
  })
