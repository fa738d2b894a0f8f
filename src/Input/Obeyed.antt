-- ===== src/Input/Obeyed.antt =====
-- A request under control (device/console/src/bin/input-daemon.rs, `serve`).
use donkeywork_desktop.Base.{
  ℕ, ◌+◌, ◌<◌, ◌≡◌, refl, sym, Bool, true, false, none, some, List, ok, inl, inr, arith,
  if◌then◌else◌, ltb, ◌^◌,
}
use donkeywork_desktop.Base.Actions.{pure, ◌>>=◌, ◌>>◌}
use donkeywork_desktop.Base.Contracts.{
  Contract, pure-Contract, lift-Contract, modify-Contract, ensure-Contract, before-Contract,
  fact-Contract, >>=-Contract, Keeps-Contract,
}
use donkeywork_desktop.Console.Lease.{Timed, next_deadline, end_at}
use donkeywork_desktop.Console.Owner.{Refusal, are_others}
use donkeywork_desktop.Input.Requests.{Event, Request, ack, validate}
use donkeywork_desktop.Input.Daemon.{Daemon, observe, Control, Thread}
use donkeywork_desktop.Input.Stream.{send}
use donkeywork_desktop.Input.Serve.{
  drop_control, obey, Turn, again, is_release, is_renew, next_sequence, keep_sequence,
}
use donkeywork_desktop.Input.Quiet.{send-SameHold}
use donkeywork_desktop.Input.Traces.{Vouched, acted, Touched-same}
use donkeywork_desktop.Input.Holding.{
  Holding, Reached, IsFresh, Outcome, see_all-Contract, locked-Contract,
}
use donkeywork_desktop.Input.Acted.{IsActed, IsActed-same, act-Contract}

module _ {X S : Type 0} (K : Daemon X S) (peer width height : ℕ) (guarded : Bool)
    (others : (x : X) → are_others peer (K.meanwhile x).1.uses ≡ true) (t : Thread X S) where
  abbrev Start : Thread X S → Type 0
  Start = Holding K peer width height guarded others t

  abbrev Left : Thread X S → Type 0
  Left = Reached K peer width height guarded others t

  abbrev Fresh : Thread X S → Type 0
  Fresh = IsFresh K peer width height guarded others t

  abbrev After : Turn → Thread X S → Type 0
  After = Outcome K peer width height guarded others t

  abbrev Acted : Event → Thread X S → Type 0
  Acted = IsActed K peer width height guarded others t

  -- The deadline and the sequence are no state of the devices.
  abbrev numbered : (Control → Control) → Thread X S → Thread X S
  numbered f u = record u { control = elim u.control [ none ↦ none | some c ↦ some (f c) ] }

  numbered-IsActed :
      (event : Event) (f : Control → Control) (u : Thread X S)
      → Acted event u
      → Acted event (numbered f u)
  numbered-IsActed event f u h = record {
    touched = Touched-same K peer width height guarded t u (numbered f u) refl h.touched;
    owned = h.owned;
  }

  -- Control ends with a release, and otherwise goes with ownership.
  closed-Contract :
      (event : Event) (b : Bool)
      → is_release event ≡ b
      → Contract
          (Acted event)
          ((if b then drop_control K peer width height guarded else pure tt) >> pure again)
          After
          Left
  closed-Contract event true e =
      >>=-Contract {J = λ _. After again}
        (modify-Contract (λ u. record u { control = none })
          (λ u h. record {
            touched =
                Touched-same K peer width height guarded t u (record u { control = none }) refl
                  h.touched;
            held = inl refl;
          }))
        λ _. pure-Contract again (λ s h. h)
  closed-Contract event false e =
      >>=-Contract {J = λ _. After again}
        (pure-Contract tt (λ u h. record { touched = h.touched; held = inr (h.owned e) }))
        λ _. pure-Contract again (λ s h. h)

  next_sequence-Contract :
      (event : Event) (n : ℕ)
      → Contract (Acted event) (next_sequence K peer width height guarded n) (λ m. Acted event) Left
  next_sequence-Contract event n =
      >>=-Contract {J = λ u. Acted event}
        (ensure-Contract (ltb (n + 1) (2 ^ 64)) Refusal.invalid (λ e s h. h) (λ s h. h.touched))
        λ _. pure-Contract (n + 1) (λ s h. h)

  -- The answer, and the number of the next request.
  answered-Contract :
      (event : Event) (n deadline : ℕ)
      → Contract
          (Acted event)
          (send K (ack n true) deadline
            >> (next_sequence K peer width height guarded n >>= (λ next.
                keep_sequence K peer width height guarded next
                >> ((if is_release event then drop_control K peer width height guarded else pure tt)
                    >> pure again))))
          After
          Left
  answered-Contract event n deadline =
      >>=-Contract {J = λ _. Acted event}
        (Keeps-Contract (send-SameHold K (ack n true) deadline)
          (IsActed-same K peer width height guarded others t event) (λ s h. h.touched))
        λ _. >>=-Contract (next_sequence-Contract event n) λ next.
          >>=-Contract {J = λ _. Acted event}
            (modify-Contract (numbered (λ c. record c { sequence = next }))
              (numbered-IsActed event (λ c. record c { sequence = next })))
            λ _. closed-Contract event (is_release event) refl

  next_deadline-before :
      (d : Timed) (deadline end later : ℕ)
      → next_deadline d deadline end ≡ ok later
      → d.accepted_at < deadline
  unfolding next_deadline
  next_deadline-before d deadline end later h = ground (arith, h)

  clock-Contract :
      Contract Left
        (observe K.now)
        (λ accepted u. Left u × ((x : X) × (accepted ≡ (K.now x).1)))
        Left
  clock-Contract = record {
    at = λ s h. (
      Touched-same K peer width height guarded t s (record s { world = (K.now s.world).0 }) refl h,
      (s.world, refl),
    );
  }

  -- A request that the check accepts, for the control of the state.
  pub obey-Contract :
      (c : Control) (bytes : List ℕ) (r : Request)
      → t.control ≡ some c
      → K.parse_request bytes ≡ some r
      → validate r c.generation c.sequence width height ≡ ok tt
      → Vouched K peer width height guarded c.guard
      → Contract Left (obey K peer width height guarded c r.event) After Left
  unfolding obey
  obey-Contract c bytes r held parsed valid vouched =
      >>=-Contract {J = λ accepted u. Left u × ((x : X) × (accepted ≡ (K.now x).1))} clock-Contract
        λ accepted.
          fact-Contract (λ s h. h.1)
            λ read.
              before-Contract (λ s h. h.0)
                (>>=-Contract {J = λ later u. Left u × (accepted < c.deadline)}
                  (lift-Contract
                    (next_deadline (record { is_renew = is_renew r.event; accepted_at = accepted })
                      c.deadline (end_at c.end accepted))
                    (λ s h later e. (
                      h,
                      next_deadline-before
                          (record { is_renew = is_renew r.event; accepted_at = accepted })
                          c.deadline (end_at c.end accepted) later e,
                    ))
                    (λ s h. h))
                  λ later.
                    fact-Contract (λ s h. h.1)
                      λ early.
                        before-Contract (λ s h. h.0)
                          (>>=-Contract {J = λ _. Left}
                            (modify-Contract (numbered (λ d. record d { deadline = later })) (λ u h.
                              Touched-same K peer width height guarded t u
                                (numbered (λ d. record d { deadline = later }) u) refl h))
                            λ _.
                              >>=-Contract {J = λ _. Acted r.event}
                                (locked-Contract K peer width height guarded others t (λ s h. h)
                                  (see_all-Contract K peer width height guarded others t)
                                  (act-Contract K peer width height guarded others t r.event (
                                    acted c bytes r read.0 held parsed valid (rw (sym read.1) early)
                                      vouched)))
                                λ _. answered-Contract r.event c.sequence later))
