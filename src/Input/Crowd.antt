-- ===== src/Input/Crowd.antt =====
-- What every round of the loop that accepts peers keeps
-- (device/console/src/bin/input-daemon.rs, `main`).
use donkeywork_desktop.Base.{
  ℕ, zero, suc, ◌+◌, ◌≤◌, ◌<◌, ◌≡◌, refl, sym, ap, ◌∙◌, Bool, true, false, Option, none, some, List,
  [], ◌∷◌, arith, leb, ltb, length, take, drop, length-append, length-drop,
}
use donkeywork_desktop.Base.Actions.{pure, ◌>>◌}
use donkeywork_desktop.Base.Contracts.{
  Contract, Post, pure-Contract, raise-Contract, gets-Contract, modify-Contract, if-Contract,
  ensure-Contract, >>=-Contract, before-Contract,
}
use donkeywork_desktop.Console.Owner.{Refusal}
use donkeywork_desktop.Input.Peers.{
  Acceptance, accepted, would_block, interrupted, failed, Listener, Host, moved_up, observe,
  look_at, answer_of, retire_at, retire, reap, keep_worker, admit, admit_or_drop, welcome, turn,
  accept_loop,
}
use donkeywork_desktop.Input.Counts.{
  count, count-append, count-moved_up, length-moved_up, count-take-drop, length-take-drop,
}

module _ {X S : Type 0} (K : Listener X S) (a : ℕ) where
  -- No more than eight, and each is there or was joined.
  abbrev pub Kept : Host X → Type 0
  Kept h = (length h.workers ≤ 8) × (count a h.spawned ≡ count a h.workers + count a h.joined)

  -- With so many workers from the index on.
  abbrev Ahead : ℕ → ℕ → Host X → Type 0
  Ahead rounds i h = (length h.workers ≡ i + rounds) × Kept h

  retired :
      (i rounds w : ℕ) (rest : List ℕ) (h : Host X)
      → drop i h.workers ≡ w ∷ rest
      → Ahead (suc rounds) i h
      → Ahead rounds i (retire_at K i (w ∷ rest) h).0
  retired i rounds w rest h e k =
      let whole = count-take-drop a i h.workers in
      let counted : count a (drop i h.workers) ≡ count a (w ∷ rest) = ap (count a) e in
      let size = length-take-drop i h.workers in
      let sized : length (drop i h.workers) ≡ length (w ∷ rest) = ap length e in
      let c = count-append a (take i h.workers) (moved_up rest) in
      let l = length-append (take i h.workers) (moved_up rest) in
      let m = count-moved_up a rest in
      let n = length-moved_up rest in (omega arith, (omega arith, omega arith))

  observe-Contract :
      {A : Type 0} (f : X → X × A) (I : Host X → Type 0) (J : A → Host X → Type 0)
      (O : Host X → Type 0)
      → ((h : Host X) → I h → J (f h.world).1 (record h { world = (f h.world).0 }))
      → Contract I (observe K f) J O
  observe-Contract f I J O k = record { at = k }

  retire_at-Post :
      (i rounds : ℕ) (ws : List ℕ) (h : Host X)
      → drop i h.workers ≡ ws
      → Ahead (suc rounds) i h
      → Post (λ u. Ahead rounds i) Kept (retire_at K i ws h)
  retire_at-Post i rounds [] h e k =
      let left = length-drop i h.workers in
      let nothing : length (drop i h.workers) ≡ 0 = ap length e in absurd (omega (arith, k.0))
  retire_at-Post i rounds (w ∷ rest) h e k =
      answered (K.join w h.world).1 (retire_at K i (w ∷ rest) h).0 (retired i rounds w rest h e k)
    where
      answered :
          (b : Bool) (u : Host X)
          → Ahead rounds i u
          → Post (λ x. Ahead rounds i) Kept (u, answer_of K b)
      answered true u k' = k'
      answered false u k' = k'.1

  retire-Contract :
      (i rounds : ℕ) → Contract (Ahead (suc rounds) i) (retire K i) (λ u. Ahead rounds i) Kept
  unfolding retire
  retire-Contract i rounds = record {
    at = λ h k. retire_at-Post i rounds (drop i h.workers) h refl k;
  }

  look_at-Contract :
      (rounds i : ℕ) (ws : List ℕ)
      → Contract (Ahead rounds i) (look_at K ws) (λ b. Ahead rounds i) Kept
  look_at-Contract rounds i [] = pure-Contract false (λ h k. k)
  look_at-Contract rounds i (w ∷ rest) =
      observe-Contract (K.is_finished w) (Ahead rounds i) (λ b. Ahead rounds i) Kept (λ h k. k)

  -- The index ends at the number of workers, so that a round for each was enough.
  reap-Contract :
      (rounds i : ℕ)
      → Contract
          (Ahead rounds i)
          (reap K rounds i)
          (λ end h. (length h.workers ≡ end) × Kept h)
          Kept
  unfolding reap
  reap-Contract zero i = pure-Contract i (λ h k. (omega arith, k.1))
  reap-Contract (suc rounds) i =
      let go = reap-Contract rounds i in
      let pass = reap-Contract rounds (i + 1) in
      >>=-Contract {J = λ ws. Ahead (suc rounds) i} (gets-Contract (λ h. h.workers) (λ h k. k))
        λ ws. >>=-Contract (look_at-Contract (suc rounds) i (drop i ws)) λ finished.
          if-Contract finished (retire K i >> reap K rounds i) (reap K rounds (i + 1))
            (λ e. >>=-Contract (retire-Contract i rounds) λ _. go)
            (λ e. before-Contract (λ h k. (omega arith, k.1)) pass)

  keep_worker-Contract :
      (w : Option ℕ)
      → Contract (λ h. (length h.workers < 8) × Kept h) (keep_worker K w) (λ u. Kept) Kept
  keep_worker-Contract none = raise-Contract Refusal.io_error (λ h k. k.1)
  keep_worker-Contract (some w) = modify-Contract _ (λ h k.
      let l = length-append h.workers (w ∷ []) in
      let c = count-append a h.workers (w ∷ []) in (omega arith, omega arith))

  admit-Contract :
      (stream : ℕ)
      → Contract (λ h. (length h.workers < 8) × Kept h) (admit K stream) (λ u. Kept) Kept
  unfolding admit
  admit-Contract stream =
      let I = λ (h : Host X). (length h.workers < 8) × Kept h in
      >>=-Contract {J = λ b. I}
        (observe-Contract (K.set_blocking stream) I (λ b. I) Kept (λ h k. k))
        λ blocking.
          >>=-Contract {J = λ u. I}
            (ensure-Contract blocking Refusal.io_error (λ e h k. k) (λ h k. k.1))
            λ _. >>=-Contract {J = λ peer. I} (gets-Contract (λ h. h.peer) (λ h k. k)) λ peer.
              >>=-Contract {J = λ u. I}
                (ensure-Contract (ltb (peer + 1) 18446744073709551616) Refusal.invalid (λ e h k. k)
                  (λ h k. k.1))
                λ _.
                  >>=-Contract {J = λ u. I}
                    (modify-Contract (λ h. record h { peer = peer + 1 }) (λ h k. k))
                    λ _.
                      >>=-Contract {J = λ w. I}
                        (observe-Contract (K.spawn stream (peer + 1)) I (λ w. I) Kept (λ h k. k))
                        keep_worker-Contract

  admit_or_drop-Contract :
      (full : Bool) (stream : ℕ)
      → Contract
          (λ h. (full ≡ leb 8 (length h.workers)) × Kept h)
          (admit_or_drop K full stream)
          (λ u. Kept)
          Kept
  admit_or_drop-Contract true stream = modify-Contract _ (λ h k. k.1)
  admit_or_drop-Contract false stream =
      before-Contract (λ h k. (ground (arith, k.0), k.1)) (admit-Contract stream)

  welcome-Contract :
      (acceptance : Acceptance) → Contract Kept (welcome K acceptance) (λ u. Kept) Kept
  welcome-Contract (accepted stream) =
      >>=-Contract {J = λ ws h. (ws ≡ h.workers) × Kept h}
        (gets-Contract (λ h. h.workers) (λ h k. (refl, k)))
        λ ws.
          before-Contract (λ h k. (ap (λ l. leb 8 (length l)) k.0, k.1))
            (admit_or_drop-Contract (leb 8 (length ws)) stream)
  welcome-Contract would_block =
      >>=-Contract {J = λ b. Kept} (observe-Contract K.poll Kept (λ b. Kept) Kept (λ h k. k))
        λ polled. ensure-Contract polled Refusal.io_error (λ e h k. k) (λ h k. k)
  welcome-Contract interrupted = pure-Contract tt (λ h k. k)
  welcome-Contract failed = raise-Contract Refusal.io_error (λ h k. k)

  turn-Contract : Contract Kept (turn K) (λ u. Kept) Kept
  unfolding turn
  turn-Contract =
      >>=-Contract {J = λ ws h. (ws ≡ h.workers) × Kept h}
        (gets-Contract (λ h. h.workers) (λ h k. (refl, k)))
        λ ws.
          >>=-Contract {J = λ end h. (length h.workers ≡ end) × Kept h}
            (before-Contract (λ h k. (ap length (sym k.0) ∙ omega arith, k.1))
              (reap-Contract (length ws) 0))
            λ end.
              >>=-Contract {J = λ c. Kept}
                (before-Contract (λ h k. k.1)
                  (observe-Contract K.accept Kept (λ c. Kept) Kept (λ h k. k)))
                welcome-Contract

  pub accept_loop-Contract : (rounds : ℕ) → Contract Kept (accept_loop K rounds) (λ u. Kept) Kept
  unfolding accept_loop
  accept_loop-Contract zero = raise-Contract Refusal.unfinished (λ h k. k)
  accept_loop-Contract (suc rounds) =
      let rest = accept_loop-Contract rounds in
      >>=-Contract {J = λ b. Kept} (observe-Contract K.stops Kept (λ b. Kept) Kept (λ h k. k))
        λ stop.
          if-Contract stop (pure tt) (turn K >> accept_loop K rounds)
            (λ e. pure-Contract tt (λ h k. k)) (λ e. >>=-Contract turn-Contract λ _. rest)
