-- ===== src/Input/Joined.antt =====
-- The threads of the input daemon: how many there are, and that none is lost
-- (device/console/src/bin/input-daemon.rs, `main`).
use donkeywork_desktop.Base.{
  ℕ, ◌+◌, ◌≤◌, ◌≡◌, refl, sym, ◌∙◌, false, none, List, [], ◌∷◌, Result, ok, err, arith, length,
}
use donkeywork_desktop.Base.Sets.{contains}
use donkeywork_desktop.Base.Contracts.{Post}
use donkeywork_desktop.Console.Owner.{Refusal, SharedDevice, is_err}
use donkeywork_desktop.Console.Devices.{InputDevice, reset}
use donkeywork_desktop.Console.Held.{reset-contains}
use donkeywork_desktop.Input.Peers.{
  Listener, Host, new_host, accept_loop, join_all, forget_owner, run,
}
use donkeywork_desktop.Input.Counts.{count}
use donkeywork_desktop.Input.Crowd.{Kept, accept_loop-Contract}

module _ {X S : Type 0} (K : Listener X S) where
  join_all-count :
      (a : ℕ) (ws : List ℕ) (h : Host X)
      → (count a (join_all K ws h).joined ≡ count a ws + count a h.joined)
        × (count a (join_all K ws h).spawned ≡ count a h.spawned)
  unfolding join_all
  join_all-count a [] h = (omega arith, refl)
  join_all-count a (w ∷ ws) h =
      let rest =
        join_all-count a ws (record h { world = (K.join w h.world).0; joined = w ∷ h.joined }) in
      (omega arith, rest.1)

  join_all-workers : (ws : List ℕ) (h : Host X) → (join_all K ws h).workers ≡ []
  unfolding join_all
  join_all-workers [] h = refl
  join_all-workers (w ∷ ws) h =
      join_all-workers ws (record h { world = (K.join w h.world).0; joined = w ∷ h.joined })

  in_any_case :
      (a : ℕ) (p : Host X × Result Refusal (Unit {0}))
      → Post (λ u. Kept K a) (Kept K a) p
      → Kept K a p.0
  in_any_case a (h, ok u) k = k
  in_any_case a (h, err e) k = k

  accept_loop-Kept : (a rounds : ℕ) (x : X) → Kept K a (accept_loop K rounds (new_host x)).0
  accept_loop-Kept a rounds x =
      in_any_case a (accept_loop K rounds (new_host x))
        ((accept_loop-Contract K a rounds).at (new_host x) (omega arith, refl))

  -- However many rounds the loop that accepts peers has made, and whether or not it failed in one,
  -- it has at most eight threads, and each thread that was spawned is one of them or was joined, as
  -- often as it was spawned.
  pub accept_loop-bounded :
      (rounds : ℕ) (x : X)
      → (length (accept_loop K rounds (new_host x)).0.workers ≤ 8)
        × ((a : ℕ)
            → count a (accept_loop K rounds (new_host x)).0.spawned
              ≡ count a (accept_loop K rounds (new_host x)).0.workers
                + count a (accept_loop K rounds (new_host x)).0.joined)
  accept_loop-bounded rounds x =
      ((accept_loop-Kept 0 rounds x).0, λ a. (accept_loop-Kept a rounds x).1)

  -- Nobody owns the devices, and nothing is tracked as held on them.
  abbrev pub IsReleased : SharedDevice (InputDevice S) → Type 0
  IsReleased s =
      (s.owner ≡ none)
      × ((c : ℕ) → contains c s.device.keyboard.codes ≡ false)
      × ((c : ℕ) → contains c s.device.pointer.codes ≡ false)

  abbrev pub OnSuccess : Result Refusal (Unit {0}) → Type 0 → Type 0
  OnSuccess (ok u) P = P
  OnSuccess (err e) P = Unit

  forget_owner-IsReleased :
      (result : Result Refusal (Unit {0})) (s : SharedDevice (InputDevice S))
      (p : InputDevice S × Result Refusal (Unit {0}))
      → (is_err p.1 ≡ false
          → (c : ℕ)
          → (contains c p.0.keyboard.codes ≡ false) × (contains c p.0.pointer.codes ≡ false))
      → OnSuccess (forget_owner K result s p).1 (IsReleased (forget_owner K result s p).0)
  forget_owner-IsReleased (ok u) s (d, ok v) up = (refl, λ c. (up refl c).0, λ c. (up refl c).1)
  forget_owner-IsReleased (err e) s (d, ok v) up = tt
  forget_owner-IsReleased result s (d, err e) up = tt

  -- What a run of the daemon leaves.
  pub record IsOver (h : Host X) (s : SharedDevice (InputDevice S))
      (result : Result Refusal (Unit {0})) : Type 0 where
    pub gone : h.workers ≡ []
    pub each_joined : (a : ℕ) → count a h.spawned ≡ count a h.joined
    pub freed : OnSuccess result (IsReleased s)

  -- A run of the daemon over any surroundings, for any number of rounds of its loop, ends with each
  -- thread that was spawned joined as often as it was spawned; and where it ends without an error,
  -- nobody owns the devices, and nothing is tracked as held on the keyboard or the pointer.
  pub run-IsOver :
      (rounds : ℕ) (x : X) → IsOver (run K rounds x).0 (run K rounds x).1.0 (run K rounds x).1.1
  unfolding run
  run-IsOver rounds x =
      let p = accept_loop K rounds (new_host x) in
      let stopped = record p.0 { world = K.stop p.0.world } in
      let ended = join_all K p.0.workers stopped in
      let s = K.devices ended.world in
      record {
        gone = join_all-workers p.0.workers stopped;
        each_joined = λ a.
            let k = accept_loop-Kept a rounds x in
            let j = join_all-count a p.0.workers stopped in j.1 ∙ k.1 ∙ sym j.0;
        freed =
            forget_owner-IsReleased p.1 s (reset K.emit s.device)
              (λ e c. reset-contains K.emit c s.device e);
      }
