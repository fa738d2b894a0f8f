-- ===== src/Input/Served.antt =====
-- The whole thread of a peer (device/console/src/bin/input-daemon.rs, `serve`, the spawned thread).
use donkeywork_desktop.Base.{
  ℕ, zero, suc, ◌≡◌, refl, sym, ap, ◌∙◌, Bool, true, not, ◌||◌, none, List, [], ◌∷◌, ◌++◌, Result,
  ok, err, ◌==◌, inl, arith, if◌then◌else◌,
}
use donkeywork_desktop.Base.Actions.{continue, >>=-Keeps, ensure-Keeps}
use donkeywork_desktop.Base.Actions.{pure, Keeps}
use donkeywork_desktop.Base.Contracts.{Post}
use donkeywork_desktop.Console.Owner.{Refusal, Use, release, use_all, are_others, is_owner}
use donkeywork_desktop.Console.Devices.{InputDevice}
use donkeywork_desktop.Input.Daemon.{Daemon, Thread, Method, release_owned}
use donkeywork_desktop.Input.Serve.{round, Turn, again, over}
use donkeywork_desktop.Input.Quiet.{SameHold, SameHold-IsPreorder, ask-SameHold}
use donkeywork_desktop.Input.Traces.{Allowed, Touched, IsHeld}
use donkeywork_desktop.Input.Serve.{serve_rounds, serve, is_again, peer_thread, peer_root}
use donkeywork_desktop.Input.Holding.{Outcome, release_owned-Contract}
use donkeywork_desktop.Input.Rounds.{round-Outcome}
use donkeywork_desktop.Input.Traces.{All, All-append, use_all-append}

All-map :
    {A : Type 0} (P Q : A → Type 0) (xs : List A) → ((x : A) → P x → Q x) → All P xs → All Q xs
All-map P Q [] f h = tt
All-map P Q (x ∷ xs) f h = (f x h.0, All-map P Q xs f h.1)

anyway : {A E S : Type 0} (P : S → Type 0) (r : S × Result E A) → Post (λ a. P) P r → P r.0
anyway P (s, ok a) h = h
anyway P (s, err e) h = h

module _ {X S : Type 0} (K : Daemon X S) (peer width height : ℕ) (guarded : Bool)
    (others : (x : X) → are_others peer (K.meanwhile x).1.uses ≡ true) where
  -- Allowed in one of the rounds that follow a state.
  abbrev pub AllowedIn : Thread X S → Use (InputDevice S) → Type 0
  AllowedIn t u =
      (k : ℕ) × Allowed K peer width height guarded (serve_rounds K peer width height guarded k t).0
        u

  -- From one state to another by uses that the rounds from a state allow.
  pub record IsServed (start t u : Thread X S) : Type 0 where
    pub uses : List (Use (InputDevice S))
    pub same : u.shared ≡ use_all uses t.shared
    pub allowed : All (AllowedIn start) uses

  untouched : (t : Thread X S) → Touched K peer width height guarded t t
  unfolding use_all
  untouched t = record { uses = []; same = refl; allowed = tt }

  Touched-IsServed : (t u : Thread X S) → Touched K peer width height guarded t u → IsServed t t u
  unfolding serve_rounds
  Touched-IsServed t u h = record {
    uses = h.uses;
    same = h.same;
    allowed =
        All-map (Allowed K peer width height guarded t) (AllowedIn t) h.uses (λ w a. (0, a))
          h.allowed;
  }

  IsServed-then :
      (start t u v : Thread X S) → IsServed start t u → IsServed start u v → IsServed start t v
  IsServed-then start t u v p q = record {
    uses = p.uses ++ q.uses;
    same = q.same ∙ ap (use_all q.uses) p.same ∙ sym (use_all-append p.uses q.uses t.shared);
    allowed = All-append (AllowedIn start) p.uses q.uses p.allowed q.allowed;
  }

  abbrev Loop : ℕ → Method X S Turn
  Loop rounds = serve_rounds K peer width height guarded rounds

  -- What follows a round.
  abbrev follow : ℕ → Thread X S × Result Refusal Turn → Thread X S × Result Refusal Turn
  follow rounds (u, r) = continue r (λ turn. if is_again turn then Loop rounds else pure over) u

  Loop-again :
      (rounds : ℕ) (t u : Thread X S)
      → round K peer width height guarded t ≡ (u, ok again)
      → Loop (suc rounds) t ≡ Loop rounds u
  unfolding serve_rounds
  Loop-again rounds t u e = ap (follow rounds) e

  later-AllowedIn :
      (t u : Thread X S)
      → round K peer width height guarded t ≡ (u, ok again)
      → (w : Use (InputDevice S)) → AllowedIn u w
      → AllowedIn t w
  later-AllowedIn t u e w (k, a) = (suc k, rw (Loop-again k t u e) a)

  later-IsServed :
      (t u v : Thread X S)
      → round K peer width height guarded t ≡ (u, ok again)
      → IsServed u u v
      → IsServed t u v
  later-IsServed t u v e p = record {
    uses = p.uses;
    same = p.same;
    allowed = All-map (AllowedIn u) (AllowedIn t) p.uses (later-AllowedIn t u e) p.allowed;
  }

  follow-IsServed :
      (rounds : ℕ) (t : Thread X S)
      → ((u : Thread X S) → IsHeld K peer width height guarded u → IsServed u u (Loop rounds u).0)
      → (r : Thread X S × Result Refusal Turn) → round K peer width height guarded t ≡ r
      → Post
          (Outcome K peer width height guarded others t)
          (Touched K peer width height guarded t)
          r
      → IsServed t t (follow rounds r).0
  follow-IsServed rounds t ih (u, ok again) e p =
      IsServed-then t t u (Loop rounds u).0 (Touched-IsServed t u p.touched)
        (later-IsServed t u (Loop rounds u).0 e (ih u p.held))
  follow-IsServed rounds t ih (u, ok over) e p = Touched-IsServed t u p
  follow-IsServed rounds t ih (u, err x) e p = Touched-IsServed t u p

  Loop-IsServed :
      (rounds : ℕ) (t : Thread X S)
      → IsHeld K peer width height guarded t
      → IsServed t t (Loop rounds t).0
  unfolding serve_rounds
  Loop-IsServed zero t h = Touched-IsServed t t (untouched t)
  Loop-IsServed (suc rounds) t h =
      follow-IsServed rounds t (Loop-IsServed rounds) (round K peer width height guarded t) refl
        (round-Outcome K peer width height guarded others t h)

  released-at :
      (start u : Thread X S) (rounds : ℕ)
      → (serve_rounds K peer width height guarded rounds start).0 ≡ u
      → IsServed start u (release_owned K peer u).0
  released-at start u rounds e =
      let p =
        anyway (Touched K peer width height guarded u) (release_owned K peer u)
          ((release_owned-Contract K peer width height guarded others u).at u (untouched u)) in
      record {
        uses = p.uses;
        same = p.same;
        allowed =
            All-map (Allowed K peer width height guarded u) (AllowedIn start) p.uses
              (λ w a. (rounds, rw e a)) p.allowed;
      }

  -- After the test of the peer's user, the rounds; and then the release.
  rooted :
      (rounds : ℕ) (v : Thread X S) (r : Result Refusal (Unit {0}))
      → IsHeld K peer width height guarded v
      → IsServed v v (release_owned K peer (continue r (λ u. Loop rounds) v).0).0
  unfolding serve_rounds
  rooted rounds v (ok u) h =
      IsServed-then v v (Loop rounds v).0 (release_owned K peer (Loop rounds v).0).0
        (Loop-IsServed rounds v h) (released-at v (Loop rounds v).0 rounds refl)
  rooted rounds v (err e) h = released-at v v 0 refl

  thread-released :
      (u : Thread X S)
      → ((release_owned K peer u).0.stopped
          || not (is_owner peer (release_owned K peer u).0.shared))
        ≡ true
  unfolding release_owned release
  thread-released u = ground arith

  peer_root-SameHold : Keeps SameHold (peer_root K peer width height guarded)
  unfolding peer_root
  peer_root-SameHold =
      >>=-Keeps (ask-SameHold K K.peer_uid) λ uid. ensure-Keeps (uid == 0) Refusal.io_error

  IsServed-from :
      (start t u v : Thread X S) → SameHold t u → IsServed start u v → IsServed start t v
  IsServed-from start t u v p q = record {
    uses = q.uses;
    same = q.same ∙ ap (use_all q.uses) p.shared;
    allowed = q.allowed;
  }

  -- Where what the other threads do is done by other peers: a peer's thread that starts without
  -- control changes the devices, up to its end, with the release included and also where `serve`
  -- fails, only by uses of the lock that one of its rounds allows; and then the peer does not own the
  -- devices, unless the daemon is stopped.
  pub peer_thread-IsServed :
      (rounds : ℕ) (t : Thread X S)
      → t.control ≡ none
      → IsServed
          (peer_root K peer width height guarded t).0
          t
          (peer_thread K peer width height guarded rounds t).0
        × ((peer_thread K peer width height guarded rounds t).0.stopped
            || not (is_owner peer (peer_thread K peer width height guarded rounds t).0.shared))
          ≡ true
  unfolding peer_thread serve
  peer_thread-IsServed rounds t e =
      let v = peer_root K peer width height guarded t in
      let kept = peer_root-SameHold.apply t in
      (
        IsServed-from v.0 t v.0 (peer_thread K peer width height guarded rounds t).0 kept
            (rooted rounds v.0 v.1 (inl (kept.control ∙ e))),
        thread-released (serve K peer width height guarded rounds t).0,
      )
