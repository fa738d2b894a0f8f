-- ===== src/Console/Owner.antt =====
-- `SharedDevice` of the input daemon (device/console/src/bin/input-daemon.rs): the devices and the
-- peer that owns them. A step is one use of the lock by a peer.
use donkeywork_desktop.Base.{
  ℕ, Bool, true, false, not, ◌&&◌, Option, none, some, List, [], ◌∷◌, Result, ok, err, is_some,
  is_some_and, ◌==◌, if◌then◌else◌,
}

pub data Refusal : Type 0 where
  invalid : Refusal
  io_error : Refusal
  -- No error of the source: a loop was not followed to its end.
  unfinished : Refusal

-- `impl FnOnce(&mut D) -> io::Result<()>`: the device is changed also where the call fails.
abbrev pub Action : Type 0 → Type 0
Action D = D → D × Result Refusal (Unit {0})

-- `Result::is_err`
abbrev pub is_err : Result Refusal (Unit {0}) → Bool
is_err (ok u) = false
is_err (err e) = true

pub record SharedDevice (D : Type 0) : Type 0 where
  pub device : D
  pub owner : Option ℕ

pub data Use (D : Type 0) : Type 0 where
  claims : ℕ → Use D
  acts : ℕ → Action D → Use D
  releases : ℕ → Action D → Use D

module _ {D : Type 0} where
  abbrev pub is_owner : ℕ → SharedDevice D → Bool
  is_owner peer s = is_some_and s.owner (λ p. p == peer)

  unfoldable pub claim : ℕ → SharedDevice D → SharedDevice D × Bool
  claim peer s = if is_some s.owner then (s, false) else (record s { owner = some peer }, true)

  -- The new state after an action that `owned` lets through.
  unfoldable pub with_owned :
      ℕ → Action D → SharedDevice D → SharedDevice D × Result Refusal (Unit {0})
  with_owned peer act s =
      if not (is_owner peer s)
      then (s, err invalid)
      else (record s { device = (act s.device).0 }, (act s.device).1)

  abbrev settle :
      SharedDevice D → D × Result Refusal (Unit {0}) → SharedDevice D × Result Refusal (Unit {0})
  settle s (d, ok u) = (record s { device = d; owner = none }, ok u)
  settle s (d, err e) = (record s { device = d }, err e)

  unfoldable pub release :
      ℕ → Action D → SharedDevice D → SharedDevice D × Result Refusal (Unit {0})
  release peer reset s = if not (is_owner peer s) then (s, ok _) else settle s (reset s.device)

  abbrev pub peer_of : Use D → ℕ
  peer_of (claims p) = p
  peer_of (acts p a) = p
  peer_of (releases p r) = p

  unfoldable pub use_once : Use D → SharedDevice D → SharedDevice D
  use_once (claims p) s = (claim p s).0
  use_once (acts p a) s = (with_owned p a s).0
  use_once (releases p r) s = (release p r s).0

  unfoldable pub use_all : List (Use D) → SharedDevice D → SharedDevice D
  use_all [] s = s
  use_all (u ∷ us) s = use_all us (use_once u s)

  -- No use is one of the peer.
  unfoldable pub are_others : ℕ → List (Use D) → Bool
  are_others peer [] = true
  are_others peer (u ∷ us) = not (peer_of u == peer) && are_others peer us
