-- ===== src/Console/Deadlines.antt =====
-- How long a peer keeps control (device/console/src/bin/input-daemon.rs).
use donkeywork_desktop.Base.{
  ℕ, ◌≡◌, ◌≤◌, Bool, true, not, ◌&&◌, Option, some, List, [], ◌∷◌, ok, ltb, min, ◌+◌, if◌then◌else◌,
  arith,
}
use donkeywork_desktop.Console.Lease.{Timed, lease_ms, next_deadline, deadline_after}

unfoldable pub are_before : ℕ → List Timed → Bool
are_before end [] = true
are_before end (t ∷ ts) = ltb t.accepted_at end && are_before end ts

-- No event is a renewal.
unfoldable pub are_plain : List Timed → Bool
are_plain [] = true
are_plain (t ∷ ts) = not t.is_renew && are_plain ts

-- A control with a fixed end is never extended past it: once every event was accepted, each was
-- accepted before the end, and the deadline that results is not after the end.
pub deadline_after-bounded :
    (ts : List Timed) (end d later : ℕ)
    → d ≤ end
    → deadline_after ts (some end) d ≡ ok later
    → (later ≤ end) × (are_before end ts ≡ true)
unfolding deadline_after are_before next_deadline
deadline_after-bounded [] end d later h r = ground arith
deadline_after-bounded (t ∷ ts) end d later h r = ground (
  arith,
  deadline_after-bounded ts end (if t.is_renew then min (t.accepted_at + lease_ms) end else d)
      later,
)

-- Only a renewal extends a control: without one, the deadline stays, and every accepted event was
-- accepted before it.
pub deadline_after-plain :
    (ts : List Timed) (end : Option ℕ) (d later : ℕ)
    → are_plain ts ≡ true
    → deadline_after ts end d ≡ ok later
    → (later ≡ d) × (are_before d ts ≡ true)
unfolding deadline_after are_before are_plain next_deadline
deadline_after-plain [] end d later h r = ground arith
deadline_after-plain (t ∷ ts) end d later h r = ground (arith, deadline_after-plain ts end d later)
