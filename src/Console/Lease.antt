-- ===== src/Console/Lease.antt =====
-- The deadline of a peer's control (device/console/src/bin/input-daemon.rs, `next_deadline` and
-- its use in `serve`).
use donkeywork_desktop.Base.{
  ℕ, ◌+◌, min, Bool, Option, none, some, List, [], ◌∷◌, ◌||◌, Result, ok, err, leb, if◌then◌else◌,
}
use donkeywork_desktop.Console.Owner.{Refusal}

abbrev pub lease_ms : ℕ
lease_ms = 1000

-- `Event`, as far as the deadline depends on it.
pub record Timed : Type 0 where
  pub is_renew : Bool
  pub accepted_at : ℕ

unfoldable pub next_deadline : Timed → ℕ → ℕ → Result Refusal ℕ
next_deadline t deadline end =
    if leb deadline t.accepted_at || leb end t.accepted_at
    then err Refusal.invalid
    else ok (if t.is_renew then min (t.accepted_at + lease_ms) end else deadline)

-- `state.end.unwrap_or(accepted + LEASE_MS)`
abbrev pub end_at : Option ℕ → ℕ → ℕ
end_at none accepted = accepted + lease_ms
end_at (some e) accepted = e

-- The deadlines of one control, over the events that `serve` accepts.
unfoldable pub deadline_after : List Timed → Option ℕ → ℕ → Result Refusal ℕ
deadline_after [] end d = ok d
deadline_after (t ∷ ts) end d = elim (next_deadline t d (end_at end t.accepted_at)) [
  | err e ↦ err e
  | ok later ↦ deadline_after ts end later
]
