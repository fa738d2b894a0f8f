-- ===== src/Console/Examples.antt =====
-- Concrete runs of the input service: a device that is a number, reset to 0.
use donkeywork_desktop.Base.{
  ◌||◌, ◌+◌, lookup, ℕ, ◌≡◌, ◌≤◌, refl, true, false, none, some, List, [], ◌∷◌, ok, err, arith,
}
use donkeywork_desktop.Console.Owner.{
  Refusal, SharedDevice, Action, Use, claims, acts, releases, claim, release, is_err, use_once,
  use_all, are_others,
}
use donkeywork_desktop.Console.Lease.{Timed, next_deadline, deadline_after}
use donkeywork_desktop.Console.Exclusive.{use_all_others}
use donkeywork_desktop.Console.Deadlines.{are_before, are_plain, deadline_after-bounded}
use donkeywork_desktop.Base.Sets.{contains}
use donkeywork_desktop.Console.Devices.{Emit, InputDevice, hid_key, key}
use donkeywork_desktop.Console.Held.{key-contains}

abbrev to_zero : Action ℕ
to_zero d = (0, ok _)

abbrev stuck : Action ℕ
stuck d = (d, err Refusal.io_error)

abbrev held : SharedDevice ℕ
held = record { device = 5; owner = some 1 }

abbrev attempts : List (Use ℕ)
attempts = claims 2 ∷ acts 2 to_zero ∷ releases 3 to_zero ∷ []

attempts_others : are_others 1 attempts ≡ true
unfolding are_others
attempts_others = refl

use_all_others_example : use_all attempts held ≡ held
use_all_others_example = use_all_others 1 attempts held refl attempts_others

-- The owner's release resets the device and frees it for the next peer.
released_then_claimed :
    use_all (releases 1 to_zero ∷ claims 2 ∷ []) held ≡ record { device = 0; owner = some 2 }
unfolding use_all use_once release claim
released_then_claimed = refl

abbrev renewed : List Timed
renewed =
    record { is_renew = false; accepted_at = 400 }
    ∷ record { is_renew = true; accepted_at = 900 }
    ∷ []

renewed_ok : deadline_after renewed (some 1500) 1000 ≡ ok 1500
unfolding deadline_after next_deadline
renewed_ok = refl

deadline_after-bounded_example : (1500 ≤ 1500) × (are_before 1500 renewed ≡ true)
deadline_after-bounded_example =
    deadline_after-bounded renewed 1500 1000 1500 (omega arith) renewed_ok

abbrev plain : List Timed
plain = record { is_renew = false; accepted_at = 400 } ∷ []

abbrev deadline : ℕ
deadline = 1000

plain_are : are_plain plain ≡ true
unfolding are_plain
plain_are = refl

plain_ok : deadline_after plain none deadline ≡ ok deadline
unfolding deadline_after next_deadline
plain_ok = refl

-- A kernel that takes every packet, and counts them.
abbrev counting : Emit ℕ
counting events n = (n + 1, ok _)

abbrev devices : InputDevice ℕ
devices = record {
  keyboard = record { file = 0; codes = 30 ∷ 42 ∷ [] };
  pointer = record { file = 0; codes = 272 ∷ [] };
  width = 1920;
  height = 1080;
}

hid_of_b : hid_key 5 ≡ some 48
unfolding hid_key lookup
hid_of_b = refl

key-contains_example :
    contains 48 (key counting 5 true devices).0.keyboard.codes
    ≡ (true || is_err (key counting 5 true devices).1)
key-contains_example = key-contains counting 5 48 true devices hid_of_b
