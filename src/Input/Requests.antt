-- ===== src/Input/Requests.antt =====
-- The messages of the input daemon and the check of a request (device/console/src/input.rs).
use donkeywork_desktop.Base.{
  ℕ, ◌+◌, Bool, false, not, ◌&&◌, ◌||◌, Option, List, Result, ok, err, leb, ltb, ◌==◌,
  if◌then◌else◌,
}
use donkeywork_desktop.Base.Int.{ℤ, pos, negsuc}
use donkeywork_desktop.Console.Owner.{Refusal}

abbrev pub max_input : ℕ
max_input = 4096

pub data Event : Type 0 where
  move : ℕ → ℕ → Event
  button : ℕ → Bool → ℕ → ℕ → Event
  wheel : ℤ → ℤ → ℕ → ℕ → Event
  key : ℕ → Bool → Event
  reset renew release : Event

-- A generation is only compared.
pub record Request : Type 0 where
  pub generation : ℕ
  pub sequence : ℕ
  pub event : Event

-- `Hello`, `Ack` and `Unavailable`, with the fields that vary.
pub data Message : Type 0 where
  hello : ℕ → ℕ → ℕ → ℕ → Message
  ack : ℕ → Bool → Message
  unavailable : Option (List ℕ) → Message

-- `unsigned_abs`
unfoldable pub unsigned_abs : ℤ → ℕ
unsigned_abs (pos n) = n
unsigned_abs (negsuc n) = n + 1

abbrev pub is_zero : ℤ → Bool
is_zero v = unsigned_abs v == 0

-- An event whose arguments the check refuses, for a screen of this size.
unfoldable pub is_outside : Event → ℕ → ℕ → Bool
is_outside (Event.move x y) width height = leb width x || leb height y
is_outside (Event.button b down x y) width height =
    leb width x || leb height y || not (leb 1 b && leb b 3)
is_outside (Event.wheel vertical horizontal x y) width height =
    leb width x
    || leb height y
    || (is_zero vertical && is_zero horizontal)
    || ltb 32 (unsigned_abs vertical)
    || ltb 32 (unsigned_abs horizontal)
is_outside (Event.key hid down) width height = false
is_outside Event.reset width height = false
is_outside Event.renew width height = false
is_outside Event.release width height = false

unfoldable pub validate : Request → ℕ → ℕ → ℕ → ℕ → Result Refusal (Unit {0})
validate request generation next width height =
    if not (request.generation == generation) || not (request.sequence == next)
    then err Refusal.invalid
    else if is_outside request.event width height
    then err Refusal.invalid
    else ok tt
