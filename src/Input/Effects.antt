-- ===== src/Input/Effects.antt =====
-- What an event does to the devices: `move_to` and `wheel` (device/console/src/input_device.rs), and
-- the match of `serve` over the events (device/console/src/bin/input-daemon.rs).
use donkeywork_desktop.Base.{ℕ, ◌-◌, ◌^◌, ◌&&◌, ◌||◌, List, [], ◌∷◌, ◌++◌, err, leb, if◌then◌else◌}
use donkeywork_desktop.Base.Actions.{pure, ◌>>◌}
use donkeywork_desktop.Base.Int.{ℤ, pos, negsuc}
use donkeywork_desktop.Console.Owner.{Refusal, Action}
use donkeywork_desktop.Console.Devices.{Emit, InputDevice, key, button, reset}
use donkeywork_desktop.Input.Requests.{Event, is_zero}

-- `value as i32`, as its 32 bits.
unfoldable pub i32_bits : ℤ → ℕ
i32_bits (pos n) = n
i32_bits (negsuc n) = 2 ^ 32 - 1 - n

-- The events of a wheel packet, without the axes that do not turn.
unfoldable pub wheel_packet : ℤ → ℤ → List (ℕ × ℕ × ℕ)
wheel_packet vertical horizontal =
    (if is_zero vertical then [] else (2, 8, i32_bits vertical) ∷ [])
    ++ (if is_zero horizontal then [] else (2, 6, i32_bits horizontal) ∷ [])

module _ {S : Type 0} (emit : Emit S) where
  -- A packet on the pointer.
  abbrev pub emit_pointer : List (ℕ × ℕ × ℕ) → Action (InputDevice S)
  emit_pointer packet d = (
    record d {
      pointer = record { file = (emit packet d.pointer.file).0; codes = d.pointer.codes };
    },
    (emit packet d.pointer.file).1,
  )

  unfoldable pub move_to : ℕ → ℕ → Action (InputDevice S)
  move_to x y d =
      if leb d.width x || leb d.height y
      then (d, err Refusal.invalid)
      else emit_pointer ((3, 0, x) ∷ (3, 1, y) ∷ []) d

  unfoldable pub turn_wheel : ℤ → ℤ → Action (InputDevice S)
  turn_wheel vertical horizontal d =
      if is_zero vertical && is_zero horizontal
      then (d, err Refusal.invalid)
      else emit_pointer (wheel_packet vertical horizontal) d

  -- The match of `serve` over the events.
  unfoldable pub perform : Event → Action (InputDevice S)
  perform (Event.move x y) = move_to x y
  perform (Event.button b down x y) = move_to x y >> button emit b down
  perform (Event.wheel vertical horizontal x y) = move_to x y >> turn_wheel vertical horizontal
  perform (Event.key hid down) = key emit hid down
  perform Event.reset = reset emit
  perform Event.release = reset emit
  perform Event.renew = pure tt
