-- ===== src/Input/Reader.antt =====
-- `FrameReader` of the input daemon (device/console/src/bin/input-daemon.rs): the bytes of a frame
-- that have arrived so far, and what a poll does with the bytes of one more read.
use donkeywork_desktop.Base.{
  ℕ, ◌+◌, ◌-◌, not, ◌||◌, Option, none, some, List, [], Result, ok, err, ltb, ◌==◌, if◌then◌else◌,
  length, drop,
}
use donkeywork_desktop.Console.Records.{from_be_bytes}
use donkeywork_desktop.Console.Owner.{Refusal}
use donkeywork_desktop.Input.Requests.{max_input}

pub record FrameReader : Type 0 where
  pub bytes : List ℕ
  pub total : Option ℕ
  pub deadline : Option ℕ

abbrev pub fresh : FrameReader
fresh = record { bytes = []; total = none; deadline = none }

-- How many bytes the next read may bring: up to the length, or up to the end of the frame.
abbrev pub target : Option ℕ → ℕ
target none = 4
target (some total) = total

abbrev pub wanted : FrameReader → ℕ
wanted r = target r.total - length r.bytes

-- The length, once its four bytes are there.
unfoldable pub learn_total : FrameReader → Result Refusal FrameReader
learn_total r = elim r.total [
  | some total ↦ ok r
  | none ↦
      if not (length r.bytes == 4)
      then ok r
      else if from_be_bytes r.bytes == 0 || ltb max_input (from_be_bytes r.bytes)
      then err Refusal.invalid
      else ok (record r { total = some (from_be_bytes r.bytes + 4) })
]

-- A frame is given away once it is complete, and the reader starts afresh.
unfoldable pub take_frame : FrameReader → FrameReader × Option (List ℕ)
take_frame r = elim r.total [
  | none ↦ (r, none)
  | some total ↦ if total == length r.bytes then (fresh, some (drop 4 r.bytes)) else (r, none)
]

abbrev pub as_ok : FrameReader × Option (List ℕ) → FrameReader × Result Refusal (Option (List ℕ))
as_ok (r, frame) = (r, ok frame)

abbrev pub finish_known :
    FrameReader → Result Refusal FrameReader → FrameReader × Result Refusal (Option (List ℕ))
finish_known r (err e) = (r, err e)
finish_known r (ok known) = as_ok (take_frame known)

-- The end of `poll`, with the bytes of the read appended: from the test of the length on.
unfoldable pub finish_read : FrameReader → FrameReader × Result Refusal (Option (List ℕ))
finish_read r = finish_known r (learn_total r)
