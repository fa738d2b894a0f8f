-- ===== src/Client/Typing.antt =====
-- Runs of the client's key command (cli/src/main.rs), on the messages of Examples.
use donkeywork_desktop.Base.{ℕ, ◌≡◌, refl, true, false, none, some, List, [], ◌∷◌, Result, ok}
use donkeywork_desktop.Base.Contracts.{Post}
use donkeywork_desktop.Wire.Messages.{Failure, Reply}
use donkeywork_desktop.Client.Calls.{Client}
use donkeywork_desktop.Base.Sets.{contains}
use donkeywork_desktop.Client.Chord.{Modifier, collect, chord}
use donkeywork_desktop.Client.Commands.{Snapshot, Payloads, Console, now, press_chord}
use donkeywork_desktop.Client.Chords.{type_keys, type_keys-chord}
use donkeywork_desktop.Client.Presses.{Pressed, IsClosed, press_chord-Pressed}
use donkeywork_desktop.Client.Examples.{Wires, wires, triples, one_pixel, a_context}
use Prim.Native.String.{String}

abbrev empty_payloads : Payloads (List ℕ) String
empty_payloads = record {
  click_at = λ s lease n x y b. "";
  key_event = λ s lease n e. "";
  text_input = λ s lease n bytes. "";
  resize_to = λ s lease w h. "";
  reset_input = λ lease n. "";
  display_id = λ m. 0;
  topology_revision = λ m. 0;
  width = λ m. 0;
  height = λ m. 0;
  is_applied = λ m. true;
  is_rejected = λ m. false;
  has_no_reason = λ m. true;
  control_released = [];
}

abbrev a_console : Console (List ℕ) Wires
a_console = record {
  clock = λ w. (w, 0);
  print = λ m w. (w, ok tt);
  stdin = λ w. (w, ok []);
  is_utf8 = λ bytes. true;
}

abbrev a_snapshot : Snapshot
a_snapshot = record {
  snapshot_id = 1;
  display_id = 1;
  topology_revision = 1;
  width = 9;
  height = 9;
}

-- Four acknowledgements, for a key with one modifier.
abbrev a_typist : Client Wires
a_typist = record {
  stream = record {
    incoming =
        0 ∷ 0 ∷ 0 ∷ 3 ∷ 2 ∷ 60 ∷ 0 ∷ 0 ∷ 0 ∷ 0 ∷ 3 ∷ 2 ∷ 61 ∷ 1 ∷ 0 ∷ 0 ∷ 0 ∷ 3 ∷ 2 ∷ 62 ∷ 2 ∷ 0 ∷ 0
        ∷ 0 ∷ 3 ∷ 2 ∷ 63 ∷ 3 ∷ [];
    outgoing = [];
    next = 0;
    shut = false;
  };
  healthy = true;
}

abbrev typed : Client Wires × Result Failure (Reply (List ℕ))
typed =
    press_chord triples wires one_pixel empty_payloads a_console a_context a_snapshot (224 ∷ []) 4
      "lease" a_typist

press_chord-Pressed_example :
    Post
      (λ r u.
        Pressed triples wires one_pixel empty_payloads a_console a_context a_snapshot "lease" 0
          (a_console.clock a_typist.stream).1
          (chord (224 ∷ []) 4)
          none
          (now triples wires one_pixel empty_payloads a_console a_context a_typist).0
          u
          r)
      (IsClosed triples wires one_pixel empty_payloads a_console a_context)
      typed
press_chord-Pressed_example =
    press_chord-Pressed triples wires one_pixel empty_payloads a_console a_context a_snapshot
      (224 ∷ []) 4 "lease" a_typist

two_modifiers : collect 4 (Modifier.ctrl ∷ Modifier.shift ∷ []) [] ≡ ok (224 ∷ 225 ∷ [])
unfolding collect contains
two_modifiers = refl

type_keys-chord_example : type_keys (chord (224 ∷ 225 ∷ []) 4) [] ≡ some []
type_keys-chord_example =
    type_keys-chord 4 (Modifier.ctrl ∷ Modifier.shift ∷ []) (224 ∷ 225 ∷ []) two_modifiers
