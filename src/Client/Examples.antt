-- ===== src/Client/Examples.antt =====
-- Runs of the client (cli/src/lib.rs): a worker that grants control and takes it back, and a picture
-- of one pixel.
use Prim.Native.Nat.{Ordering}
use Prim.Native.String.{compare}
use donkeywork_desktop.Base.{
  ℕ, ◌+◌, ◌≡◌, refl, sym, inr, ◌⊎◌, Bool, true, false, none, some, List, [], ◌∷◌, ◌++◌, Result, ok,
  err, ltb, ◌==◌, if◌then◌else◌, length, take, drop, String,
}
use donkeywork_desktop.Base.Actions.{Act, pure}
use donkeywork_desktop.Console.Records.{to_vec, unexpected_eof, from_be_bytes}
use donkeywork_desktop.Wire.Messages.{Reply, Failure, write_reply, is_sized, is_whole}
use donkeywork_desktop.Wire.Exchange.{no_flush}
use donkeywork_desktop.Client.Png.{
  Decoder, signature, ihdr, idat, iend, validate_png, scan, check_chunk, is_misplaced, is_allowed,
  is_header, decode,
}
use donkeywork_desktop.Client.Endpoint.{Context}
use donkeywork_desktop.Client.Calls.{Messages, Socket, Client, call, controlled, read_record}
use donkeywork_desktop.Client.Answers.{Called, call-Called}
use donkeywork_desktop.Client.Leases.{IsReturned, controlled-IsReturned}
use donkeywork_desktop.Client.Pictures.{Judged, validate_png-Judged}
use donkeywork_desktop.Client.Received.{bytes_socket, write_reply-read_record}

abbrev pub same : String → String → Bool
same s t = elim (compare s t) [ Ordering.eq ↦ true | _ ↦ false ]

-- A message is three numbers: its type, its id, and the id that it answers.
abbrev pub kind : List ℕ → ℕ
kind [] = 9
kind (k ∷ rest) = k

abbrev pub first_id : List ℕ → ℕ
first_id m = kind (drop 1 m)

abbrev pub code : String → ℕ
code t =
    if same t "error"
    then 0
    else if same t "control.granted"
    then 1
    else if same t "ack"
    then 2
    else if same t "control.acquire"
    then 3
    else 4

abbrev pub triples : Messages (List ℕ) String
triples = record {
  json = record {
    conforms = λ m. true;
    validates = λ m. true;
    to_vec = λ m. some m;
    parse_json = λ m. some m;
    is_request = λ m. ltb 2 (kind m);
    is_screenshot = λ m. kind m == 7;
    payload_bytes = λ m. some (first_id m);
  };
  request = λ t payload context id. code t ∷ id ∷ 0 ∷ [];
  message_id = first_id;
  request_message_id = λ m. kind (drop 2 m);
  has_type = λ t m. kind m == code t;
  has_session = λ id m. true;
  has_epoch = λ id m. true;
  error_code = λ m. none;
  lease_id = λ m. some "lease";
  width = λ m. some 1;
  height = λ m. some 1;
  nothing = "";
  with_lease = λ lease. lease;
}

-- What comes in, what went out, the next id, and whether the stream is shut down.
pub record Wires : Type 0 where
  pub incoming : List ℕ
  pub outgoing : List ℕ
  pub next : ℕ
  pub shut : Bool

abbrev pub wires : Socket Wires
wires = record {
  write_all = λ bytes w. (record w { outgoing = w.outgoing ++ bytes }, ok tt);
  flush = λ w. (w, ok tt);
  read_exact = λ n w. (
    record w { incoming = drop n w.incoming },
    if ltb (length w.incoming) n then err unexpected_eof else ok (take n w.incoming),
  );
  shutdown = λ w. record w { shut = true };
  new_id = λ w. (record w { next = w.next + 1 }, w.next);
}

-- A decoder that finds one pixel.
abbrev pub one_pixel : Decoder
one_pixel = record {
  read_info = λ most bytes. some 4;
  next_frame = λ most bytes.
      some (record { width = 1; height = 1; buffer_size = 4; is_rgba = true; is_eight = true });
  finish = λ most bytes. true;
}

abbrev pub a_context : Context
a_context = record { socket = 1; server_uid = 2; session_id = 3; session_epoch = 4 }

-- The worker grants control, and acknowledges its release.
abbrev a_client : Client Wires
a_client = record {
  stream = record {
    incoming = 0 ∷ 0 ∷ 0 ∷ 3 ∷ 1 ∷ 50 ∷ 0 ∷ 0 ∷ 0 ∷ 0 ∷ 3 ∷ 2 ∷ 51 ∷ 1 ∷ [];
    outgoing = [];
    next = 0;
    shut = false;
  };
  healthy = true;
}

abbrev do_nothing : String → Act (Client Wires) Failure (Unit {0})
do_nothing lease = pure tt

abbrev after_all : Client Wires × Result Failure (Unit {0})
after_all = controlled triples wires one_pixel a_context do_nothing a_client

call-Called_example :
    Called triples wires one_pixel "control.acquire" ""
      (some a_context)
      "control.granted"
      a_client
      (call triples wires one_pixel "control.acquire" ""
        (some a_context)
        "control.granted"
        a_client)
call-Called_example =
    call-Called triples wires one_pixel "control.acquire" "" (some a_context) "control.granted"
      a_client

controlled-IsReturned_example :
    (after_all.0.healthy ≡ false)
    ⊎ IsReturned triples wires one_pixel a_context do_nothing a_client after_all.0
controlled-IsReturned_example =
    controlled-IsReturned triples wires one_pixel a_context do_nothing a_client
      (λ h v k. ("lease", refl))

-- A picture of one pixel, with the check sums that nobody reads here.
abbrev a_picture : List ℕ
a_picture =
    signature
    ++ ((0 ∷ 0 ∷ 0 ∷ 13 ∷ [])
        ++ ihdr
        ++ (0 ∷ 0 ∷ 0 ∷ 1 ∷ 0 ∷ 0 ∷ 0 ∷ 1 ∷ 8 ∷ 6 ∷ 0 ∷ 0 ∷ 0 ∷ [])
        ++ (1 ∷ 2 ∷ 3 ∷ 4 ∷ []))
    ++ ((0 ∷ 0 ∷ 0 ∷ 2 ∷ []) ++ idat ++ (5 ∷ 6 ∷ []) ++ (1 ∷ 2 ∷ 3 ∷ 4 ∷ []))
    ++ ((0 ∷ 0 ∷ 0 ∷ 0 ∷ []) ++ iend ++ (1 ∷ 2 ∷ 3 ∷ 4 ∷ []))

abbrev judged_picture : Result Failure (Unit {0})
judged_picture = validate_png one_pixel a_picture (some 1) (some 1)

validate_png-Judged_example :
    Judged one_pixel a_picture
      (some 1)
      (some 1)
      (validate_png one_pixel a_picture (some 1) (some 1))
validate_png-Judged_example = validate_png-Judged one_pixel a_picture (some 1) (some 1)

abbrev a_shot : Reply (List ℕ)
a_shot = record { header = 7 ∷ 59 ∷ 0 ∷ []; binary = a_picture }

is_accepted : validate_png one_pixel a_picture (some 1) (some 1) ≡ ok tt
unfolding validate_png scan check_chunk is_misplaced is_allowed is_header decode from_be_bytes
is_accepted = refl

is_written : (write_reply triples.json to_vec no_flush a_shot (8 ∷ [])).1 ≡ ok tt
unfolding write_reply is_sized is_whole
is_written = refl

write_reply-read_record_example :
    (sent : List ℕ) × ((write_reply triples.json to_vec no_flush a_shot (8 ∷ [])).0 ≡ 8 ∷ sent)
    × (read_record triples bytes_socket one_pixel (sent ++ (9 ∷ [])) ≡ (9 ∷ [], ok a_shot))
write_reply-read_record_example =
    write_reply-read_record triples one_pixel a_shot (8 ∷ []) (9 ∷ []) (λ bytes e. sym e) refl
      (inr is_accepted) is_written
