-- ===== src/Terminal/Sequences.antt =====
-- Client input through `Pty::write` and `Pty::resize`: in order, at most once, and as written.
use mathlib.Core.List.{append_assoc}
use donkeywork_desktop.Base.{
  ℕ, zero, suc, ◌+◌, ◌≤◌, ◌<◌, ◌≡◌, ◌≢◌, refl, ap, ◌∙◌, Bool, true, false, not, ◌||◌, Option, none,
  some, List, [], ◌∷◌, ◌++◌, ok, err, arith, ltb, ◌==◌, length, take, drop, is_some, Bool-cases,
  inl, inr, ◌⊎◌, length-drop,
}
use donkeywork_desktop.Terminal.State.{
  State, Error, Fallible, closed, invalid_sequence, invalid_input, not_attached, chunk_limit,
  max_sequence,
}
use donkeywork_desktop.Terminal.Api.{
  Size, WriteOutcome, wrote, interrupted, would_block, failed, Written, write_loop, write, send,
  resize, check_attached,
}

take-append-drop {ℓ} : {A : Type ℓ} (n : ℕ) (xs : List A) → take n xs ++ drop n xs ≡ xs
take-append-drop zero xs = refl
take-append-drop (suc n) [] = refl
take-append-drop (suc n) (x ∷ xs) = ap (◌∷◌ x) (take-append-drop n xs)

-- Nothing is invented, reordered or repeated: what is delivered begins the bytes given, and a loop
-- that reports success has delivered them all.
pub record IsHonest (bytes : List ℕ) (w : Written) : Type 0 where
  pub left : List ℕ
  pub prefix : w.delivered ++ left ≡ bytes
  pub whole : w.result ≡ some (ok tt) → left ≡ []

nothing_sent :
    (bytes : List ℕ) (r : Option (Fallible (Unit {0})))
    → r ≢ some (ok tt)
    → IsHonest bytes (record { delivered = []; result = r })
nothing_sent bytes r h = record { left = bytes; prefix = refl; whole = λ e. absurd (h e) }

write_loop-IsHonest :
    (master : Bool) (deadline : ℕ) (bytes : List ℕ) (answers : List WriteOutcome)
    → IsHonest bytes (write_loop master deadline bytes answers)
unfolding write_loop
write_loop-IsHonest master deadline [] answers = record {
  left = [];
  prefix = refl;
  whole = λ e. refl;
}
write_loop-IsHonest false deadline (b ∷ bs) [] = nothing_sent (b ∷ bs) none (λ e. cc)
write_loop-IsHonest true deadline (b ∷ bs) [] = nothing_sent (b ∷ bs) none (λ e. cc)
write_loop-IsHonest false deadline (b ∷ bs) (wrote n ∷ answers) = nothing_sent (b ∷ bs) _ (λ e. cc)
write_loop-IsHonest false deadline (b ∷ bs) (interrupted ∷ answers) =
    nothing_sent (b ∷ bs) _ (λ e. cc)
write_loop-IsHonest false deadline (b ∷ bs) (would_block now ∷ answers) =
    nothing_sent (b ∷ bs) _ (λ e. cc)
write_loop-IsHonest false deadline (b ∷ bs) (failed ∷ answers) = nothing_sent (b ∷ bs) _ (λ e. cc)
write_loop-IsHonest true deadline (b ∷ bs) (failed ∷ answers) = nothing_sent (b ∷ bs) _ (λ e. cc)
write_loop-IsHonest true deadline (b ∷ bs) (interrupted ∷ answers) =
    write_loop-IsHonest true deadline (b ∷ bs) answers
write_loop-IsHonest true deadline (b ∷ bs) (would_block now ∷ answers) =
    elim (Bool-cases (ltb now deadline)) [
      | inl early ↦ rw early (write_loop-IsHonest true deadline (b ∷ bs) answers)
      | inr late ↦ rw late (nothing_sent (b ∷ bs) _ (λ e. cc))
    ]
write_loop-IsHonest true deadline (b ∷ bs) (wrote n ∷ answers) =
    let rest = write_loop-IsHonest true deadline (drop n (b ∷ bs)) answers in
    elim (Bool-cases (n == 0)) [
      | inl idle ↦ rw idle (nothing_sent (b ∷ bs) _ (λ e. cc))
      | inr moved ↦ rw moved (record {
        left = rest.left;
        prefix =
            append_assoc (take n (b ∷ bs)) _ rest.left
            ∙ ap (◌++◌ (take n (b ∷ bs))) rest.prefix
            ∙ take-append-drop n (b ∷ bs);
        whole = rest.whole;
      })
    ]

-- What a call of `write` may be: refused with the state as it was and nothing sent, or accepted,
-- and then the sequence is the next one and is used up, whatever becomes of the bytes.
pub record IsAccepted (s t : State) (sequence : ℕ) (bytes : List ℕ) : Type 0 where
  pub next : sequence ≡ s.last_input + 1
  pub in_range : sequence ≤ max_sequence
  pub some_bytes : 0 < length bytes
  pub one_chunk : length bytes ≤ chunk_limit
  pub attached : s.attached ≡ true
  pub running : (s.stop ≡ false) × (s.exit ≡ none)
  pub used : t ≡ record s { last_input = sequence }

abbrev pub IsRefused : State → State → Written → Type 0
IsRefused s t w = (t ≡ s) × (w.delivered ≡ []) × ((e : Error) × (w.result ≡ some (err e)))

abbrev pub IsOutcome : State → ℕ → List ℕ → State × Written → Type 0
IsOutcome s sequence bytes (t, w) =
    (IsRefused s t w ⊎ IsAccepted s t sequence bytes) × IsHonest bytes w

refused-IsOutcome :
    (s : State) (sequence : ℕ) (bytes : List ℕ) (e : Error)
    → IsOutcome s sequence bytes (s, record { delivered = []; result = some (err e) })
refused-IsOutcome s sequence bytes e =
    (inl (refl, refl, (e, refl)), nothing_sent bytes (some (err e)) (λ h. cc))

check_attached_cases :
    (s : State)
    → ((check_attached s ≡ ok tt) × (s.attached ≡ true) × (s.stop ≡ false) × (s.exit ≡ none))
      ⊎ ((e : Error) × (check_attached s ≡ err e))
unfolding check_attached
check_attached_cases s = elim (Bool-cases (s.stop || is_some s.exit)) [
  | inl over ↦ inr (closed, rw over)
  | inr on ↦ elim (Bool-cases s.attached) [
    | inl here ↦ inl (ground arith, here, ground arith, ground arith)
    | inr away ↦ inr (not_attached, rw (on, away))
  ]
]

send-IsOutcome :
    (s : State) (now sequence : ℕ) (bytes : List ℕ) (answers : List WriteOutcome)
    → 0 < length bytes
    → length bytes ≤ chunk_limit
    → s.attached ≡ true
    → s.stop ≡ false
    → s.exit ≡ none
    → IsOutcome s sequence bytes (send s now sequence bytes answers)
send-IsOutcome s now sequence bytes answers some_bytes one_chunk here on live =
    elim (Bool-cases (not (sequence == s.last_input + 1) || ltb max_sequence sequence)) [
      | inl bad ↦ rw bad (refused-IsOutcome s sequence bytes invalid_sequence)
      | inr good ↦ rw good (
        inr (record {
          next = ground arith;
          in_range = ground arith;
          some_bytes = some_bytes;
          one_chunk = one_chunk;
          attached = here;
          running = (on, live);
          used = refl;
        }),
        write_loop-IsHonest s.master (now + 100) bytes answers,
      )
    ]

-- Every `write` is refused without a trace, or uses up exactly the next sequence number while the
-- terminal is attached and running; the bytes sent are a prefix of those given, and all of them
-- where the result is success.
pub write-IsOutcome :
    (s : State) (now sequence : ℕ) (bytes : List ℕ) (answers : List WriteOutcome)
    → IsOutcome s sequence bytes (write s now sequence bytes answers)
unfolding write
write-IsOutcome s now sequence bytes answers =
    elim (Bool-cases (length bytes == 0 || ltb chunk_limit (length bytes))) [
      | inl bad ↦ rw bad (refused-IsOutcome s sequence bytes invalid_input)
      | inr good ↦ elim (check_attached_cases s) [
        | inl (yes_, here, on, live) ↦
            rw (good, yes_)
              (send-IsOutcome s now sequence bytes answers (ground arith) (ground arith) here on
                live)
        | inr (e, off) ↦ rw (good, off) (refused-IsOutcome s sequence bytes e)
      ]
    ]

-- The bytes that a list of answers can take.
unfoldable pub accepted : List WriteOutcome → ℕ
accepted [] = 0
accepted (wrote n ∷ answers) = n + accepted answers
accepted (_ ∷ answers) = accepted answers

-- The loop of `write` ends once the system has taken as many bytes as were given, whatever
-- interruptions and full buffers lie between.
pub write_loop-ends :
    (master : Bool) (deadline : ℕ) (bytes : List ℕ) (answers : List WriteOutcome)
    → length bytes ≤ accepted answers
    → (write_loop master deadline bytes answers).result ≢ none
unfolding write_loop accepted
write_loop-ends master deadline [] answers h = λ e. cc
write_loop-ends master deadline (b ∷ bs) [] h = absurd (omega arith)
write_loop-ends master deadline (b ∷ bs) (wrote n ∷ answers) h =
    let ih =
      write_loop-ends master deadline (drop n (b ∷ bs)) answers
        (omega (arith, length-drop n (b ∷ bs))) in
    ground (arith, ih)
write_loop-ends master deadline (b ∷ bs) (interrupted ∷ answers) h =
    ground (arith, write_loop-ends master deadline (b ∷ bs) answers h)
write_loop-ends master deadline (b ∷ bs) (would_block now ∷ answers) h =
    ground (arith, write_loop-ends master deadline (b ∷ bs) answers h)
write_loop-ends master deadline (b ∷ bs) (failed ∷ answers) h = ground arith

-- A resize that succeeds has a size of 1 to 500 rows and 1 to 1000 columns, and a sequence beyond
-- the last one; no resize sequence can be used twice, since any that is not refused is recorded.
pub resize_outcome :
    (s : State) (sequence : ℕ) (size : Size) (ioctl : Bool)
    → let (t, r) = resize s sequence size ioctl in
      (r ≡ ok tt
        → (0 < size.rows)
          × (size.rows ≤ 500)
          × (0 < size.cols)
          × (size.cols ≤ 1000)
          × (s.last_resize < sequence)
          × (s.attached ≡ true)
          × (s.exit ≡ none)
          × (s.master ≡ true))
      × ((t ≡ s) ⊎ ((s.last_resize < sequence) × (t ≡ record s { last_resize = sequence })))
unfolding resize
resize_outcome s sequence size ioctl = (λ h. ground arith, ground arith)
