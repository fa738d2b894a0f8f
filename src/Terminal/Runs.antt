-- ===== src/Terminal/Runs.antt =====
-- Histories whose sequence numbers run on without a hole up to the latest one, and what `trim` and
-- `batch` make of them.
use donkeywork_desktop.Base.{
  ℕ, zero, suc, ◌+◌, ◌-◌, ◌≤◌, max, ◌≡◌, List, [], ◌∷◌, ◌++◌, map, arith, ltb, length,
  length-append, inl, inr, Bool-cases,
}
use donkeywork_desktop.Terminal.State.{Entry, Output, replay_limit, replay_entry_limit}
use donkeywork_desktop.Terminal.History.{trim, first_sequence, newer}

abbrev pub RunsTo : ℕ → List Entry → Type 0
RunsTo n [] = Unit {0}
RunsTo n (e ∷ es) = (e.output.sequence + length es ≡ n) × RunsTo n es

abbrev pub bytes_of : List Entry → ℕ
bytes_of [] = 0
bytes_of (e ∷ es) = length e.output.bytes + bytes_of es

abbrev pub count_from : ℕ → ℕ → List ℕ
count_from k zero = []
count_from k (suc n) = k ∷ count_from (k + 1) n

pub first_sequence-RunsTo :
    (n : ℕ) (es : List Entry) → RunsTo n es → first_sequence es n + length es ≡ n + 1
first_sequence-RunsTo n [] r = omega arith
first_sequence-RunsTo n (e ∷ es) r = omega arith

pub RunsTo-append :
    (n : ℕ) (es : List Entry) (e : Entry)
    → RunsTo n es
    → e.output.sequence ≡ n + 1
    → RunsTo (n + 1) (es ++ e ∷ [])
RunsTo-append n [] e r h = (omega arith, tt)
RunsTo-append n (x ∷ es) e r h =
    (omega (arith, length-append es (e ∷ [])), RunsTo-append n es e r.1 h)

pub bytes_of-append :
    (es : List Entry) (e : Entry) → bytes_of (es ++ e ∷ []) ≡ bytes_of es + length e.output.bytes
bytes_of-append [] e = omega arith
bytes_of-append (x ∷ es) e = omega (arith, bytes_of-append es e)

-- What the loop of `expire_history` leaves: the count is still exact, the limits hold, the
-- sequences still run to the end and begin no earlier.
pub record IsTrimmed (n : ℕ) (old new : List Entry) (bytes : ℕ) : Type 0 where
  pub counted : bytes ≡ bytes_of new
  pub runs : RunsTo n new
  pub few : length new ≤ replay_entry_limit
  pub small : bytes ≤ replay_limit
  pub shorter : length new ≤ length old
  pub later : first_sequence old n ≤ first_sequence new n

pub trim-IsTrimmed :
    (now n : ℕ) (es : List Entry) (bytes : ℕ)
    → bytes ≡ bytes_of es
    → RunsTo n es
    → IsTrimmed n es (trim now es bytes).0 (trim now es bytes).1
unfolding trim
trim-IsTrimmed now n [] bytes c r = ground arith
trim-IsTrimmed now n (e ∷ es) bytes c r = ground (
  arith,
  trim-IsTrimmed now n es (bytes - length e.output.bytes) (omega arith) r.1,
  first_sequence-RunsTo n es r.1,
)

abbrev pub sequences : List Output → List ℕ
sequences = map (λ o. o.sequence)

count_from-eq_suc :
    (k l m : ℕ) (xs : List ℕ) → m ≡ suc l → xs ≡ count_from (k + 1) l → k ∷ xs ≡ count_from k m
count_from-eq_suc k l m xs h e = rw (h, e)

-- The batch after a sequence: every later one that is still held, in order.
pub newer_from :
    (n after k m : ℕ) (es : List Entry)
    → RunsTo n es
    → k ≡ max (after + 1) (first_sequence es n)
    → m ≡ n + 1 - k
    → sequences (newer after es) ≡ count_from k m
newer_from n after k m [] r hk hm = rw (let e : m ≡ 0 = omega arith in e)
newer_from n after k m (e ∷ es) r hk hm = elim (Bool-cases (ltb after e.output.sequence)) [
  | inl new ↦
      rw (new, let a : e.output.sequence ≡ k = ground arith in a)
        (count_from-eq_suc k (length es) m _ (ground arith) (
          newer_from n after (k + 1) (length es) es r.1
            (ground (arith, first_sequence-RunsTo n es r.1)) (ground arith)))
  | inr old ↦
      rw old (newer_from n after k m es r.1 (ground (arith, first_sequence-RunsTo n es r.1)) hm)
]
