-- ===== src/Terminal/Delivery.antt =====
-- What a client of `Pty::read` and `Pty::resume` gets: no output is lost without a gap notice.
use donkeywork_desktop.Base.{ℕ, ◌+◌, ◌-◌, ◌<◌, ◌≡◌, none, some, ◌⊎◌}
use donkeywork_desktop.Terminal.State.{State, Batch, Gap, Exit}
use donkeywork_desktop.Terminal.Runs.{sequences, count_from}

-- A batch that leaves nothing out: no gap is reported, its output is numbered `after + 1`,
-- `after + 2` and so on up to the latest sequence, and an exit record in it is final: no output
-- follows the sequence that it names.
pub record IsComplete (after : ℕ) (b : Batch) : Type 0 where
  pub no_gap : b.gap ≡ none
  pub all : sequences b.output ≡ count_from (after + 1) (b.latest_output_sequence - after)
  pub last : (e : Exit) → b.exit ≡ some e → e.final_output_sequence ≡ b.latest_output_sequence

-- A batch behind the retained history: the gap names the first sequence still held, which is past
-- `after + 1`, and the output is every sequence from there up to the latest.
pub record IsCut (after : ℕ) (b : Batch) (g : Gap) : Type 0 where
  pub reported : b.gap ≡ some g
  pub beyond : after + 1 < g.earliest_available_sequence
  pub latest_same : g.latest_sequence ≡ b.latest_output_sequence
  pub held :
      sequences b.output
      ≡ count_from g.earliest_available_sequence
          (b.latest_output_sequence + 1 - g.earliest_available_sequence)

abbrev pub Accounts : ℕ → Batch → Type 0
Accounts after b = IsComplete after b ⊎ ((g : Gap) × IsCut after b g)
