-- ===== src/Capture/Changes.antt =====
-- Runs of the capture crate that change the mode of the small X server, and a plan for a text.
use donkeywork_desktop.Base.{
  ℕ, ◌+◌, ◌≡◌, refl, Bool, true, false, List, [], ◌∷◌, ok, err, ◌==◌, ◌⊎◌,
}
use donkeywork_desktop.Base.Actions.{◌>>◌}
use donkeywork_desktop.Capture.Types.{
  ErrorKind, applied, rejected, os_failed, rollback_failed, ResizeOutcome,
}
use donkeywork_desktop.Capture.Transaction.{
  ModeTransaction, transact, try_apply, try_restore, roll_back, unwrap_or_false,
}
use donkeywork_desktop.Capture.Resized.{transact_cases}
use donkeywork_desktop.Capture.Keyboard.{
  text_plan, plan_chars, plan_char, keysym_of, find_key, pairs_of,
}
use donkeywork_desktop.Capture.Plans.{TypesAll, text_plan-TypesAll}

-- A transaction on a number: the change fails half-way, the restoration succeeds.
abbrev failing : ModeTransaction ℕ
failing = record {
  apply = λ n. (n + 1, err ErrorKind.os_failed);
  confirm_applied = λ n. (n, ok true);
  restore = λ n. (0, ok tt);
  confirm_restored = λ n. (n, ok (n == 0));
  actual_topology = λ n. (n, ok (record { revision = n; displays = [] }));
}

abbrev failed : ResizeOutcome
failed = record { status = rejected os_failed; topology = record { revision = 0; displays = [] } }

fails : (transact failing 0).1 ≡ ok failed
unfolding transact try_apply try_restore roll_back
fails = refl

abbrev tried : ℕ → ℕ
tried n = ((failing.apply >> failing.confirm_applied) n).0

abbrev restored : ℕ → ℕ
restored n = ((failing.restore >> failing.confirm_restored) (tried n)).0

transact_cases_example :
    ((failed.status ≡ applied)
      × (((failing.apply >> failing.confirm_applied) 0).1 ≡ ok true)
      × ((failing.actual_topology (tried 0)).1 ≡ ok failed.topology))
    ⊎ ((failed.status ≡ rejected os_failed)
        × (unwrap_or_false ((failing.apply >> failing.confirm_applied) 0).1 ≡ false)
        × (((failing.restore >> failing.confirm_restored) (tried 0)).1 ≡ ok true)
        × ((failing.actual_topology (restored 0)).1 ≡ ok failed.topology))
    ⊎ ((failed.status ≡ rejected rollback_failed)
        × (unwrap_or_false ((failing.apply >> failing.confirm_applied) 0).1 ≡ false)
        × (unwrap_or_false ((failing.restore >> failing.confirm_restored) (tried 0)).1 ≡ false)
        × ((failing.actual_topology (restored 0)).1 ≡ ok failed.topology))
transact_cases_example = transact_cases failing 0 failed fails

abbrev symbols : List ℕ
symbols = b'a' ∷ b'A' ∷ b'1' ∷ b'!' ∷ []

abbrev plan : List (ℕ × Bool)
plan = (40, false) ∷ (40, true) ∷ (41, true) ∷ []

planned : text_plan (b'a' ∷ b'A' ∷ b'!' ∷ []) 40 symbols ≡ ok plan
unfolding text_plan plan_chars plan_char keysym_of find_key pairs_of
planned = refl

text_plan-TypesAll_example : TypesAll 40 symbols (b'a' ∷ b'A' ∷ b'!' ∷ []) plan
text_plan-TypesAll_example = text_plan-TypesAll (b'a' ∷ b'A' ∷ b'!' ∷ []) 40 symbols plan planned

-- A character without a key, such as that of code 128273, leaves no plan at all.
unplanned : text_plan (b'a' ∷ 128273 ∷ []) 40 symbols ≡ err ErrorKind.unsupported
unfolding text_plan plan_chars plan_char keysym_of find_key pairs_of
unplanned = refl
