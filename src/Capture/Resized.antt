-- ===== src/Capture/Resized.antt =====
-- What the outcome of a resize tells (device/capture/src/resize.rs).
use donkeywork_desktop.Base.{◌≡◌, ap, Bool, true, false, ok, err, ◌⊎◌, inl, inr, arith, Bool-cases}
use donkeywork_desktop.Base.Actions.{◌>>◌}
use donkeywork_desktop.Capture.Types.{
  ResizeStatus, applied, rejected, os_failed, rollback_failed, ResizeOutcome, Fallible,
}
use donkeywork_desktop.Capture.Transaction.{
  ModeTransaction, unwrap_or_false, try_apply, try_restore, with_status, roll_back, transact,
}

unwrap_or_false-eq_true : (r : Fallible Bool) → unwrap_or_false r ≡ true → r ≡ ok true
unwrap_or_false-eq_true (ok b) h = ap ok h
unwrap_or_false-eq_true (err e) h = cc

module _ {T : Type 0} (M : ModeTransaction T) where
  -- The state after the attempt to apply, and after the attempt to restore that may follow.
  abbrev after_apply : T → T
  after_apply t = ((M.apply >> M.confirm_applied) t).0

  abbrev after_restore : T → T
  after_restore t = ((M.restore >> M.confirm_restored) (after_apply t)).0

  with_status_lem :
      (status : ResizeStatus) (u : T) (o : ResizeOutcome)
      → (with_status M status u).1 ≡ ok o
      → (o.status ≡ status) × ((M.actual_topology u).1 ≡ ok o.topology)
  with_status_lem status u o h = ground arith

  -- The three ends of a transaction: it is reported as applied exactly if it was applied and that
  -- was confirmed; otherwise the old mode was restored, and the failure of that is reported unless
  -- the restoration was confirmed. The topology is read last.
  pub transact_cases :
      (t : T) (o : ResizeOutcome)
      → (transact M t).1 ≡ ok o
      → ((o.status ≡ applied)
          × (((M.apply >> M.confirm_applied) t).1 ≡ ok true)
          × ((M.actual_topology (after_apply t)).1 ≡ ok o.topology))
        ⊎ ((o.status ≡ rejected os_failed)
            × (unwrap_or_false ((M.apply >> M.confirm_applied) t).1 ≡ false)
            × (((M.restore >> M.confirm_restored) (after_apply t)).1 ≡ ok true)
            × ((M.actual_topology (after_restore t)).1 ≡ ok o.topology))
        ⊎ ((o.status ≡ rejected rollback_failed)
            × (unwrap_or_false ((M.apply >> M.confirm_applied) t).1 ≡ false)
            × (unwrap_or_false ((M.restore >> M.confirm_restored) (after_apply t)).1 ≡ false)
            × ((M.actual_topology (after_restore t)).1 ≡ ok o.topology))
  unfolding transact try_apply try_restore roll_back
  transact_cases t o h = elim (Bool-cases (try_apply M t).1) [
    | inl yes' ↦
        let end = with_status_lem applied (after_apply t) o (rw yes' at h) in
        inl (end.0, unwrap_or_false-eq_true _ yes', end.1)
    | inr no' ↦ elim (Bool-cases (try_restore M (try_apply M t).0).1) [
      | inl back ↦
          let end =
            with_status_lem (rejected os_failed) (after_restore t) o (rw (no', back) at h) in
          inr (inl (end.0, no', unwrap_or_false-eq_true _ back, end.1))
      | inr stuck ↦
          let end =
            with_status_lem (rejected rollback_failed) (after_restore t) o (rw (no', stuck) at h) in
          inr (inr (end.0, no', stuck, end.1))
    ]
  ]
