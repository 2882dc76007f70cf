-- ===== src/Autopilot/Recovery.antt =====
-- How long recovery lasts: crates/plugins/autopilot/src/pd.rs.
use signalk_rs.Prelude.{
  ℕ, ◌+◌, ◌-◌, ◌≤◌, ◌<◌, ◌≡◌, refl, Bool, true, false, ◌&&◌, List, [], ◌∷◌, length, if◌then◌else◌,
  arith,
}
use signalk_rs.Types.Json.{F64}
use signalk_rs.Types.Float.{FloatOps}
use signalk_rs.Autopilot.{RecoveryState, new_recovery, expire, activate, update_recovery}

module _ (F : FloatOps) (threshold_rad : F64) (max_ticks : ℕ) where
  -- The state after some updates, one for each error.
  unfoldable pub run : RecoveryState → List F64 → RecoveryState
  run r [] = r
  run r (e ∷ es) = run (update_recovery F r e threshold_rad max_ticks).0 es

  -- Every one of the updates answers that recovery is active.
  unfoldable pub all_active : RecoveryState → List F64 → Bool
  all_active r [] = true
  all_active r (e ∷ es) =
      let rest = all_active (update_recovery F r e threshold_rad max_ticks).0 es in
      (update_recovery F r e threshold_rad max_ticks).1 && rest

  -- How many active answers may follow.
  abbrev left : RecoveryState → ℕ
  left r = if r.active then r.ticks_remaining else max_ticks

  update-left :
      (r : RecoveryState) (e : F64)
      → 0 < max_ticks
      → left r ≤ max_ticks
      → left (update_recovery F r e threshold_rad max_ticks).0 ≤ max_ticks
  unfolding update_recovery expire activate
  update-left r e some_ticks h = ground (arith, some_ticks, h)

  update-active :
      (r : RecoveryState) (e : F64)
      → (update_recovery F r e threshold_rad max_ticks).1 ≡ true
      → (left (update_recovery F r e threshold_rad max_ticks).0 + 1 ≡ left r)
        × (0 < left (update_recovery F r e threshold_rad max_ticks).0)
  unfolding update_recovery expire activate
  update-active r e on = ground (arith, on)

  run-left :
      (r : RecoveryState) (es : List F64)
      → 0 < max_ticks
      → left r ≤ max_ticks
      → left (run r es) ≤ max_ticks
  unfolding run
  run-left r [] some_ticks h = h
  run-left r (e ∷ es) some_ticks h =
      run-left (update_recovery F r e threshold_rad max_ticks).0 es some_ticks
        (update-left r e some_ticks h)

  both_true : (a b : Bool) → (a && b) ≡ true → (a ≡ true) × (b ≡ true)
  both_true true b e = (refl, e)
  both_true false b e = absurd (cc)

  all_active-left :
      (r : RecoveryState) (es : List F64) → all_active r es ≡ true → length es ≤ left r - 1
  unfolding all_active
  all_active-left r [] on = omega arith
  all_active-left r (e ∷ es) on =
      let r' = (update_recovery F r e threshold_rad max_ticks).0 in
      let (now, later) : ((update_recovery F r e threshold_rad max_ticks).1 ≡ true)
          × (all_active r' es ≡ true) =
        both_true (update_recovery F r e threshold_rad max_ticks).1 (all_active r' es) on in
      let (one_less, some_left) : (left r' + 1 ≡ left r) × (0 < left r') = update-active r e now in
      omega (arith, all_active-left r' es later, one_less, some_left)

  -- Recovery comes to an end: with a positive number of ticks, and after any updates from a new
  -- state, fewer than that many updates in a row answer that recovery is active, whatever the errors.
  pub recovery_ends :
      (before es : List F64)
      → 0 < max_ticks
      → all_active (run new_recovery before) es ≡ true
      → length es < max_ticks
  unfolding new_recovery
  recovery_ends before es some_ticks on = omega (
    arith,
    some_ticks,
    run-left new_recovery before some_ticks (omega arith),
    all_active-left (run new_recovery before) es on,
  )
