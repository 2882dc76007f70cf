-- ===== src/Autopilot/Angles.antt =====
-- `normalize_angle` of crates/plugins/autopilot/src/pd.rs on numbers that are too large to turn.
use signalk_rs.Prelude.{ℕ, zero, suc, ◌≡◌, refl, ap, ◌∙◌, true, none}
use signalk_rs.Types.Json.{F64}
use signalk_rs.Types.Float.{FloatOps, two, pi}
use signalk_rs.Autopilot.{turn_down, normalize_angle}

module _ (F : FloatOps) where
  turn_down-stuck :
      (n : ℕ) (x : F64) → F.lt pi x ≡ true → F.sub x (F.mul two pi) ≡ x → turn_down F n x ≡ none
  unfolding turn_down
  turn_down-stuck zero x above same = refl
  turn_down-stuck (suc n) x above same =
      rw above (ap (turn_down F n) same ∙ turn_down-stuck n x above same)

  -- Above π, a number so large that the subtraction of 2π leaves it as it is (infinity, or from about
  -- 10¹⁷ on) is never normalized: the loop runs on for ever.
  pub normalize_angle-stuck :
      (n : ℕ) (x : F64)
      → F.lt pi x ≡ true
      → F.sub x (F.mul two pi) ≡ x
      → normalize_angle F n x ≡ none
  unfolding normalize_angle
  normalize_angle-stuck n x above same = rw (turn_down-stuck n x above same) refl
