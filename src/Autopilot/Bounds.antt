-- ===== src/Autopilot/Bounds.antt =====
-- The limits of the rudder: crates/plugins/autopilot/src/pd.rs.
use signalk_rs.Prelude.{◌≡◌, Bool, true, false, not, inl, inr, Bool-cases, if◌then◌else◌}
use signalk_rs.Types.Json.{F64}
use signalk_rs.Types.Float.{FloatOps}
use signalk_rs.Types.Float as L
use signalk_rs.Autopilot.{PidConfig, PidController, output, is_usable, compute}

true-not-false : (b : Bool) → b ≡ true → b ≡ false → ⊥
true-not-false true e f = cc
true-not-false false e f = cc

module _ (F : FloatOps) where
  -- Between two bounds.
  abbrev pub Within : F64 → F64 → F64 → Type 0
  Within lo hi x = (F.le lo x ≡ true) × (F.le x hi ≡ true)

  either-Within :
      (b : Bool) (lo hi : F64) (r r' : PidController × F64)
      → (F.ne r.1 r.1 ≡ false → Within lo hi r.1)
      → (F.ne r'.1 r'.1 ≡ false → Within lo hi r'.1)
      → F.ne (if b then r else r').1 (if b then r else r').1 ≡ false
      → Within lo hi (if b then r else r').1
  either-Within true lo hi r r' h h' n = h n
  either-Within false lo hi r r' h h' n = h' n

  -- Where `clamp` works as the standard library says (a number is brought between the bounds, and
  -- what is not a number stays so): the rudder command, whatever the error, the gains and the
  -- integral, lies between the limits, if it is a number at all. The limits are such that -max is
  -- at most 0, and 0 at most max.
  pub compute-Within :
      (c : PidController) (error_rad d_error_rad dt : F64) (cfg : PidConfig)
      → ((x lo hi : F64) → F.le lo hi ≡ true → F.ne x x ≡ false → Within lo hi (F.clamp x lo hi))
      → ((x lo hi : F64) → F.ne x x ≡ true → F.ne (F.clamp x lo hi) (F.clamp x lo hi) ≡ true)
      → F.le (F.neg cfg.max_rudder_rad) cfg.max_rudder_rad ≡ true
      → Within (F.neg cfg.max_rudder_rad) cfg.max_rudder_rad L.zero
      → F.ne
          (compute F c error_rad d_error_rad dt cfg).1
          (compute F c error_rad d_error_rad dt cfg).1
        ≡ false
      → Within
          (F.neg cfg.max_rudder_rad)
          cfg.max_rudder_rad
          (compute F c error_rad d_error_rad dt cfg).1
  unfolding compute output
  compute-Within c error_rad d_error_rad dt cfg clamped kept order around =
      let lo = F.neg cfg.max_rudder_rad in
      let hi = cfg.max_rudder_rad in
      either-Within (not (is_usable F error_rad d_error_rad dt)) lo hi _ _ (λ n. around)
        (either-Within (F.lt (F.abs error_rad) cfg.dead_zone_rad) lo hi _ _ (λ n. around)
          (λ n. elim (Bool-cases (F.ne _ _)) [
            | inl nan ↦ absurd (true-not-false _ (kept _ lo hi nan) n)
            | inr number ↦ clamped _ lo hi order number
          ]))
