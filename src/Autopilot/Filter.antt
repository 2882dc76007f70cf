-- ===== src/Autopilot/Filter.antt =====
-- The filters of crates/plugins/autopilot/src/filter.rs, over the operations of `f64`.
use signalk_rs.Prelude.{◌≡◌, refl, ◌&&◌, Option, none, some, List, [], ◌∷◌, if◌then◌else◌, ◌>>=◌}
use signalk_rs.Types.Json.{F64}
use signalk_rs.Types.Float.{FloatOps}
use signalk_rs.Types.Float as L
use signalk_rs.Autopilot.{one}

record LowPassFilter : Type 0 where
  pub value : Option F64
  pub alpha : F64

record CircularFilter : Type 0 where
  pub sin_filter : LowPassFilter
  pub cos_filter : LowPassFilter

record RateDetector : Type 0 where
  pub prev_value : Option F64
  pub output_filter : LowPassFilter

unfoldable reset_filter : LowPassFilter → LowPassFilter
reset_filter f = record f { value = none }

unfoldable reset_circular : CircularFilter → CircularFilter
unfolding reset_filter
reset_circular f = record {
  sin_filter = reset_filter f.sin_filter;
  cos_filter = reset_filter f.cos_filter;
}

unfoldable reset_detector : RateDetector → RateDetector
unfolding reset_filter
reset_detector d = record { prev_value = none; output_filter = reset_filter d.output_filter }

module _ (F : FloatOps) where
  -- `new` is none where it panics.
  unfoldable new_filter : F64 → Option LowPassFilter
  new_filter alpha =
      if F.lt L.zero alpha && F.le alpha one
      then some (record { value = none; alpha = alpha })
      else none

  unfoldable new_circular : F64 → Option CircularFilter
  unfolding new_filter
  new_circular alpha = do
    s ← new_filter alpha
    c ← new_filter alpha
    some (record { sin_filter = s; cos_filter = c })

  unfoldable new_detector : F64 → Option RateDetector
  unfolding new_filter
  new_detector alpha = do
    f ← new_filter alpha
    some (record { prev_value = none; output_filter = f })

  unfoldable smoothed : Option F64 → F64 → F64 → F64
  smoothed none alpha input = input
  smoothed (some prev) alpha input = F.add prev (F.mul alpha (F.sub input prev))

  unfoldable update_filter : LowPassFilter → F64 → LowPassFilter × F64
  unfolding smoothed
  update_filter f input =
      let out = smoothed f.value f.alpha input in (record f { value = some out }, out)

  unfoldable update_circular : CircularFilter → F64 → CircularFilter × F64
  unfolding update_filter
  update_circular f angle_rad =
      let (s', s) = update_filter f.sin_filter (F.sin angle_rad) in
      let (c', c) = update_filter f.cos_filter (F.cos angle_rad) in
      (record { sin_filter = s'; cos_filter = c' }, F.atan2 s c)

  unfoldable get_circular : CircularFilter → Option F64
  get_circular f = do s ← f.sin_filter.value; c ← f.cos_filter.value; some (F.atan2 s c)

  unfoldable rate_of : Option F64 → F64 → F64 → F64
  rate_of none value dt = L.zero
  rate_of (some prev) value dt = if F.lt L.zero dt then F.div (F.sub value prev) dt else L.zero

  unfoldable update_detector : RateDetector → F64 → F64 → RateDetector × F64
  unfolding update_filter rate_of
  update_detector d value dt =
      let (f, out) = update_filter d.output_filter (rate_of d.prev_value value dt) in
      (record { prev_value = some value; output_filter = f }, out)

  unfoldable run_circular : CircularFilter → List F64 → CircularFilter
  unfolding update_circular
  run_circular f [] = f
  run_circular f (x ∷ xs) = run_circular (update_circular f x).0 xs

  -- A filter that is reset after any angles is again what its reset was at first: nothing of them is
  -- left in it.
  reset-run_circular :
      (f : CircularFilter) (xs : List F64) → reset_circular (run_circular f xs) ≡ reset_circular f
  unfolding run_circular reset_circular
  reset-run_circular f [] = refl
  reset-run_circular f (x ∷ xs) = reset-run_circular (update_circular f x).0 xs

  -- After a sample, the current angle is the one that was answered.
  get-update_circular :
      (f : CircularFilter) (x : F64)
      → get_circular (update_circular f x).0 ≡ some (update_circular f x).1
  unfolding get_circular update_circular
  get-update_circular f x = refl
