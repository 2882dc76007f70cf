-- ===== src/Autopilot.antt =====
-- The autopilot plugin: the control algorithms of crates/plugins/autopilot/src/pd.rs, over the
-- operations of `f64`. A method on `&mut self` gives the new state and its answer.
pub mod Bounds
pub mod Recovery
pub mod Feedback
pub mod Angles
pub mod State
mod Filter
pub mod Provider
use signalk_rs.Prelude.{
  ℕ, zero, suc, ◌+◌, ◌-◌, ◌%◌, ◌^◌, Bool, true, false, not, ◌&&◌, ◌||◌, Option, none, some, leb,
  eqb, if◌then◌else◌, ◌>>=◌,
}
use signalk_rs.Types.Json.{F64}
use signalk_rs.Types.Float.{FloatOps, two, pi}
use signalk_rs.Types.Float as L

-- 0.3, 0.95, 1.0 and 3.0.
abbrev three_tenths : F64
three_tenths = 0x3FD3333333333333

abbrev decay : F64
decay = 0x3FEE666666666666

abbrev pub one : F64
one = 0x3FF0000000000000

abbrev three : F64
three = 0x4008000000000000

pub record PidConfig : Type 0 where
  pub gain_p : F64
  pub gain_i : F64
  pub gain_d : F64
  pub dead_zone_rad : F64
  pub max_rudder_rad : F64

pub record PidController : Type 0 where
  pub integral : F64
  pub integral_limit : F64

unfoldable pub new_controller : F64 → PidController
new_controller integral_limit = record { integral = L.zero; integral_limit = integral_limit }

unfoldable reset_controller : PidController → PidController
reset_controller c = record c { integral = L.zero }

pub record RecoveryState : Type 0 where
  pub active : Bool
  pub ticks_remaining : ℕ

unfoldable pub new_recovery : RecoveryState
new_recovery = record { active = false; ticks_remaining = 0 }

unfoldable reset_recovery : RecoveryState → RecoveryState
reset_recovery r = record { active = false; ticks_remaining = 0 }

pub record RudderFeedbackMonitor : Type 0 where
  pub mismatch_ticks : ℕ
  pub alarm_active : Bool

unfoldable pub new_monitor : RudderFeedbackMonitor
new_monitor = record { mismatch_ticks = 0; alarm_active = false }

unfoldable reset_monitor : RudderFeedbackMonitor → RudderFeedbackMonitor
reset_monitor m = record { mismatch_ticks = 0; alarm_active = false }

pub data PlausibilityResult : Type 0 where
  plausible glitch : F64 → PlausibilityResult
  sensor_failure : PlausibilityResult

pub record HeadingPlausibility : Type 0 where
  pub prev_value : Option F64
  pub glitch_count : ℕ
  pub max_consecutive_glitches : ℕ

unfoldable new_plausibility : ℕ → HeadingPlausibility
new_plausibility max_consecutive_glitches = record {
  prev_value = none;
  glitch_count = 0;
  max_consecutive_glitches = max_consecutive_glitches;
}

unfoldable reset_plausibility : HeadingPlausibility → HeadingPlausibility
reset_plausibility h = record h { prev_value = none; glitch_count = 0 }

module _ (F : FloatOps) where
  -- The two loops of `normalize_angle`, each on fuel: none where the fuel is used up.
  unfoldable pub turn_down : ℕ → F64 → Option F64
  turn_down zero x = none
  turn_down (suc n) x =
      let rest = turn_down n (F.sub x (F.mul two pi)) in if F.lt pi x then rest else some x

  unfoldable turn_up : ℕ → F64 → Option F64
  turn_up zero x = none
  turn_up (suc n) x =
      let rest = turn_up n (F.add x (F.mul two pi)) in if F.lt x (F.neg pi) then rest else some x

  unfoldable pub normalize_angle : ℕ → F64 → Option F64
  unfolding turn_down turn_up
  normalize_angle n a = turn_down n a >>= turn_up n

  -- One step of the integral, kept where the output is saturated and the error does not unwind it.
  unfoldable integrated : PidController → F64 → F64 → F64 → PidConfig → PidController
  integrated c error_rad pd_output dt cfg =
      let prospective = F.add pd_output (F.mul cfg.gain_i c.integral) in
      if F.lt (F.abs prospective) cfg.max_rudder_rad
        || F.ne (F.signum error_rad) (F.signum c.integral)
      then record c {
        integral =
            F.clamp (F.add c.integral (F.mul error_rad dt)) (F.neg c.integral_limit)
              c.integral_limit;
      }
      else c

  unfoldable pub output : PidController → F64 → F64 → PidConfig → F64
  output c error_rad d_error_rad cfg =
      F.clamp
        (F.add (F.add (F.mul cfg.gain_p error_rad) (F.mul cfg.gain_i c.integral))
          (F.mul cfg.gain_d d_error_rad))
        (F.neg cfg.max_rudder_rad) cfg.max_rudder_rad

  -- The inputs are numbers, and time has passed.
  unfoldable pub is_usable : F64 → F64 → F64 → Bool
  is_usable error_rad d_error_rad dt =
      (F.is_finite error_rad && F.is_finite d_error_rad) && (F.is_finite dt && not (F.le dt L.zero))

  unfoldable pub compute : PidController → F64 → F64 → F64 → PidConfig → PidController × F64
  unfolding is_usable integrated output
  compute c error_rad d_error_rad dt cfg =
      let pd_output = F.add (F.mul cfg.gain_p error_rad) (F.mul cfg.gain_d d_error_rad) in
      let c' = integrated c error_rad pd_output dt cfg in
      if not (is_usable error_rad d_error_rad dt)
      then (c, L.zero)
      else if F.lt (F.abs error_rad) cfg.dead_zone_rad
      then (record c { integral = F.mul c.integral decay }, L.zero)
      else (c', output c' error_rad d_error_rad cfg)

  unfoldable scale_gains : PidConfig → F64 → F64 → PidConfig
  scale_gains cfg speed_mps speed_nominal_mps =
      let ratio = F.clamp (F.div speed_mps speed_nominal_mps) three_tenths three in
      if F.le speed_nominal_mps L.zero || (not (F.is_finite speed_mps) || F.le speed_mps L.zero)
      then cfg
      else record cfg {
        gain_p = F.mul cfg.gain_p ratio;
        gain_i = F.mul cfg.gain_i ratio;
        gain_d = F.div cfg.gain_d ratio;
      }

  -- The second part of `update`: a tick while recovery is active. ℕ's subtraction stops at 0.
  unfoldable pub expire : RecoveryState → F64 → F64 → RecoveryState
  expire r error_rad threshold_rad =
      let ticks_remaining = r.ticks_remaining - 1 in
      if r.active
      then record {
        active =
            not
              (eqb ticks_remaining 0 || F.lt (F.abs error_rad) (F.mul threshold_rad three_tenths));
        ticks_remaining = ticks_remaining;
      }
      else r

  unfoldable pub activate : RecoveryState → F64 → F64 → ℕ → RecoveryState
  activate r error_rad threshold_rad max_ticks =
      if not r.active && F.lt threshold_rad (F.abs error_rad)
      then record { active = true; ticks_remaining = max_ticks }
      else r

  unfoldable pub update_recovery : RecoveryState → F64 → F64 → ℕ → RecoveryState × Bool
  unfolding expire activate
  update_recovery r error_rad threshold_rad max_ticks =
      let r' = expire (activate r error_rad threshold_rad max_ticks) error_rad threshold_rad in
      if F.le threshold_rad L.zero then (r, false) else (r', r'.active)

  unfoldable apply_recovery : RecoveryState → PidConfig → F64 → PidConfig
  apply_recovery r cfg gain_factor =
      if r.active
      then record cfg {
        gain_p = F.mul cfg.gain_p gain_factor;
        gain_i = L.zero;
        gain_d = F.mul cfg.gain_d gain_factor;
      }
      else cfg

  -- A tick with a mismatch, or without.
  unfoldable pub mismatched : RudderFeedbackMonitor → ℕ → RudderFeedbackMonitor × Option Bool
  mismatched m timeout_ticks =
      let ticks = (m.mismatch_ticks + 1) % 2 ^ 32 in
      if leb timeout_ticks ticks && not m.alarm_active
      then (record { mismatch_ticks = ticks; alarm_active = true }, some true)
      else (record m { mismatch_ticks = ticks }, none)

  unfoldable pub matched : RudderFeedbackMonitor → RudderFeedbackMonitor × Option Bool
  matched m =
      if m.alarm_active
      then (record { mismatch_ticks = 0; alarm_active = false }, some false)
      else (record m { mismatch_ticks = 0 }, none)

  unfoldable pub update_feedback :
      RudderFeedbackMonitor → F64 → Option F64 → F64 → ℕ → RudderFeedbackMonitor × Option Bool
  unfolding mismatched matched
  update_feedback m commanded none threshold_rad timeout_ticks = (m, none)
  update_feedback m commanded (some actual) threshold_rad timeout_ticks =
      if F.le threshold_rad L.zero
      then (m, none)
      else if F.lt threshold_rad (F.abs (F.sub commanded actual))
      then mismatched m timeout_ticks
      else matched m

  -- `normalize` is the angle's normal form, as the loops give it.
  unfoldable check_from :
      (F64 → F64)
      → HeadingPlausibility
      → Option F64
      → F64
      → F64
      → F64
      → HeadingPlausibility × PlausibilityResult
  check_from normalize h none value max_rate dt =
      (record h { prev_value = some value; glitch_count = 0 }, plausible value)
  check_from normalize h (some prev) value max_rate dt =
      let count = (h.glitch_count + 1) % 2 ^ 32 in
      if F.le (F.abs (normalize (F.sub value prev))) (F.mul max_rate (F.max dt L.zero))
      then (record h { prev_value = some value; glitch_count = 0 }, plausible value)
      else (
        record h { glitch_count = count },
        if leb h.max_consecutive_glitches count then sensor_failure else glitch prev,
      )

  unfoldable check :
      (F64 → F64) → HeadingPlausibility → F64 → F64 → F64 → HeadingPlausibility × PlausibilityResult
  unfolding check_from
  check normalize h value max_rate dt = check_from normalize h h.prev_value value max_rate dt

  unfoldable sensor_quality : F64 → F64 → F64
  sensor_quality age_secs half_life_secs =
      if not (F.is_finite age_secs) || not (F.is_finite half_life_secs)
      then L.zero
      else if F.le half_life_secs L.zero || F.lt age_secs L.zero
      then one
      else F.clamp (F.powf two (F.div (F.neg age_secs) half_life_secs)) L.zero one

  unfoldable validate_yaw_rate : Option F64 → F64 → Option F64
  validate_yaw_rate none max_rate = none
  validate_yaw_rate (some r) max_rate =
      if not (F.is_finite r) || F.lt max_rate (F.abs r) then none else some r

  unfoldable rate_limit : F64 → F64 → F64 → F64 → F64
  rate_limit current target max_rate dt =
      let max_delta = F.mul max_rate dt in
      if F.le max_rate L.zero || (not (F.is_finite dt) || F.le dt L.zero)
      then target
      else F.add current (F.clamp (F.sub target current) (F.neg max_delta) max_delta)
