-- ===== src/Autopilot/State.antt =====
-- The state of the autopilot: crates/plugins/autopilot/src/state.rs, built without the experimental
-- feature. An `Instant` is a number of nanoseconds.
use signalk_rs.Prelude.{
  ℕ, ◌-◌, ◌/◌, Bool, true, false, Option, none, some, [], String, ◌==◌, ◌<>◌, ltb, if◌then◌else◌,
}
use signalk_rs.Prelude.Assoc.{Map, lookup, insert}
use signalk_rs.Types.Json.{F64}
use signalk_rs.Types.Float as L
use signalk_rs.Server.{Result, ok, err}

pub data AutopilotMode : Type 0 where
  compass wind route : AutopilotMode

unfoldable pub mode_name : AutopilotMode → String
mode_name compass = "compass"
mode_name wind = "wind"
mode_name route = "route"

unfoldable sensor_path : AutopilotMode → String
sensor_path compass = "navigation.headingMagnetic"
sensor_path wind = "environment.wind.angleApparent"
sensor_path route = "navigation.course.calcValues.bearingTrackTrue"

unfoldable target_path : AutopilotMode → String
target_path compass = "steering.autopilot.target.headingMagnetic"
target_path wind = "steering.autopilot.target.windAngleApparent"
target_path route = "steering.autopilot.target.headingTrue"

unfoldable pub parse_mode : String → Result AutopilotMode String
parse_mode s =
    if s == "compass"
    then ok compass
    else if s == "wind"
    then ok wind
    else if s == "route"
    then ok route
    else err ("unknown autopilot mode: " <> s)

unfoldable pub is_wind : AutopilotMode → Bool
is_wind wind = true
is_wind _ = false

unfoldable pub is_route : AutopilotMode → Bool
is_route route = true
is_route _ = false

pub record AutopilotState : Type 0 where
  pub enabled : Bool
  pub mode : AutopilotMode
  pub target_rad : Option F64
  pub dodge_offset_rad : Option F64
  pub last_rudder_rad : F64
  pub last_error_rad : F64
  pub last_tick_at : Option ℕ
  pub sensor_last_seen : Map ℕ
  pub sensor_values : Map F64
  pub actual_rudder_rad : Option F64
  pub actual_rudder_last_seen : Option ℕ

unfoldable pub new_state : AutopilotMode → AutopilotState
new_state mode = record {
  enabled = false;
  mode = mode;
  target_rad = none;
  dodge_offset_rad = none;
  last_rudder_rad = L.zero;
  last_error_rad = L.zero;
  last_tick_at = none;
  sensor_last_seen = [];
  sensor_values = [];
  actual_rudder_rad = none;
  actual_rudder_last_seen = none;
}

-- At the time `now`.
unfoldable update_sensor : AutopilotState → String → F64 → ℕ → AutopilotState
update_sensor st path value now = record st {
  sensor_values = insert path value st.sensor_values;
  sensor_last_seen = insert path now st.sensor_last_seen;
}

unfoldable current_sensor : AutopilotState → Option F64
unfolding sensor_path
current_sensor st = lookup (sensor_path st.mode) st.sensor_values

-- `elapsed` is 0 where the clock is behind.
unfoldable is_late : Option ℕ → ℕ → ℕ → Bool
is_late none now timeout_secs = true
is_late (some last) now timeout_secs = ltb timeout_secs ((now - last) / 1000000000)

unfoldable sensor_timed_out : AutopilotState → ℕ → ℕ → Bool
unfolding is_late sensor_path
sensor_timed_out st now timeout_secs =
    is_late (lookup (sensor_path st.mode) st.sensor_last_seen) now timeout_secs

-- The control loop: what it writes when it lets go (a sensor is late, or has failed), and at the end
-- of a tick.
unfoldable pub let_go : AutopilotState → AutopilotState
let_go st = record st { enabled = false; last_rudder_rad = L.zero; last_tick_at = none }

unfoldable pub ticked : AutopilotState → F64 → F64 → ℕ → AutopilotState
ticked st rudder new_error now = record st {
  last_rudder_rad = rudder;
  last_error_rad = new_error;
  last_tick_at = some now;
}
