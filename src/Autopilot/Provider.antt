-- ===== src/Autopilot/Provider.antt =====
-- The requests to the autopilot: crates/plugins/autopilot/src/provider.rs, built without the
-- experimental feature. Each request takes the lock once, and is a function on the state.
pub mod Requests
pub mod Rest
pub mod Tacks
use signalk_rs.Prelude.{
  ℕ, Bool, true, false, not, ◌&&◌, Option, none, some, List, [], ◌∷◌, String, ◌==◌, ◌<>◌, unwrap_or,
  is_some, if◌then◌else◌, ◌>>=◌,
}
use signalk_rs.Types.Json.{Json, F64}
use signalk_rs.Types.Float.{FloatOps}
use signalk_rs.Types.Float as L
use signalk_rs.Server.{Result, ok, err, PluginError, runtime, not_found, bad_request}
use signalk_rs.Autopilot.State.{
  AutopilotMode, compass, wind, route, mode_name, parse_mode, is_wind, is_route, AutopilotState,
}

-- 0.1 and 0.01.
abbrev pub tenth : F64
tenth = 0x3FB999999999999A

abbrev pub hundredth : F64
hundredth = 0x3F847AE147AE147B

pub data TackDirection : Type 0 where
  port starboard : TackDirection

pub record AutopilotAction : Type 0 where
  pub id : String
  pub name : String
  pub available : Bool

pub record AutopilotOptions : Type 0 where
  pub state : List String
  pub mode : List String
  pub actions : List AutopilotAction

pub record AutopilotData : Type 0 where
  pub state : String
  pub mode : String
  pub target : Option F64
  pub engaged : Bool
  pub options : AutopilotOptions

-- The state afterwards, and the answer.
abbrev pub Outcome : Type 0
Outcome = AutopilotState × Result Unit PluginError

unfoldable build_actions : AutopilotState → Bool → Bool → List AutopilotAction
build_actions st has_course has_route =
    record { id = "dodge"; name = "Dodge"; available = st.enabled }
    ∷ record { id = "tack"; name = "Tack"; available = st.enabled && is_wind st.mode }
    ∷ record { id = "gybe"; name = "Gybe"; available = st.enabled && is_wind st.mode }
    ∷ record { id = "courseCurrentPoint"; name = "Course Current Point"; available = has_course }
    ∷ record { id = "courseNextPoint"; name = "Course Next Point"; available = has_route }
    ∷ []

-- `read(path).ok().flatten().is_some()`.
unfoldable has_value : Result (Option Json) PluginError → Bool
has_value (ok (some v)) = true
has_value _ = false

unfoldable pub get_state : AutopilotState → String
get_state st = if st.enabled then "enabled" else "disabled"

-- `read` is the host's `get_self_path`.
unfoldable get_data : (String → Result (Option Json) PluginError) → AutopilotState → AutopilotData
unfolding build_actions has_value get_state
get_data read st = record {
  state = get_state st;
  mode = mode_name st.mode;
  target = st.target_rad;
  engaged = st.enabled;
  options = record {
    state = "enabled" ∷ "disabled" ∷ [];
    mode = "compass" ∷ "wind" ∷ "route" ∷ [];
    actions =
        build_actions st (has_value (read "navigation.course.nextPoint.position"))
          (has_value (read "navigation.course.activeRoute.href"));
  };
}

unfoldable pub engage : AutopilotState → Outcome
engage st = (record st { enabled = true }, ok tt)

unfoldable pub disengage : AutopilotState → Outcome
disengage st = (record st { enabled = false; last_tick_at = none }, ok tt)

unfoldable pub set_state : AutopilotState → String → Outcome
unfolding engage disengage
set_state st state =
    if state == "enabled"
    then engage st
    else if state == "disabled"
    then disengage st
    else (st, err (runtime ("unknown autopilot state: " <> state)))

unfoldable get_mode : AutopilotState → String
get_mode st = mode_name st.mode

unfoldable pub with_mode : AutopilotState → Result AutopilotMode String → Outcome
with_mode st (err message) = (st, err (not_found message))
with_mode st (ok m) = (record st { mode = m; last_error_rad = L.zero; last_tick_at = none }, ok tt)

unfoldable pub set_mode : AutopilotState → String → Outcome
unfolding with_mode
set_mode st mode = with_mode st (parse_mode mode)

unfoldable pub set_target : AutopilotState → F64 → Outcome
set_target st value_rad = (record st { target_rad = some value_rad }, ok tt)

unfoldable pub dodge : AutopilotState → Option F64 → Outcome
dodge st offset_rad = (record st { dodge_offset_rad = offset_rad }, ok tt)

unfoldable pub course_next_point : AutopilotState → Outcome
course_next_point st = if is_route st.mode then (record st { enabled = true }, ok tt) else (
  record st { mode = route; last_error_rad = L.zero; last_tick_at = none; enabled = true },
  ok tt,
)

module _ (F : FloatOps) where
  -- `normalize` is the angle's normal form, as `normalize_angle` gives it.
  unfoldable pub adjust_target : (F64 → F64) → AutopilotState → F64 → Outcome
  adjust_target normalize st delta_rad = (
    record st { target_rad = some (normalize (F.add (unwrap_or st.target_rad L.zero) delta_rad)) },
    ok tt,
  )

  unfoldable pub turned : TackDirection → F64 → F64
  turned port magnitude = F.neg magnitude
  turned starboard magnitude = magnitude

  -- The body that `tack` and `gybe` share; `what` is the one or the other.
  unfoldable pub maneuver : String → AutopilotState → TackDirection → Outcome
  unfolding turned
  maneuver what st direction =
      let current = unwrap_or st.target_rad L.zero in
      let new_target = turned direction (F.max (F.abs current) tenth) in
      if not (is_wind st.mode)
      then (st, err (bad_request (what <> " requires wind mode")))
      else if F.lt (F.abs (F.sub new_target current)) hundredth
      then (st, err (runtime ("already on that " <> what)))
      else (record st { target_rad = some new_target; last_error_rad = L.zero }, ok tt)

  unfoldable pub tack : AutopilotState → TackDirection → Outcome
  unfolding maneuver
  tack st direction = maneuver "tack" st direction

  unfoldable pub gybe : AutopilotState → TackDirection → Outcome
  unfolding maneuver
  gybe st direction = maneuver "gybe" st direction

  -- What `course_current_point` makes of the bearing.
  unfoldable pub follow_bearing : AutopilotState → Option F64 → Outcome
  follow_bearing st none = (st, err (bad_request "no active course — set a destination first"))
  follow_bearing st (some target_rad) = (
    record st {
      mode = route;
      target_rad = some target_rad;
      enabled = true;
      last_error_rad = L.zero;
      last_tick_at = none;
    },
    ok tt,
  )

  unfoldable pub follow_answer : AutopilotState → Result (Option Json) PluginError → Outcome
  unfolding follow_bearing
  follow_answer st (err e) = (st, err e)
  follow_answer st (ok value) = follow_bearing st (value >>= F.as_f64)

  unfoldable pub course_current_point :
      (String → Result (Option Json) PluginError) → AutopilotState → Outcome
  unfolding follow_answer
  course_current_point read st =
      follow_answer st (read "navigation.course.calcValues.bearingTrackTrue")
