-- ===== src/Course/Queries.antt =====
-- The start, the queries and the NMEA listener of crates/signalk-server/src/course/manager.rs.
use signalk_rs.Prelude.{
  ℕ, ◌+◌, Option, none, some, List, [], ◌∷◌, String, ◌==◌, if◌then◌else◌, unwrap_or, ◌>>=◌,
}
use mathlib.Core.Option.{map}
use signalk_rs.Types.Json.{Json, Fields, field, end, set_field}
use signalk_rs.Types.Delta.{PathValue, Update, Delta}
use signalk_rs.Store.{SignalKStore, get_self_path}
use signalk_rs.Server.{Result, ok, err, PluginError}
use signalk_rs.Course.{Position, ActiveRoute, CourseState, oriented}
use signalk_rs.Course.Resolve.{resolve_route_points}
use signalk_rs.Course.Manager.{CourseManager, Clock, Env, is_nmea_destination, emit_deltas}
use signalk_rs.Course.Operations.{apply_nmea_position}

-- The values by which the calculators tell of the way to the next point.
calc_value : SignalKStore → String → Option Json
calc_value store path = map (λ sv. sv.value) (get_self_path store path)

-- The field is set where the store has the value.
with_field : String → Option Json → Fields → Fields
unfolding set_field
with_field key none fs = fs
with_field key (some v) fs = set_field key v fs

-- An object is set where it has a field.
with_object : String → Fields → Fields → Fields
unfolding set_field
with_object key end fs = fs
with_object key (field k v vs) fs = set_field key (Json.object (field k v vs)) fs

unfoldable get_calc_values : SignalKStore → Json
unfolding calc_value with_field with_object
get_calc_values store =
    let track =
      with_field "crossTrackError" (calc_value store "navigation.course.calcValues.crossTrackError")
        (with_field "bearingTrackMagnetic"
          (calc_value store "navigation.course.calcValues.bearingTrackMagnetic")
          (with_field "bearingTrackTrue"
            (calc_value store "navigation.course.calcValues.bearingTrackTrue")
            (field "calcMethod" (Json.string "GreatCircle") end))) in
    let next_point =
      with_field "estimatedTimeOfArrival"
        (calc_value store "navigation.course.calcValues.nextPoint.estimatedTimeOfArrival")
        (with_field "velocityMadeGood"
          (calc_value store "navigation.course.calcValues.nextPoint.velocityMadeGood")
          (with_field "distance"
            (calc_value store "navigation.course.calcValues.nextPoint.distance") end)) in
    let prev_point =
      with_field "distance" (calc_value store "navigation.course.calcValues.previousPoint.distance")
        end in
    Json.object (with_object "previousPoint" prev_point (with_object "nextPoint" next_point track))

module _ (W : Type 0) (E : Env W) where
  -- The text of the file as a course.
  unfoldable pub restored : CourseManager W → Result String String → Result CourseState String
  restored m (err e) = err e
  restored m (ok contents) = E.serde.from_str contents

  unfoldable pub take_up : CourseManager W → Clock → Result CourseState String → CourseManager W
  unfolding emit_deltas
  take_up m t (err e) = m
  take_up m t (ok c) = record (emit_deltas W E m t c) { state = some c }

  unfoldable pub load : CourseManager W → Clock → CourseManager W
  unfolding restored take_up
  load m t = take_up m t (restored m (E.files.read_to_string m.state_file m.world))

  -- A route with the points in the direction of travel, where they are not there yet.
  unfoldable fill_points : ActiveRoute → Result (List Position) PluginError → ActiveRoute
  unfolding oriented
  fill_points r (err e) = r
  fill_points r (ok points) = record r { waypoints = some (oriented r.reverse points) }

  unfoldable fill_route :
      CourseManager W → CourseState → Option ActiveRoute → Option (List Position) → W × CourseState
  unfolding resolve_route_points fill_points
  fill_route m c (some r) none =
      let (w, points) = resolve_route_points E.floats W m.resource_providers r.href m.world in
      (w, record c { active_route = some (fill_points r points) })
  fill_route m c _ _ = (m.world, c)

  -- The course, or an empty one with the configured circle.
  unfoldable get_state : CourseManager W → W × CourseState
  unfolding fill_route
  get_state m =
      let c = unwrap_or m.state (record {
        start_time = none;
        target_arrival_time = none;
        arrival_circle = m.config.arrival_circle;
        active_route = none;
        next_point = none;
        previous_point = none;
      }) in
      fill_route m c c.active_route (c.active_route >>= λ r. r.waypoints)

  -- The body of the listener's loop: a value, the values of an update, a delta. `t` is the clock
  -- at a value of an update.
  unfoldable pub hear_position : CourseManager W → Clock → Option Position → CourseManager W
  unfolding apply_nmea_position
  hear_position m t none = m
  hear_position m t (some p) = (apply_nmea_position W E m t p).0

  unfoldable pub hear_value : CourseManager W → Clock → PathValue → CourseManager W
  unfolding is_nmea_destination hear_position
  hear_value m t pv =
      if is_nmea_destination pv.path then hear_position m t (E.serde.position_of pv.value) else m

  unfoldable pub hear_values : CourseManager W → (ℕ → Clock) → List PathValue → CourseManager W
  unfolding hear_value
  hear_values m t [] = m
  hear_values m t (pv ∷ pvs) = hear_values (hear_value m (t 0) pv) (λ i. t (i + 1)) pvs

  unfoldable pub hear_updates : CourseManager W → (ℕ → ℕ → Clock) → List Update → CourseManager W
  unfolding hear_values
  hear_updates m t [] = m
  hear_updates m t (u ∷ us) =
      hear_updates (if u.source.label == "course-manager" then m else hear_values m (t 0) u.values)
        (λ i. t (i + 1)) us

  unfoldable pub hear_delta : CourseManager W → (ℕ → ℕ → Clock) → Delta → CourseManager W
  unfolding hear_updates
  hear_delta m t delta = hear_updates m t delta.updates
