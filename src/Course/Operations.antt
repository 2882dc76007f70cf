-- ===== src/Course/Operations.antt =====
-- The operations of `CourseManager` (crates/signalk-server/src/course/manager.rs) on the whole state.
-- What concerns the route alone is in the module Course. The clock of a call is an argument.
use signalk_rs.Prelude.{
  ℕ, Bool, true, false, not, Option, none, some, List, String, if◌then◌else◌, ◌>>=◌,
}
use signalk_rs.Prelude.Int.{ℤ, pos}
use signalk_rs.Types.Json.{F64}
use signalk_rs.Types.Float.{zero}
use signalk_rs.Store.{get_self_path}
use signalk_rs.Server.{Result, ok, err, PluginError, runtime, config}
use signalk_rs.Course.{Position, ActiveRoute, CourseState, oriented, has_more_waypoints}
use signalk_rs.Course as C
use signalk_rs.Course.Resolve.{resolve_waypoint_position, resolve_route_points}
use signalk_rs.Course.Emit.{current_vessel_position}
use signalk_rs.Course.Manager.{
  CourseSource, api, nmea, CourseManager, Clock, Env, DestinationRequest, ActiveRouteRequest,
  direct_course, current_circle, persist_state, publish, emit_clear_deltas,
  emit_arrival_notification,
}

module _ (W : Type 0) (E : Env W) where
  -- A new course, once it is published: it becomes the state, with its source.
  unfoldable pub adopted :
      CourseSource
      → CourseState
      → CourseManager W × Result Unit PluginError
      → CourseManager W × Result Unit PluginError
  adopted source c (m, err e) = (m, err e)
  adopted source c (m, ok u) = (record m { state = some c; source = source }, ok tt)

  unfoldable pub apply_state :
      CourseManager W → Clock → CourseState → CourseManager W × Result Unit PluginError
  unfolding adopted publish
  apply_state m t c = adopted api c (publish W E m t c)

  -- A new course, where it could be made.
  unfoldable pub apply_result :
      CourseManager W
      → Clock
      → Result CourseState PluginError
      → CourseManager W × Result Unit PluginError
  unfolding apply_state
  apply_result m t (err e) = (m, err e)
  apply_result m t (ok c) = apply_state m t c

  -- The requested position, or that of the waypoint.
  unfoldable destination :
      CourseManager W → Option Position → Option String → W × Result Position PluginError
  unfolding resolve_waypoint_position
  destination m (some p) href = (m.world, ok p)
  destination m none (some href) =
      resolve_waypoint_position E.floats W m.resource_providers href m.world
  destination m none none = (m.world, err (config "Either position or href must be provided"))

  -- The course to a position, where there is one.
  unfoldable pub destination_course :
      CourseManager W
      → Clock
      → Option String
      → Result Position PluginError
      → Result CourseState PluginError
  unfolding direct_course current_circle current_vessel_position
  destination_course m t href (err e) = err e
  destination_course m t href (ok p) = ok (
      direct_course t.rfc3339 (current_circle m.state) (current_vessel_position E.floats m.store)
        href p)

  unfoldable pub directed :
      CourseManager W
      → Clock
      → Option String
      → W × Result Position PluginError
      → CourseManager W × Result Unit PluginError
  unfolding destination_course apply_result
  directed m t href (w, answer) =
      apply_result (record m { world = w }) t (destination_course m t href answer)

  unfoldable pub set_destination :
      CourseManager W → Clock → DestinationRequest → CourseManager W × Result Unit PluginError
  unfolding destination directed
  set_destination m t req = directed m t req.href (destination m req.position req.href)

  unfoldable pub routed :
      CourseManager W
      → Clock
      → ActiveRouteRequest
      → W × Result (List Position) PluginError
      → CourseManager W × Result Unit PluginError
  unfolding C.set_active_route current_vessel_position apply_result
  routed m t req (w, points) =
      apply_result (record m { world = w }) t
        (C.set_active_route m.state req.href req.reverse points t.rfc3339
          (current_vessel_position E.floats m.store))

  unfoldable pub set_active_route :
      CourseManager W → Clock → ActiveRouteRequest → CourseManager W × Result Unit PluginError
  unfolding resolve_route_points routed
  set_active_route m t req =
      routed m t req (resolve_route_points E.floats W m.resource_providers req.href m.world)

  -- A write of the empty state, and what it leads to.
  unfoldable pub cleared :
      CourseManager W
      → Clock
      → W × Result Unit PluginError
      → CourseManager W × Result Unit PluginError
  unfolding emit_clear_deltas
  cleared m t (w, err e) = (record m { world = w }, err e)
  cleared m t (w, ok u) = (emit_clear_deltas W E (record m { world = w }) t, ok tt)

  unfoldable pub clear : CourseManager W → Clock → CourseManager W × Result Unit PluginError
  unfolding persist_state cleared
  clear m t = cleared (record m { state = none }) t (persist_state W E m.state_file none m.world)

  -- What the route's reference resolves to now, and the world behind the resolution.
  abbrev pub resolve : CourseManager W → String → Result (List Position) PluginError
  resolve m href = (resolve_route_points E.floats W m.resource_providers href m.world).1

  unfoldable world_after : CourseManager W → Option ActiveRoute → W
  unfolding resolve_route_points
  world_after m none = m.world
  world_after m (some r) = (resolve_route_points E.floats W m.resource_providers r.href m.world).0

  unfoldable pub changed :
      CourseManager W
      → Clock
      → Result CourseState PluginError
      → CourseManager W × Result Unit PluginError
  unfolding publish
  changed m t (err e) = (m, err e)
  changed m t (ok c) = publish W E m t c

  -- The state behind a step, and the world behind the resolution for it.
  unfoldable pub stepped : CourseManager W → Option CourseState → CourseManager W
  unfolding world_after
  stepped m s = record m { state = s; world = world_after m (m.state >>= λ c. c.active_route) }

  -- A change of the course on its route: the new state is in memory before it is published.
  unfoldable pub follow :
      CourseManager W
      → Clock
      → Option CourseState × Result CourseState PluginError
      → CourseManager W × Result Unit PluginError
  unfolding changed stepped
  follow m t (s, answer) = changed (stepped m s) t answer

  unfoldable pub advance_next_point :
      CourseManager W → Clock → ℤ → CourseManager W × Result Unit PluginError
  unfolding follow C.advance_next_point
  advance_next_point m t delta =
      follow m t (C.advance_next_point E.out_of_range m.state delta (resolve m))

  unfoldable pub set_point_index :
      CourseManager W → Clock → ℕ → CourseManager W × Result Unit PluginError
  unfolding follow C.set_point_index
  set_point_index m t index =
      follow m t (C.set_point_index E.out_of_range m.state index (resolve m))

  unfoldable pub reverse_route : CourseManager W → Clock → CourseManager W × Result Unit PluginError
  unfolding follow C.reverse_route
  reverse_route m t = follow m t (C.reverse_route m.state (resolve m))

  -- A changed course, which is in memory before it is published.
  unfoldable pub amended :
      CourseManager W → Clock → CourseState → CourseManager W × Result Unit PluginError
  unfolding publish
  amended m t c = publish W E (record m { state = some c }) t c

  unfoldable pub timed :
      CourseManager W
      → Clock
      → Option String
      → Option CourseState
      → CourseManager W × Result Unit PluginError
  unfolding amended
  timed m t time none = (m, err (runtime "No active course"))
  timed m t time (some c) = amended m t (record c { target_arrival_time = time })

  unfoldable pub set_target_arrival_time :
      CourseManager W → Clock → Option String → CourseManager W × Result Unit PluginError
  unfolding timed
  set_target_arrival_time m t time = timed m t time m.state

  unfoldable pub circled :
      CourseManager W → Clock → F64 → Option CourseState → CourseManager W × Result Unit PluginError
  unfolding amended
  circled m t radius none = (m, ok tt)
  circled m t radius (some c) = amended m t (record c { arrival_circle = radius })

  unfoldable pub set_arrival_circle :
      CourseManager W → Clock → F64 → CourseManager W × Result Unit PluginError
  unfolding circled
  set_arrival_circle m t radius =
      circled (record m { config = record m.config { arrival_circle = radius } }) t radius m.state

  -- The course that an NMEA sentence set is dropped.
  unfoldable pub drop_nmea : CourseManager W → Clock → CourseSource → CourseManager W
  unfolding emit_clear_deltas persist_state
  drop_nmea m t api = m
  drop_nmea m t nmea =
      let m' = emit_clear_deltas W E (record m { state = none; source = api }) t in
      record m' { world = (persist_state W E m'.state_file none m'.world).0 }

  unfoldable pub enable_api_only : CourseManager W → Clock → CourseManager W
  unfolding drop_nmea
  enable_api_only m t =
      drop_nmea (record m { config = record m.config { api_only = true } }) t m.source

  unfoldable pub disable_api_only : CourseManager W → CourseManager W
  disable_api_only m = record m { config = record m.config { api_only = false } }

  -- With the API only, the sentence is passed over.
  unfoldable pub heard :
      CourseManager W → Clock → Position → Bool → CourseManager W × Result Unit PluginError
  unfolding adopted publish direct_course current_vessel_position
  heard m t position true = (m, ok tt)
  heard m t position false =
      let c =
        direct_course t.rfc3339 m.config.arrival_circle (current_vessel_position E.floats m.store)
          none position in
      adopted nmea c (publish W E m t c)

  unfoldable pub apply_nmea_position :
      CourseManager W → Clock → Position → CourseManager W × Result Unit PluginError
  unfolding heard
  apply_nmea_position m t position = heard m t position m.config.api_only

  unfoldable pub distance : CourseManager W → Option F64
  distance m = do
    sv ← get_self_path m.store "navigation.course.calcValues.nextPoint.distance"
    E.floats.as_f64 sv.value

  -- The distance is a number, and inside the circle.
  unfoldable pub is_inside : F64 → Option F64 → Bool
  is_inside circle none = false
  is_inside circle (some d) = if E.floats.is_finite d then not (E.floats.le circle d) else false

  -- The next point of the route, or the notification at the last one.
  unfoldable pub arrive : CourseManager W → Clock → CourseState → CourseManager W
  unfolding has_more_waypoints advance_next_point emit_arrival_notification
  arrive m t c =
      if has_more_waypoints c.active_route
      then (advance_next_point m t (pos 1)).0
      else emit_arrival_notification W E m t

  unfoldable pub check_at : CourseManager W → Clock → Option CourseState → CourseManager W × Bool
  unfolding distance is_inside arrive
  check_at m t none = (m, false)
  check_at m t (some c) =
      if E.floats.le c.arrival_circle zero
      then (m, false)
      else if is_inside c.arrival_circle (distance m)
      then (arrive m t c, true)
      else (m, false)

  unfoldable pub check_arrival : CourseManager W → Clock → CourseManager W × Bool
  unfolding check_at
  check_arrival m t = check_at m t m.state
