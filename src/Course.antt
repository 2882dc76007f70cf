-- ===== src/Course.antt =====
-- crates/signalk-server/src/course/manager.rs: following a route. Parameters: `resolve` is what
-- `resolve_route_points` gives for the route's reference at the time of the call, `out_of_range` the
-- text of `format!` for an index and a number of points. An operation returns the new state and, on
-- success, the copy of it that is then persisted and broadcast.
pub mod Follow
pub mod Resolve
pub mod Emit
pub mod Manager
pub mod Operations
pub mod Queries
pub mod Keeps
pub mod Sourced
pub mod Events
pub mod Sources
pub mod Requests
pub mod Restart
pub mod Failed
pub mod Told
pub mod Stale
pub mod Href
pub mod Arrival
use signalk_rs.Prelude.{
  ℕ, ◌+◌, ◌-◌, Bool, true, false, not, Option, none, some, List, [], ◌∷◌, String, ltb, leb,
  if◌then◌else◌, length, reverse, get_elem?, unwrap_or,
}
use mathlib.Core.Option.{map}
use signalk_rs.Prelude.Int.{ℤ, pos, negsuc}
use signalk_rs.Types.Json.{F64}
use signalk_rs.Server.{Result, ok, err, PluginError, runtime}

-- The types of crates/signalk-types/src/resources.rs.
pub record Position : Type 0 where
  pub latitude : F64
  pub longitude : F64
  pub altitude : Option F64

pub data PointType : Type 0 where
  location vessel_position route_point : PointType

pub record CoursePoint : Type 0 where
  pub type_ : PointType
  pub position : Position
  pub href : Option String

pub record ActiveRoute : Type 0 where
  pub href : String
  pub reverse : Bool
  pub point_index : ℕ
  pub point_total : ℕ
  pub name : Option String
  pub waypoints : Option (List Position)

pub record CourseState : Type 0 where
  pub start_time : Option String
  pub target_arrival_time : Option String
  pub arrival_circle : F64
  pub active_route : Option ActiveRoute
  pub next_point : Option CoursePoint
  pub previous_point : Option CoursePoint

-- The points in the direction of travel.
unfoldable pub oriented : Bool → List Position → List Position
oriented true points = reverse points
oriented false points = points

-- A point of the given type, without a reference.
unfoldable pub course_point : PointType → Position → CoursePoint
course_point type_ position = record { type_ = type_; position = position; href = none }

-- The state for a new route, with its points in the direction of travel. `now` is the time as a
-- text, and `vessel` the vessel's position. The circle of no course, 0.0, has the bits 0.
unfoldable pub started :
    Option CourseState
    → String
    → Bool
    → String
    → Option Position
    → List Position
    → Result CourseState PluginError
unfolding course_point
started s href reversed now vessel [] = err (runtime "Route has no waypoints")
started s href reversed now vessel (p ∷ ps) = ok (record {
  start_time = some now;
  target_arrival_time = none;
  arrival_circle = unwrap_or (map (λ c. c.arrival_circle) s) 0;
  active_route = some (record {
    href = href;
    reverse = reversed;
    point_index = 0;
    point_total = length (p ∷ ps);
    name = none;
    waypoints = none;
  });
  next_point = some (course_point route_point p);
  previous_point = map (course_point vessel_position) vessel;
})

-- `set_active_route` in front of `apply_state`: the state to apply.
unfoldable pub set_active_route :
    Option CourseState
    → String
    → Bool
    → Result (List Position) PluginError
    → String
    → Option Position
    → Result CourseState PluginError
unfolding oriented started
set_active_route s href reversed (err e) now vessel = err e
set_active_route s href reversed (ok points) now vessel =
    started s href reversed now vessel (oriented reversed points)

-- The index as a signed number, and the index that it is where it lies in front of the end.
unfoldable pub shifted : ℕ → ℤ → ℤ
shifted index (pos n) = pos (index + n)
shifted index (negsuc n) = if leb (n + 1) index then pos (index - (n + 1)) else negsuc (n - index)

unfoldable pub in_range : ℤ → ℕ → Option ℕ
in_range (pos n) total = if ltb n total then some n else none
in_range (negsuc n) total = none

unfoldable pub on_active :
    CourseState
    → Option ActiveRoute
    → (CourseState → ActiveRoute → Option CourseState × Result CourseState PluginError)
    → Option CourseState × Result CourseState PluginError
on_active c none step = (some c, err (runtime "No active route"))
on_active c (some r) step = step c r

unfoldable pub on_route :
    Option CourseState
    → (CourseState → ActiveRoute → Option CourseState × Result CourseState PluginError)
    → Option CourseState × Result CourseState PluginError
unfolding on_active
on_route none step = (none, err (runtime "No active course"))
on_route (some c) step = on_active c c.active_route step

module _ (out_of_range : ℤ → ℕ → String) where
  -- The check of the range, and the move to the point at the index.
  unfoldable pub moved :
      CourseState
      → ActiveRoute
      → ℤ
      → List Position
      → Option ℕ
      → Option CourseState × Result CourseState PluginError
  unfolding oriented course_point
  moved c r index points none = (some c, err (runtime (out_of_range index (length points))))
  moved c r index points (some i) =
      let c' = record c {
        previous_point = c.next_point;
        active_route = some (record r { point_index = i });
        next_point = map (course_point route_point) (get_elem? (oriented r.reverse points) i);
      } in
      (some c', ok c')

  unfoldable pub resolved :
      CourseState
      → ActiveRoute
      → ℤ
      → Result (List Position) PluginError
      → Option CourseState × Result CourseState PluginError
  unfolding moved in_range
  resolved c r index (err e) = (some c, err e)
  resolved c r index (ok points) = moved c r index points (in_range index (length points))

  unfoldable pub advance_next_point :
      Option CourseState
      → ℤ
      → (String → Result (List Position) PluginError)
      → Option CourseState × Result CourseState PluginError
  unfolding on_route resolved shifted
  advance_next_point s delta resolve =
      on_route s λ c r. resolved c r (shifted r.point_index delta) (resolve r.href)

  unfoldable pub set_point_index :
      Option CourseState
      → ℕ
      → (String → Result (List Position) PluginError)
      → Option CourseState × Result CourseState PluginError
  unfolding on_route resolved
  set_point_index s index resolve = on_route s λ c r. resolved c r (pos index) (resolve r.href)

-- `reverse_route` behind the flip of the direction, which is made before the route is resolved.
unfoldable pub restart :
    CourseState
    → ActiveRoute
    → Result (List Position) PluginError
    → Option CourseState × Result CourseState PluginError
unfolding oriented course_point
restart c r (err e) = (some (record c { active_route = some r }), err e)
restart c r (ok points) =
    let c' = record c {
      active_route =
          some (record r { point_index = 0; point_total = length (oriented r.reverse points) });
      previous_point = c.next_point;
      next_point = map (course_point route_point) (get_elem? (oriented r.reverse points) 0);
    } in
    (some c', ok c')

unfoldable pub reverse_route :
    Option CourseState
    → (String → Result (List Position) PluginError)
    → Option CourseState × Result CourseState PluginError
unfolding on_route restart
reverse_route s resolve =
    on_route s λ c r. restart c (record r { reverse = not r.reverse }) (resolve r.href)

-- `has_more_waypoints` of `check_arrival`.
unfoldable pub has_more_waypoints : Option ActiveRoute → Bool
has_more_waypoints none = false
has_more_waypoints (some r) =
    if ltb 0 r.point_total then ltb (r.point_index + 1) r.point_total else false
