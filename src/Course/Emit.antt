-- ===== src/Course/Emit.antt =====
-- crates/signalk-server/src/course/manager.rs: the values that tell of a course in the store.
use signalk_rs.Prelude.{
  Option, none, some, List, [], ◌∷◌, ◌++◌, String, if◌then◌else◌, unwrap_or, ◌>>=◌,
}
use mathlib.Core.List as L
use mathlib.Core.Option.{map}
use signalk_rs.Types.Json.{Json, F64, field, end, get}
use signalk_rs.Types.Float.{FloatOps, zero}
use signalk_rs.Types.Geo.{haversine_meters, route_remaining_distance}
use signalk_rs.Types.Delta.{PathValue, Source}
use signalk_rs.Store.{SignalKStore, get_self_path}
use signalk_rs.Server.{Result, ok, err, PluginError}
use signalk_rs.Course.{
  Position, PointType, CoursePoint, ActiveRoute, CourseState, location, vessel_position,
  route_point, oriented,
}

-- `json!({"latitude": .., "longitude": ..})`.
position_json : FloatOps → Position → Json
position_json F p =
    Json.object
      (field "latitude" (F.value p.latitude) (field "longitude" (F.value p.longitude) end))

-- What serde's derive makes of the variants.
point_type_json : PointType → Json
point_type_json location = Json.string "Location"
point_type_json vessel_position = Json.string "VesselPosition"
point_type_json route_point = Json.string "RoutePoint"

abbrev pub path_value : String → Json → PathValue
path_value path value = record { path = path; value = value }

unfoldable pub next_values : FloatOps → Option CoursePoint → List PathValue
unfolding position_json point_type_json
next_values F none = []
next_values F (some next) =
    path_value "navigation.course.nextPoint.position" (position_json F next.position)
    ∷ path_value "navigation.course.nextPoint.type" (point_type_json next.type_)
    ∷ []

unfoldable pub previous_values : FloatOps → Option CoursePoint → List PathValue
unfolding position_json
previous_values F none = []
previous_values F (some prev) =
    path_value "navigation.course.previousPoint.position" (position_json F prev.position) ∷ []

unfoldable pub route_values : Option ActiveRoute → List PathValue
route_values none = []
route_values (some r) = path_value "navigation.course.activeRoute.href" (Json.string r.href) ∷ []

unfoldable pub text_values : String → Option String → List PathValue
text_values path none = []
text_values path (some t) = path_value path (Json.string t) ∷ []

unfoldable pub circle_values : FloatOps → F64 → List PathValue
circle_values F circle =
    if F.lt zero circle
    then path_value "navigation.course.arrivalCircle" (F.value circle) ∷ []
    else []

-- The values that do not depend on the route's points, in the order in which they are pushed.
unfoldable pub state_values : FloatOps → CourseState → List PathValue
unfolding next_values previous_values route_values text_values circle_values
state_values F c =
    next_values F c.next_point
    ++ previous_values F c.previous_point
    ++ route_values c.active_route
    ++ text_values "navigation.course.startTime" c.start_time
    ++ text_values "navigation.course.targetArrivalTime" c.target_arrival_time
    ++ circle_values F c.arrival_circle

abbrev pub course_manager : Source
course_manager = record { label = "course-manager"; type_ = "Plugin"; extra = [] }

-- The paths that are set to null when the course is cleared.
abbrev pub course_paths : List String
course_paths =
    "navigation.course.nextPoint.position" ∷ "navigation.course.nextPoint.type"
    ∷ "navigation.course.arrivalCircle" ∷ "navigation.course.targetArrivalTime"
    ∷ "navigation.course.previousPoint.position" ∷ "navigation.course.activeRoute.href"
    ∷ "navigation.course.activeRoute.distanceRemaining" ∷ "navigation.course.startTime" ∷ []

-- The vessel's latitude and longitude in the store.
unfoldable vessel_lat_lon : FloatOps → SignalKStore → Option (F64 × F64)
unfolding get
vessel_lat_lon F store = do
  sv ← get_self_path store "navigation.position"
  a ← get sv.value "latitude"
  lat ← F.as_f64 a
  b ← get sv.value "longitude"
  lon ← F.as_f64 b
  some (lat, lon)

unfoldable pub current_vessel_position : FloatOps → SignalKStore → Option Position
unfolding vessel_lat_lon
current_vessel_position F store =
    map (λ p. record { latitude = p.0; longitude = p.1; altitude = none }) (vessel_lat_lon F store)

-- The distance from the vessel to the next point.
unfoldable vessel_to_next : FloatOps → SignalKStore → Option CoursePoint → F64
unfolding vessel_lat_lon haversine_meters
vessel_to_next F store none = zero
vessel_to_next F store (some next) =
    unwrap_or
      (map (λ p. haversine_meters F p.0 p.1 next.position.latitude next.position.longitude)
        (vessel_lat_lon F store))
      zero

-- The value for the remaining distance, where the route could be resolved.
unfoldable pub distance_values :
    FloatOps
    → SignalKStore
    → CourseState
    → ActiveRoute
    → Result (List Position) PluginError
    → List PathValue
unfolding oriented route_remaining_distance vessel_to_next
distance_values F store c r (err e) = []
distance_values F store c r (ok points) =
    let wp_tuples = L.map (λ p. (p.latitude, p.longitude)) (oriented r.reverse points) in
    let remaining = route_remaining_distance F wp_tuples r.point_index in
    path_value "navigation.course.activeRoute.distanceRemaining"
      (F.value (F.add (vessel_to_next F store c.next_point) remaining))
    ∷ []
