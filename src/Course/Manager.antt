-- ===== src/Course/Manager.antt =====
-- The whole of crates/signalk-server/src/course/manager.rs: the state in memory, in the file and in
-- the store. `W` is the world: the file system and what the providers of resources act on.
use signalk_rs.Prelude.{
  ℕ, Bool, false, ◌||◌, Option, none, some, List, [], ◌∷◌, ◌++◌, String, ◌==◌, ◌<>◌, unwrap_or,
}
use mathlib.Core.List as L
use mathlib.Core.Option.{map}
use signalk_rs.Prelude.Int.{ℤ}
use signalk_rs.Types.Json.{Json, F64, field, end, cons, nil}
use signalk_rs.Types.Float.{FloatOps, zero}
use signalk_rs.Types.Delta.{Timestamp, PathValue, self_vessel, update_now}
use signalk_rs.Store.{SignalKStore, apply_delta}
use signalk_rs.Server.{Result, ok, err, PluginError, runtime}
use signalk_rs.Server.Resources.{ResourceProviderRegistry}
use signalk_rs.Course.{Position, ActiveRoute, CourseState, location, vessel_position, course_point}
use signalk_rs.Course.Resolve.{resolve_route_points}
use signalk_rs.Course.Emit.{state_values, distance_values, course_paths, course_manager, path_value}

pub data CourseSource : Type 0 where
  api nmea : CourseSource

pub record CourseConfig : Type 0 where
  pub arrival_circle : F64
  pub api_only : Bool

-- `DestinationRequest` of crates/signalk-types/src/v2.rs.
pub record DestinationRequest : Type 0 where
  pub position : Option Position
  pub href : Option String

-- The calls of tokio's file system; an error is its text.
pub record Files (W : Type 0) : Type 0 where
  pub parent : String → Option String
  pub create_dir_all : String → W → W × Result Unit String
  pub read_to_string : String → W → Result String String
  pub write : String → String → W → W × Result Unit String
  pub remove_file : String → W → W × Result Unit String

-- serde's conversions of the course and of a position.
pub record Serde : Type 0 where
  pub to_string_pretty : CourseState → Result String String
  pub from_str : String → Result CourseState String
  pub position_of : Json → Option Position

-- The clock at a call, as a text and as a time, and at each value that the store then applies.
pub record Clock : Type 0 where
  pub rfc3339 : String
  pub now : Timestamp
  pub store : ℕ → ℕ → Timestamp

pub record CourseManager (W : Type 0) : Type 0 where
  pub state : Option CourseState
  pub config : CourseConfig
  pub source : CourseSource
  pub store : SignalKStore
  pub state_file : String
  pub resource_providers : ResourceProviderRegistry W
  pub world : W

-- What the code calls outside the repository; `out_of_range` is the text of `format!`.
pub record Env (W : Type 0) : Type 0 where
  pub floats : FloatOps
  pub serde : Serde
  pub files : Files W
  pub display : Json → String
  pub out_of_range : ℤ → ℕ → String

-- `ActiveRouteRequest` of crates/signalk-types/src/v2.rs.
pub record ActiveRouteRequest : Type 0 where
  pub href : String
  pub reverse : Bool

-- `CourseManager::new`; `state_file` is the joined path.
unfoldable pub new :
    (W : Type 0) → SignalKStore → String → ResourceProviderRegistry W → W → CourseManager W
new W store state_file resource_providers world = record {
  state = none;
  config = record { arrival_circle = zero; api_only = false };
  source = api;
  store = store;
  state_file = state_file;
  resource_providers = resource_providers;
  world = world;
}

-- A course to one point, from where the vessel is.
unfoldable pub direct_course :
    String → F64 → Option Position → Option String → Position → CourseState
unfolding course_point
direct_course now arrival_circle vessel href position = record {
  start_time = some now;
  target_arrival_time = none;
  arrival_circle = arrival_circle;
  active_route = none;
  next_point = some (record { type_ = location; position = position; href = href });
  previous_point = map (course_point vessel_position) vessel;
}

-- The circle of the course in force, or 0.0.
unfoldable pub current_circle : Option CourseState → F64
current_circle s = unwrap_or (map (λ c. c.arrival_circle) s) zero

-- The paths on which an NMEA sentence names a destination.
unfoldable pub is_nmea_destination : String → Bool
is_nmea_destination path =
    (path == "navigation.courseGreatCircle.nextPoint.position")
    || (path == "navigation.courseRhumbline.nextPoint.position")

module _ (W : Type 0) (E : Env W) where
  -- A call of the file system, with the error's text made an error.
  unfoldable pub labelled : String → W × Result Unit String → W × Result Unit PluginError
  labelled what (w, ok u) = (w, ok tt)
  labelled what (w, err e) = (w, err (runtime (what <> e)))

  unfoldable pub make_parent : String → W → W × Result Unit PluginError
  unfolding labelled
  make_parent state_file w = elim (E.files.parent state_file) [
    | none ↦ (w, ok tt)
    | some d ↦ labelled "mkdir course dir: " (E.files.create_dir_all d w)
  ]

  unfoldable pub write_json : String → Result String String → W → W × Result Unit PluginError
  unfolding labelled
  write_json state_file (err e) w = (w, err (runtime ("serialize course: " <> e)))
  write_json state_file (ok json) w =
      labelled "write course state: " (E.files.write state_file json w)

  unfoldable pub write_state : String → Option CourseState → W → W × Result Unit PluginError
  unfolding write_json
  write_state state_file none w = ((E.files.remove_file state_file w).0, ok tt)
  write_state state_file (some c) w = write_json state_file (E.serde.to_string_pretty c) w

  unfoldable pub after_mkdir :
      String → Option CourseState → W × Result Unit PluginError → W × Result Unit PluginError
  unfolding write_state
  after_mkdir state_file state (w, err e) = (w, err e)
  after_mkdir state_file state (w, ok u) = write_state state_file state w

  unfoldable pub persist_state : String → Option CourseState → W → W × Result Unit PluginError
  unfolding make_parent after_mkdir
  persist_state state_file state w = after_mkdir state_file state (make_parent state_file w)

  -- A delta of the course manager, applied to the store.
  unfoldable pub send : CourseManager W → Clock → List PathValue → CourseManager W
  unfolding apply_delta self_vessel update_now
  send m t values = record m {
    store =
        apply_delta E.display m.store t.store
          (self_vessel (update_now t.now course_manager values ∷ []));
  }

  -- The world behind the resolution of the course's route, and the value for the distance.
  unfoldable pub remaining : CourseManager W → CourseState → Option ActiveRoute → W × List PathValue
  unfolding resolve_route_points distance_values
  remaining m c none = (m.world, [])
  remaining m c (some r) =
      let (w, points) = resolve_route_points E.floats W m.resource_providers r.href m.world in
      (w, distance_values E.floats m.store c r points)

  unfoldable pub send_some : CourseManager W → Clock → List PathValue → CourseManager W
  unfolding send
  send_some m t [] = m
  send_some m t (v ∷ vs) = send m t (v ∷ vs)

  unfoldable pub emit_deltas : CourseManager W → Clock → CourseState → CourseManager W
  unfolding remaining state_values send_some
  emit_deltas m t c =
      let (w, distance) = remaining m c c.active_route in
      send_some (record m { world = w }) t (state_values E.floats c ++ distance)

  unfoldable pub emit_clear_deltas : CourseManager W → Clock → CourseManager W
  unfolding send
  emit_clear_deltas m t = send m t (L.map (λ p. path_value p Json.null) course_paths)

  unfoldable pub emit_arrival_notification : CourseManager W → Clock → CourseManager W
  unfolding send
  emit_arrival_notification m t = send m t (
      path_value "notifications.navigation.arrivalCircleEntered" (
        Json.object (
          field "state" (Json.string "alert") (
            field "method"
              (Json.array (cons (Json.string "visual") (cons (Json.string "sound") nil)))
              (field "message" (Json.string "Arrived at destination") end))))
      ∷ [])

  -- Behind a write of the state: emitted where it succeeded.
  unfoldable pub emitted :
      CourseManager W
      → Clock
      → CourseState
      → W × Result Unit PluginError
      → CourseManager W × Result Unit PluginError
  unfolding emit_deltas
  emitted m t c (w, err e) = (record m { world = w }, err e)
  emitted m t c (w, ok u) = (emit_deltas (record m { world = w }) t c, ok tt)

  -- The two steps that end every change: persist and emit.
  unfoldable pub publish :
      CourseManager W → Clock → CourseState → CourseManager W × Result Unit PluginError
  unfolding persist_state emitted
  publish m t c = emitted m t c (persist_state m.state_file (some c) m.world)
