-- ===== src/Tests/ManagerTests.antt =====
-- The whole course manager (crates/signalk-server/src/course/manager.rs) over a file system of one
-- file and a route of three points. Floats are whole numbers here.
use signalk_rs.Prelude.{
  All, ℕ, ◌+◌, ◌-◌, ◌*◌, ◌≡◌, refl, sym, ap, arith, inl, true, false, Option, none, some, List, [],
  ◌∷◌, String, ltb, leb, unwrap_or, ◌>>=◌, ◌<>◌,
}
use mathlib.Core.Option.{map}
use signalk_rs.Prelude.Int.{pos}
use signalk_rs.Types.Json.{Json, Number, F64, cons, nil, field, end}
use signalk_rs.Types.Float.{FloatOps}
use signalk_rs.Types.Full.{sk_value}
use signalk_rs.Store.{SignalKStore, apply_delta, get_self_path, get_vessel_path}
use signalk_rs.Store as Store
use signalk_rs.Server.{Result, ok, err, PluginError, runtime}
use signalk_rs.Server.Resources.{ResourceProvider, ResourceProviderRegistry}
use signalk_rs.Course.{Position, CourseState, ActiveRoute}
use signalk_rs.Course as C
use signalk_rs.Course.Emit.{course_manager}
use signalk_rs.Course.Resolve.{parse_resource_href, ask_parsed, route_points, resolve_route_points}
use signalk_rs.Course.Manager.{
  CourseManager, Clock, Env, Files, Serde, DestinationRequest, ActiveRouteRequest, new,
  direct_course, persist_state,
}
use signalk_rs.Course.Operations.{
  clear, set_destination, set_active_route, enable_api_only, disable_api_only, advance_next_point,
  check_arrival, distance,
}
use signalk_rs.Course.Queries.{load, hear_delta}
use signalk_rs.Course.Events.{Event, goes_to, clears, enables, disables, hears, run}
use signalk_rs.Types.Delta.{Delta}
use signalk_rs.Course.Requests.{Request, answer}
use signalk_rs.Course.Requests as R
use signalk_rs.Course.Sources.{run-IsSourced}
use signalk_rs.Course.Restart.{answer-load}
use signalk_rs.Course.Failed.{Untouched, begin, begin-failed, at_point, advance_next_point-unsaved}
use signalk_rs.Course.Told.{told, clear-null}
use signalk_rs.Course.Stale.{href_path, set_destination-stale_route}
use signalk_rs.Course.Arrival.{next_on, check_arrival-next}

-- The content of the file.
abbrev World : Type 0
World = Option String

abbrev number_of : Json → Option F64
number_of (Json.number (Number.pos_int n)) = some n
number_of _ = none

abbrev floats : FloatOps
floats = record {
  lt = ltb;
  le = leb;
  is_finite = λ a. true;
  add = λ a b. a + b;
  sub = λ a b. a - b;
  mul = λ a b. a * b;
  div = λ a b. a;
  rem_euclid = λ a b. a;
  sqrt = λ a. a;
  sin = λ a. a;
  cos = λ a. a;
  asin = λ a. a;
  atan2 = λ a b. a;
  powi = λ a n. a;
  to_radians = λ a. a;
  abs = λ a. a;
  neg = λ a. a;
  signum = λ a. 1;
  max = λ a b. a + (b - a);
  powf = λ a b. a;
  ne = λ a b. false;
  clamp = λ x lo hi. x;
  sum = λ l. 0;
  as_f64 = number_of;
  value = λ a. Json.number (Number.pos_int a);
}

abbrev at : ℕ → Position
at n = record { latitude = n; longitude = n; altitude = none }

abbrev to_one : String → CourseState
to_one now = direct_course now 0 none none (at 1)

abbrev read : String → World → Result String String
read f none = err "No such file"
read f (some text) = ok text

-- A disk that takes the file, and one that is full.
abbrev disk : Files World
disk = record {
  parent = λ f. some "/data/course";
  create_dir_all = λ d w. (w, ok tt);
  read_to_string = read;
  write = λ f text w. (some text, ok tt);
  remove_file = λ f w. (none, ok tt);
}

abbrev full_disk : Files World
full_disk = record disk { write = λ f text w. (w, err "No space left on device") }

-- A course is printed as its time of start.
abbrev serde : Serde
serde = record {
  to_string_pretty = λ c. ok (unwrap_or c.start_time "");
  from_str = λ text. ok (to_one text);
  position_of = λ v. map at (number_of v);
}

abbrev env : Files World → Env World
env files = record {
  floats = floats;
  serde = serde;
  files = files;
  display = λ v. "";
  out_of_range = λ index total. "Point index out of range";
}

abbrev lon_lat : ℕ → Json
lon_lat n =
    Json.array (cons (Json.number (Number.pos_int n)) (cons (Json.number (Number.pos_int n)) nil))

abbrev bay : Json
bay = Json.object (
    field "coordinates" (Json.array (cons (lon_lat 1) (cons (lon_lat 2) (cons (lon_lat 3) nil))))
      end)

abbrev files : ResourceProvider World
files = record {
  list = λ t q w. (w, ok Json.null);
  get = λ t id w. (w, ok (some bay));
  create = λ t v w. (w, ok "");
  update = λ t id v w. (w, ok tt);
  delete = λ t id w. (w, ok tt);
}

abbrev providers : ResourceProviderRegistry World
providers = record { providers = []; default_create_provider = []; file_provider = files }

abbrev own : String
own = "urn:mrn:imo:mmsi:244000001"

abbrev store : SignalKStore
store = Store.new own

abbrev clock : Clock
clock = record { rfc3339 = "2026-01-01T00:00:00Z"; now = 5; store = λ i j. 5 }

abbrev start : CourseManager World
start = new World store "/data/course/state.json" providers none

abbrev to_bay : ActiveRouteRequest
to_bay = record { href = "/resources/routes/bay"; reverse = false }

abbrev to_point : DestinationRequest
to_point = record { position = some (at 1); href = none }

-- A sentence with a destination, heard after a course of the API was cleared.
abbrev sentence : Delta
sentence = record {
  context = some "vessels.self";
  updates =
      record {
        source = record { label = "gps"; type_ = "NMEA0183"; extra = [] };
        timestamp = 0;
        values =
            record {
              path = "navigation.courseGreatCircle.nextPoint.position";
              value = Json.number (Number.pos_int 7);
            }
            ∷ [];
      }
      ∷ [];
}

abbrev events : List (Event World (env disk))
events =
    goes_to clock to_point
    ∷ enables clock
    ∷ clears clock
    ∷ disables
    ∷ hears (λ i j. clock) sentence
    ∷ []

abbrev heard_manager : CourseManager World
heard_manager = run World (env disk) (load World (env disk) start clock) events

run-IsSourced_example :
    (heard_manager.config.api_only ≡ false) × ((heard_manager.state >>= λ c. c.active_route) ≡ none)
unfolding run load new Store.new hear_delta set_destination clear enable_api_only disable_api_only
run-IsSourced_example =
    run-IsSourced World (env disk) store "/data/course/state.json" providers none clock events refl

-- The provider leaves the file.
asked :
    (missing : PluginError) (use_found : Json → Result (List Position) PluginError)
    (r : Result (String × String) PluginError) (w : World)
    → (ask_parsed floats World providers missing use_found r w).0 ≡ w
unfolding ask_parsed
asked missing use_found (err e) w = refl
asked missing use_found (ok (t, id)) w = refl

abbrev parse_printed : Result String String → Result CourseState String
parse_printed (err e) = err e
parse_printed (ok text) = ok (to_one text)

abbrev now : String
now = "2026-01-01T00:00:00Z"

answer-load_example :
    (load World
      (env disk)
      (new World store "/data/course/state.json" providers
        (answer World (env disk) start clock (R.goes_to to_point)).0.world)
      clock).state
    ≡ some (to_one now)
unfolding answer new Store.new resolve_route_points
answer-load_example =
    answer-load World (env disk) start (answer World (env disk) start clock (R.goes_to to_point)).0
      clock clock (R.goes_to to_point) (to_one now) store providers
      (λ text w w' e. ap (λ q. read "" q.0) (sym e))
      (λ href w. ap (read "") (
        asked (runtime ("Route not found: " <> href)) (route_points floats href)
          (parse_resource_href href) w))
      (λ text e. ap parse_printed (sym e)) refl refl

begin-failed_example :
    Untouched World start (begin World (env full_disk) start clock (inl to_point)).0
unfolding begin new Store.new
begin-failed_example =
    begin-failed World (env full_disk) start
      (begin World (env full_disk) start clock (inl to_point)).0 clock (inl to_point)
      (runtime "write course state: No space left on device") refl

-- On the way to the first of three points.
abbrev route : ActiveRoute
route = record {
  href = "/resources/routes/bay";
  reverse = false;
  point_index = 0;
  point_total = 3;
  name = none;
  waypoints = none;
}

abbrev course : CourseState
course = record (to_one now) { arrival_circle = 50; active_route = some route }

abbrev sailing : CourseManager World
sailing = record start { state = some course }

abbrev points : List Position
points = at 1 ∷ at 2 ∷ at 3 ∷ []

advance_next_point-unsaved_example :
    ((advance_next_point World (env full_disk) sailing clock (pos 1)).0.state
      ≡ some (at_point World (env full_disk) course route points 1))
    × ((advance_next_point World (env full_disk) sailing clock (pos 1)).0.store ≡ sailing.store)
    × ((advance_next_point World (env full_disk) sailing clock (pos 1)).1
        ≡ err (runtime "write course state: No space left on device"))
unfolding persist_state resolve_route_points new C.shifted
advance_next_point-unsaved_example =
    advance_next_point-unsaved World (env full_disk) sailing clock (pos 1) course route points 1
      (runtime "write course state: No space left on device") refl refl refl refl (omega arith)
      (λ c w. refl)

-- The store tells of the course along the bay, and then the course is cleared.
abbrev along : CourseManager World
along = (set_active_route World (env disk) start clock to_bay).0

clear-null_example :
    All
      (λ pv.
        map
          (λ sv. sv.value)
          (get_vessel_path
            (clear World (env disk) along clock).0.store
            along.store.self_uri
            pv.path)
        ≡ some Json.null)
      (told World (env disk) along course)
    × ((clear World (env disk) along clock).0.state ≡ none)
unfolding clear Store.new new set_active_route resolve_route_points apply_delta
clear-null_example =
    clear-null World (env disk) along (clear World (env disk) along clock).0 along clock course refl
      refl

set_destination-stale_route_example :
    (map
        (λ sv. sv.value)
        (get_vessel_path
          (set_destination World (env disk) along clock to_point).0.store
          own
          href_path)
      ≡ some (Json.string "/resources/routes/bay"))
    × (((set_destination World (env disk) along clock to_point).0.state >>= λ c. c.active_route)
        ≡ none)
unfolding set_destination Store.new new set_active_route resolve_route_points
set_destination-stale_route_example =
    set_destination-stale_route World (env disk) start along
      (set_destination World (env disk) along clock to_point).0 clock clock to_bay to_point refl
      refl refl

-- The store with a distance of 20 to the next point.
abbrev near : CourseManager World
near = record sailing {
  store =
      Store.set_self_path (λ v. "") store "navigation.course.calcValues.nextPoint.distance"
        (Json.number (Number.pos_int 20)) course_manager 5;
}

check_arrival-next_example :
    ((check_arrival World (env disk) near clock).1 ≡ true)
    × ((check_arrival World (env disk) near clock).0.state
        ≡ some (next_on World (env disk) course route points))
unfolding new Store.new resolve_route_points distance Store.set_self_path Store.value_at sk_value
check_arrival-next_example =
    check_arrival-next World (env disk) near clock course route points 20 refl refl refl refl
      (omega arith) refl refl refl refl
