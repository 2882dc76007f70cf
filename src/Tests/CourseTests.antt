-- ===== src/Tests/CourseTests.antt =====
-- crates/signalk-server/src/course/manager.rs on a route of three points.
use signalk_rs.Prelude.{ℕ, refl, false, none, some, List, [], ◌∷◌, String}
use signalk_rs.Prelude.Int.{ℤ, pos, negsuc}
use signalk_rs.Course.{
  Position, CourseState, ActiveRoute, route_point, oriented, course_point, started,
  set_active_route,
}
use signalk_rs.Course.Follow.{Call, advances, jumps, reverses, run, IsOnRoute, run-IsOnRoute}

abbrev out_of_range : ℤ → ℕ → String
out_of_range index total = "Point index out of range"

abbrev at : ℕ → Position
at n = record { latitude = n; longitude = n; altitude = none }

abbrev points : List Position
points = at 1 ∷ at 2 ∷ at 3 ∷ []

abbrev route : ActiveRoute
route = record {
  href = "/resources/routes/bay";
  reverse = false;
  point_index = 0;
  point_total = 3;
  name = none;
  waypoints = none;
}

abbrev course : CourseState
course = record {
  start_time = some "2026-01-01T00:00:00Z";
  target_arrival_time = none;
  arrival_circle = 0;
  active_route = some route;
  next_point = some (record { type_ = route_point; position = at 1; href = none });
  previous_point = none;
}

abbrev calls : List (Call out_of_range points)
calls = advances (pos 1) ∷ reverses ∷ advances (negsuc 0) ∷ jumps 2 ∷ []

run-IsOnRoute_example : IsOnRoute points (run out_of_range points (some course) calls)
unfolding set_active_route started oriented course_point
run-IsOnRoute_example =
    run-IsOnRoute out_of_range points none "/resources/routes/bay" false "2026-01-01T00:00:00Z" none
      course calls refl
