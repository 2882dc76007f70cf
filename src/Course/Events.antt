-- ===== src/Course/Events.antt =====
-- Everything that happens to the `CourseManager` of crates/signalk-server/src/course/manager.rs.
use signalk_rs.Prelude.{ℕ, Option, List, [], ◌∷◌, String}
use signalk_rs.Prelude.Int.{ℤ}
use signalk_rs.Types.Json.{F64}
use signalk_rs.Types.Delta.{Delta}
use signalk_rs.Course.Manager.{CourseManager, Clock, Env, DestinationRequest, ActiveRouteRequest}
use signalk_rs.Course.Operations.{
  set_destination, set_active_route, clear, advance_next_point, set_point_index, reverse_route,
  set_target_arrival_time, set_arrival_circle, enable_api_only, disable_api_only, check_arrival,
}
use signalk_rs.Course.Queries.{hear_delta}

module _ (W : Type 0) (E : Env W) where
  -- What a client, the timer or a sentence does.
  pub data Event : Type 0 where
    goes_to : Clock → DestinationRequest → Event
    follows : Clock → ActiveRouteRequest → Event
    clears : Clock → Event
    advances : Clock → ℤ → Event
    jumps : Clock → ℕ → Event
    reverses : Clock → Event
    times : Clock → Option String → Event
    circles : Clock → F64 → Event
    enables : Clock → Event
    disables : Event
    checks : Clock → Event
    hears : (ℕ → ℕ → Clock) → Delta → Event

  unfoldable pub handle : CourseManager W → Event → CourseManager W
  unfolding set_destination set_active_route clear advance_next_point set_point_index reverse_route
      set_target_arrival_time set_arrival_circle enable_api_only disable_api_only check_arrival
      hear_delta
  handle m (goes_to t req) = (set_destination W E m t req).0
  handle m (follows t req) = (set_active_route W E m t req).0
  handle m (clears t) = (clear W E m t).0
  handle m (advances t delta) = (advance_next_point W E m t delta).0
  handle m (jumps t index) = (set_point_index W E m t index).0
  handle m (reverses t) = (reverse_route W E m t).0
  handle m (times t time) = (set_target_arrival_time W E m t time).0
  handle m (circles t radius) = (set_arrival_circle W E m t radius).0
  handle m (enables t) = enable_api_only W E m t
  handle m disables = disable_api_only W E m
  handle m (checks t) = (check_arrival W E m t).0
  handle m (hears t delta) = hear_delta W E m t delta

  unfoldable pub run : CourseManager W → List Event → CourseManager W
  unfolding handle
  run m [] = m
  run m (e ∷ es) = run (handle m e) es
