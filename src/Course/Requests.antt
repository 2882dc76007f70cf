-- ===== src/Course/Requests.antt =====
-- The requests of a client to change the course (crates/signalk-server/src/course/manager.rs), and
-- what a step on a route hands out.
use signalk_rs.Prelude.{ℕ, ◌≡◌, refl, Option, none, some, List, String}
use signalk_rs.Prelude.Int.{ℤ}
use signalk_rs.Types.Json.{F64}
use signalk_rs.Server.{Result, ok, err, PluginError}
use signalk_rs.Course.{
  Position, ActiveRoute, CourseState, on_active, on_route, moved, resolved, restart,
}
use signalk_rs.Course.Manager.{CourseManager, Clock, Env, DestinationRequest, ActiveRouteRequest}
use signalk_rs.Course.Operations.{
  set_destination, set_active_route, advance_next_point, set_point_index, reverse_route,
  set_target_arrival_time, set_arrival_circle,
}

-- On success the state behind a step is the one that it hands out.
abbrev pub Agrees : Option CourseState × Result CourseState PluginError → Type 0
Agrees (s, err e) = Unit
Agrees (s, ok c) = s ≡ some c

on_active-Agrees :
    (c : CourseState) (o : Option ActiveRoute)
    (step : CourseState → ActiveRoute → Option CourseState × Result CourseState PluginError)
    → ((r : ActiveRoute) → Agrees (step c r))
    → Agrees (on_active c o step)
unfolding on_active
on_active-Agrees c none step agrees = tt
on_active-Agrees c (some r) step agrees = agrees r

pub on_route-Agrees :
    (s : Option CourseState)
    (step : CourseState → ActiveRoute → Option CourseState × Result CourseState PluginError)
    → ((c : CourseState) (r : ActiveRoute) → Agrees (step c r))
    → Agrees (on_route s step)
unfolding on_route
on_route-Agrees none step agrees = tt
on_route-Agrees (some c) step agrees = on_active-Agrees c c.active_route step (agrees c)

moved-Agrees :
    (text : ℤ → ℕ → String) (c : CourseState) (r : ActiveRoute) (index : ℤ) (points : List Position)
    (o : Option ℕ)
    → Agrees (moved text c r index points o)
unfolding moved
moved-Agrees text c r index points none = tt
moved-Agrees text c r index points (some i) = refl

pub resolved-Agrees :
    (text : ℤ → ℕ → String) (c : CourseState) (r : ActiveRoute) (index : ℤ)
    (points : Result (List Position) PluginError)
    → Agrees (resolved text c r index points)
unfolding resolved
resolved-Agrees text c r index (err e) = tt
resolved-Agrees text c r index (ok points) = moved-Agrees text c r index points _

pub restart-Agrees :
    (c : CourseState) (r : ActiveRoute) (points : Result (List Position) PluginError)
    → Agrees (restart c r points)
unfolding restart
restart-Agrees c r (err e) = tt
restart-Agrees c r (ok points) = refl

-- A request that can change the course.
pub data Request : Type 0 where
  goes_to : DestinationRequest → Request
  follows : ActiveRouteRequest → Request
  advances : ℤ → Request
  jumps : ℕ → Request
  reverses : Request
  times : Option String → Request
  circles : F64 → Request

module _ (W : Type 0) (E : Env W) where
  unfoldable pub answer :
      CourseManager W → Clock → Request → CourseManager W × Result Unit PluginError
  unfolding set_destination set_active_route advance_next_point set_point_index reverse_route
      set_target_arrival_time set_arrival_circle
  answer m t (goes_to req) = set_destination W E m t req
  answer m t (follows req) = set_active_route W E m t req
  answer m t (advances delta) = advance_next_point W E m t delta
  answer m t (jumps index) = set_point_index W E m t index
  answer m t reverses = reverse_route W E m t
  answer m t (times time) = set_target_arrival_time W E m t time
  answer m t (circles radius) = set_arrival_circle W E m t radius
