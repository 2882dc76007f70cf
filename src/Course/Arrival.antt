-- ===== src/Course/Arrival.antt =====
-- The arrival at the next point: crates/signalk-server/src/course/manager.rs.
use signalk_rs.Prelude.{
  ℕ, ◌+◌, ◌<◌, ◌≡◌, refl, ap, ◌∙◌, true, false, some, List, String, length, get_elem?,
  if◌then◌else◌, arith,
}
use mathlib.Core.Option.{map}
use signalk_rs.Prelude.Int.{pos}
use signalk_rs.Types.Json.{F64}
use signalk_rs.Types.Float.{zero}
use signalk_rs.Server.{Result, ok, err, PluginError}
use signalk_rs.Course.{
  Position, CoursePoint, ActiveRoute, CourseState, route_point, oriented, course_point, on_active,
  on_route, moved, resolved, shifted, in_range, has_more_waypoints,
}
use signalk_rs.Course as C
use signalk_rs.Course.Manager.{CourseManager, Clock, Env, emit_arrival_notification}
use signalk_rs.Course.Operations.{
  changed, stepped, follow, resolve, advance_next_point, distance, is_inside, arrive, check_at,
  check_arrival,
}
use signalk_rs.Course.Keeps.{publish-Keeps}

module _ (W : Type 0) (E : Env W) where
  -- The course one point further on the route.
  abbrev pub next_on : CourseState → ActiveRoute → List Position → CourseState
  next_on c r points = record c {
    previous_point = c.next_point;
    active_route = some (record r { point_index = r.point_index + 1 });
    next_point =
        map (course_point route_point) (get_elem? (oriented r.reverse points) (r.point_index + 1));
  }

  inside_range : (i total : ℕ) → i < total → in_range (pos i) total ≡ some i
  unfolding in_range
  inside_range i total h = ground (arith, h)

  advance_next_point-next :
      (c : CourseState) (r : ActiveRoute) (points : List Position)
      (resolve : String → Result (List Position) PluginError)
      → c.active_route ≡ some r
      → resolve r.href ≡ ok points
      → r.point_index + 1 < length points
      → C.advance_next_point E.out_of_range (some c) (pos 1) resolve
        ≡ (some (next_on c r points), ok (next_on c r points))
  unfolding C.advance_next_point on_route on_active resolved moved shifted in_range
  advance_next_point-next c r points resolve on found inside =
      let i = r.point_index + 1 in
      ap
        (λ o.
          on_active c o λ c' r'.
            resolved E.out_of_range c' r' (shifted r'.point_index (pos 1)) (resolve r'.href))
        on
      ∙ (ap (resolved E.out_of_range c r (pos i)) found
          ∙ ap (moved E.out_of_range c r (pos i) points) (inside_range i (length points) inside))

  changed-state :
      (m : CourseManager W) (t : Clock) (r : Result CourseState PluginError)
      → (changed W E m t r).0.state ≡ m.state
  unfolding changed
  changed-state m t (err e) = refl
  changed-state m t (ok c) = (publish-Keeps W E m t c).state

  inside_at :
      (circle d : F64)
      → E.floats.is_finite d ≡ true
      → E.floats.le circle d ≡ false
      → is_inside W E circle (some d) ≡ true
  unfolding is_inside
  inside_at circle d finite near = ground (arith, finite, near)

  has_more_at :
      (r : ActiveRoute) (total : ℕ)
      → r.point_total ≡ total
      → r.point_index + 1 < total
      → has_more_waypoints (some r) ≡ true
  unfolding has_more_waypoints
  has_more_at r total e h = ground (arith, e, h)

  check_at-advances :
      (m : CourseManager W) (t : Clock) (c : CourseState)
      → E.floats.le c.arrival_circle zero ≡ false
      → is_inside W E c.arrival_circle (distance W E m) ≡ true
      → has_more_waypoints c.active_route ≡ true
      → check_at W E m t (some c) ≡ ((advance_next_point W E m t (pos 1)).0, true)
  unfolding check_at arrive
  check_at-advances m t c positive inside more =
      ap
        (λ b.
          if b
          then (m, false)
          else if is_inside W E c.arrival_circle (distance W E m)
          then (arrive W E m t c, true)
          else (m, false))
        positive
      ∙ (ap (λ b. if b then (arrive W E m t c, true) else (m, false)) inside
          ∙ ap
              (λ b. (
                if b
                    then (advance_next_point W E m t (pos 1)).0
                    else emit_arrival_notification W E m t,
                true,
              ))
              more)

  -- On the way along a route: when the distance to the next point, as the store has it, is a number
  -- below the arrival circle, the circle is positive, and the route has a further point, then
  -- the check says that the vessel arrived, and the course is one point further on, whether the new
  -- state could be written or not.
  pub check_arrival-next :
      (m : CourseManager W) (t : Clock) (c : CourseState) (r : ActiveRoute) (points : List Position)
      (d : F64)
      → m.state ≡ some c
      → c.active_route ≡ some r
      → resolve W E m r.href ≡ ok points
      → r.point_total ≡ length points
      → r.point_index + 1 < length points
      → E.floats.le c.arrival_circle zero ≡ false
      → distance W E m ≡ some d
      → E.floats.is_finite d ≡ true
      → E.floats.le c.arrival_circle d ≡ false
      → ((check_arrival W E m t).1 ≡ true)
        × ((check_arrival W E m t).0.state ≡ some (next_on c r points))
  unfolding check_arrival advance_next_point follow stepped
  check_arrival-next m t c r points d is on found total inside positive at finite near =
      let arrived =
        ap (check_at W E m t) is
        ∙ check_at-advances m t c positive
            (ap (is_inside W E c.arrival_circle) at ∙ inside_at c.arrival_circle d finite near)
            (ap has_more_waypoints on ∙ has_more_at r (length points) total inside) in
      let step =
        ap (λ s. C.advance_next_point E.out_of_range s (pos 1) (resolve W E m)) is
        ∙ advance_next_point-next c r points (resolve W E m) on found inside in
      (
        ap (λ q. q.1) arrived,
        ap (λ q. q.0.state) arrived
            ∙ (changed-state
                  (stepped W E m
                    (C.advance_next_point E.out_of_range m.state (pos 1) (resolve W E m)).0)
                  t (C.advance_next_point E.out_of_range m.state (pos 1) (resolve W E m)).1
                ∙ ap (λ q. q.0) step),
      )
