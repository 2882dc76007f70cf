-- ===== src/Course/Follow.antt =====
-- The place on a route: crates/signalk-server/src/course/manager.rs.
use signalk_rs.Prelude.{
  ℕ, ◌<◌, ◌≡◌, refl, ap, ◌∙◌, Bool, true, false, not, Option, none, some, List, [], ◌∷◌, String,
  length, length-reverse, get_elem?, arith, subst,
}
use mathlib.Core.Option.{map}
use signalk_rs.Prelude.Int.{ℤ, pos, negsuc}
use signalk_rs.Server.{Result, ok, err, PluginError}
use signalk_rs.Course.{
  Position, CoursePoint, ActiveRoute, CourseState, route_point, oriented, course_point,
  set_active_route, started, shifted, in_range, moved, resolved, on_active, on_route,
  advance_next_point, set_point_index, restart, reverse_route,
}

-- The next point is the route's point at the index, in the direction of travel, and there is one.
abbrev IsAt : List Position → ActiveRoute → Option CoursePoint → Type 0
IsAt points r next =
    (r.point_index < length points)
    × (next ≡ map (course_point route_point) (get_elem? (oriented r.reverse points) r.point_index))

abbrev IsRouteAt : List Position → Option ActiveRoute → Option CoursePoint → Type 0
IsRouteAt points none next = Unit
IsRouteAt points (some r) next = IsAt points r next

abbrev pub IsOnRoute : List Position → Option CourseState → Type 0
IsOnRoute points none = Unit
IsOnRoute points (some c) = IsRouteAt points c.active_route c.next_point

in_range-lt : (index : ℤ) (total i : ℕ) → in_range index total ≡ some i → i < total
unfolding in_range
in_range-lt (pos n) total i e = ground (arith, e)
in_range-lt (negsuc n) total i e = absurd (cc)

module _ (out_of_range : ℤ → ℕ → String) (points : List Position) where
  moved-IsOnRoute :
      (c : CourseState) (r : ActiveRoute) (index : ℤ) (o : Option ℕ)
      → ((i : ℕ) → o ≡ some i → i < length points)
      → IsOnRoute points (some c)
      → IsOnRoute points (moved out_of_range c r index points o).0
  unfolding moved
  moved-IsOnRoute c r index none inside h = h
  moved-IsOnRoute c r index (some i) inside h = (inside i refl, refl)

  on_active-IsOnRoute :
      (c : CourseState) (o : Option ActiveRoute)
      (step : CourseState → ActiveRoute → Option CourseState × Result CourseState PluginError)
      → ((r : ActiveRoute) → IsOnRoute points (step c r).0)
      → IsOnRoute points (some c)
      → IsOnRoute points (on_active c o step).0
  unfolding on_active
  on_active-IsOnRoute c none step keeps h = h
  on_active-IsOnRoute c (some r) step keeps h = keeps r

  on_route-IsOnRoute :
      (s : Option CourseState)
      (step : CourseState → ActiveRoute → Option CourseState × Result CourseState PluginError)
      → ((c : CourseState) (r : ActiveRoute)
          → IsOnRoute points (some c)
          → IsOnRoute points (step c r).0)
      → IsOnRoute points s
      → IsOnRoute points (on_route s step).0
  unfolding on_route
  on_route-IsOnRoute none step keeps h = tt
  on_route-IsOnRoute (some c) step keeps h =
      on_active-IsOnRoute c c.active_route step (λ r. keeps c r h) h

  -- What the client asks for, while the route's points stay the same.
  pub data Call : Type 0 where
    advances : ℤ → Call
    jumps : ℕ → Call
    reverses : Call

  unfoldable pub call : Option CourseState → Call → Option CourseState
  call s (advances delta) = (advance_next_point out_of_range s delta (λ href. ok points)).0
  call s (jumps index) = (set_point_index out_of_range s index (λ href. ok points)).0
  call s reverses = (reverse_route s (λ href. ok points)).0

  unfoldable pub run : Option CourseState → List Call → Option CourseState
  run s [] = s
  run s (c ∷ cs) = run (call s c) cs

  call-IsOnRoute :
      (s : Option CourseState) (c : Call)
      → 0 < length points
      → IsOnRoute points s
      → IsOnRoute points (call s c)
  unfolding call advance_next_point set_point_index reverse_route resolved restart
  call-IsOnRoute s (advances delta) some_points h =
      on_route-IsOnRoute s _
        (λ c r. moved-IsOnRoute c r (shifted r.point_index delta) _ (in_range-lt _ (length points)))
        h
  call-IsOnRoute s (jumps index) some_points h =
      on_route-IsOnRoute s _
        (λ c r. moved-IsOnRoute c r (pos index) _ (in_range-lt (pos index) (length points))) h
  call-IsOnRoute s reverses some_points h = on_route-IsOnRoute s _ (λ c r k. (some_points, refl)) h

  run_keeps :
      (s : Option CourseState) (cs : List Call)
      → 0 < length points
      → IsOnRoute points s
      → IsOnRoute points (run s cs)
  unfolding run
  run_keeps s [] some_points h = h
  run_keeps s (c ∷ cs) some_points h =
      run_keeps (call s c) cs some_points (call-IsOnRoute s c some_points h)

  length-oriented : (reversed : Bool) → length (oriented reversed points) ≡ length points
  unfolding oriented
  length-oriented true = length-reverse points
  length-oriented false = refl

  -- On success the course is on the route.
  StartedOn : Result CourseState PluginError → Type 0
  StartedOn (err e) = Unit
  StartedOn (ok c) = (0 < length points) × IsOnRoute points (some c)

  started-StartedOn :
      (s : Option CourseState) (href : String) (reversed : Bool) (now : String)
      (vessel : Option Position) (qs : List Position)
      → oriented reversed points ≡ qs
      → StartedOn (started s href reversed now vessel qs)
  unfolding started StartedOn
  started-StartedOn s href reversed now vessel [] e = tt
  started-StartedOn s href reversed now vessel (p ∷ ps) e =
      let some_points : 0 < length points = omega (arith, length-oriented reversed, ap length e) in
      (some_points, (some_points, rw e refl))

  -- As long as the route's points stay the same: once a route was started, and after any calls to
  -- advance, to jump or to reverse, whether they succeed or not, the index of the next point is one
  -- of the route's, and the next point is the route's point at that index in the direction of travel.
  pub run-IsOnRoute :
      (s : Option CourseState) (href : String) (reversed : Bool) (now : String)
      (vessel : Option Position) (c : CourseState) (cs : List Call)
      → set_active_route s href reversed (ok points) now vessel ≡ ok c
      → IsOnRoute points (run (some c) cs)
  unfolding set_active_route StartedOn
  run-IsOnRoute s href reversed now vessel c cs e =
      let start = started-StartedOn s href reversed now vessel (oriented reversed points) refl in
      let (some_points, on) : (0 < length points) × IsOnRoute points (some c) =
        subst StartedOn e start in
      run_keeps (some c) cs some_points on

-- When the route of the course cannot be resolved, reversing it fails with the error of the
-- resolution, but the direction is changed all the same: the index and the next point stay those of
-- the old direction.
reverse_route-unresolved :
    (c : CourseState) (r : ActiveRoute) (resolve : String → Result (List Position) PluginError)
    (e : PluginError)
    → c.active_route ≡ some r
    → resolve r.href ≡ err e
    → reverse_route (some c) resolve
      ≡ (some (record c { active_route = some (record r { reverse = not r.reverse }) }), err e)
unfolding reverse_route on_route on_active restart
reverse_route-unresolved c r resolve e active failed =
    ap (λ o. on_active c o λ d q. restart d (record q { reverse = not q.reverse }) (resolve q.href))
      active
    ∙ ap (restart c (record r { reverse = not r.reverse })) failed
