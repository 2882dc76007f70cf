-- ===== src/Course/Failed.antt =====
-- Requests of crates/signalk-server/src/course/manager.rs that fail.
use signalk_rs.Prelude.{
  ℕ, ◌<◌, ◌≡◌, refl, ap, ◌∙◌, ◌⊎◌, inl, inr, Option, some, List, String, subst, length, get_elem?,
  arith,
}
use mathlib.Core.Option.{map}
use signalk_rs.Prelude.Int.{ℤ, pos}
use signalk_rs.Server.{Result, ok, err, PluginError}
use signalk_rs.Course.{
  Position, ActiveRoute, CourseState, route_point, oriented, course_point, on_active, on_route,
  moved, resolved, shifted, in_range,
}
use signalk_rs.Course as C
use signalk_rs.Course.Manager.{
  CourseManager, api, Clock, Env, DestinationRequest, ActiveRouteRequest, emitted, publish,
  persist_state,
}
use signalk_rs.Course.Operations.{
  adopted, apply_state, apply_result, directed, set_destination, routed, set_active_route, changed,
  stepped, follow, advance_next_point, resolve,
}

-- The course in memory, its source, the configuration and the store are the same.
pub record Untouched (W : Type 0) (m m' : CourseManager W) : Type 0 where
  pub state : m'.state ≡ m.state
  pub source : m'.source ≡ m.source
  pub config : m'.config ≡ m.config
  pub store : m'.store ≡ m.store

module _ (W : Type 0) (E : Env W) where
  -- A request for a new course: to a position, or along a route.
  unfoldable pub begin :
      CourseManager W
      → Clock
      → DestinationRequest ⊎ ActiveRouteRequest
      → CourseManager W × Result Unit PluginError
  unfolding set_destination set_active_route
  begin m t (inl req) = set_destination W E m t req
  begin m t (inr req) = set_active_route W E m t req

  abbrev untouched : (m : CourseManager W) (w : W) → Untouched W m (record m { world = w })
  untouched m w = record { state = refl; source = refl; config = refl; store = refl }

  IsAtomic : CourseManager W → CourseManager W × Result Unit PluginError → Type 0
  IsAtomic m (m', err e) = Untouched W m m'
  IsAtomic m (m', ok u) = Unit

  emitted-IsAtomic :
      (m : CourseManager W) (old : W) (t : Clock) (c : CourseState)
      (r : W × Result Unit PluginError)
      → IsAtomic m (adopted W E api c (emitted W E (record m { world = old }) t c r))
  unfolding emitted adopted IsAtomic
  emitted-IsAtomic m old t c (w, err e) = untouched m w
  emitted-IsAtomic m old t c (w, ok u) = tt

  apply_result-IsAtomic :
      (m : CourseManager W) (t : Clock) (w : W) (r : Result CourseState PluginError)
      → IsAtomic m (apply_result W E (record m { world = w }) t r)
  unfolding apply_result apply_state publish IsAtomic
  apply_result-IsAtomic m t w (err e) = untouched m w
  apply_result-IsAtomic m t w (ok c) =
      emitted-IsAtomic m w t c (persist_state W E m.state_file (some c) w)

  directed-IsAtomic :
      (m : CourseManager W) (t : Clock) (href : Option String) (r : W × Result Position PluginError)
      → IsAtomic m (directed W E m t href r)
  unfolding directed
  directed-IsAtomic m t href (w, r) = apply_result-IsAtomic m t w _

  routed-IsAtomic :
      (m : CourseManager W) (t : Clock) (req : ActiveRouteRequest)
      (r : W × Result (List Position) PluginError)
      → IsAtomic m (routed W E m t req r)
  unfolding routed
  routed-IsAtomic m t req (w, r) = apply_result-IsAtomic m t w _

  begin-IsAtomic :
      (m : CourseManager W) (t : Clock) (req : DestinationRequest ⊎ ActiveRouteRequest)
      → IsAtomic m (begin m t req)
  unfolding begin set_destination set_active_route
  begin-IsAtomic m t (inl req) = directed-IsAtomic m t req.href _
  begin-IsAtomic m t (inr req) = routed-IsAtomic m t req _

  -- When a request for a new course fails, for whatever reason, the course in memory, its source,
  -- the configuration and the store are as they were.
  pub begin-failed :
      (m m' : CourseManager W) (t : Clock) (req : DestinationRequest ⊎ ActiveRouteRequest)
      (e : PluginError)
      → begin m t req ≡ (m', err e)
      → Untouched W m m'
  unfolding IsAtomic
  begin-failed m m' t req e failed = subst (IsAtomic m) failed (begin-IsAtomic m t req)

  emitted-unsaved :
      (m : CourseManager W) (t : Clock) (c : CourseState) (e : PluginError)
      (r : W × Result Unit PluginError)
      → r.1 ≡ err e
      → ((emitted W E m t c r).0.state ≡ m.state)
        × ((emitted W E m t c r).0.store ≡ m.store)
        × ((emitted W E m t c r).1 ≡ err e)
  unfolding emitted
  emitted-unsaved m t c e (w, err e') is = (refl, refl, is)
  emitted-unsaved m t c e (w, ok u) is = absurd (cc)

  -- The course at another point of its route.
  abbrev pub at_point : CourseState → ActiveRoute → List Position → ℕ → CourseState
  at_point c r points i = record c {
    previous_point = c.next_point;
    active_route = some (record r { point_index = i });
    next_point = map (course_point route_point) (get_elem? (oriented r.reverse points) i);
  }

  inside_range : (i total : ℕ) → i < total → in_range (pos i) total ≡ some i
  unfolding in_range
  inside_range i total h = ground (arith, h)

  advance_next_point-at_point :
      (c : CourseState) (r : ActiveRoute) (points : List Position) (delta : ℤ) (i : ℕ)
      (resolve_href : String → Result (List Position) PluginError)
      → c.active_route ≡ some r
      → resolve_href r.href ≡ ok points
      → shifted r.point_index delta ≡ pos i
      → i < length points
      → C.advance_next_point E.out_of_range (some c) delta resolve_href
        ≡ (some (at_point c r points i), ok (at_point c r points i))
  unfolding C.advance_next_point on_route on_active resolved moved
  advance_next_point-at_point c r points delta i resolve_href on found to inside =
      ap
        (λ o. on_active c o λ c' r'.
          resolved E.out_of_range c' r' (shifted r'.point_index delta) (resolve_href r'.href))
        on
      ∙ (ap (λ j. resolved E.out_of_range c r j (resolve_href r.href)) to
          ∙ (ap (resolved E.out_of_range c r (pos i)) found
              ∙ ap (moved E.out_of_range c r (pos i) points)
                  (inside_range i (length points) inside)))

  -- When the course is on a route, and the point asked for is one of the route's, but the new state
  -- cannot be written to the file: the request fails and the store is as it was, but the course in
  -- memory is at the point asked for: with its index, with it as the next point, and with the next
  -- point of before as the previous one.
  pub advance_next_point-unsaved :
      (m : CourseManager W) (t : Clock) (delta : ℤ) (c : CourseState) (r : ActiveRoute)
      (points : List Position) (i : ℕ) (e : PluginError)
      → m.state ≡ some c
      → c.active_route ≡ some r
      → resolve W E m r.href ≡ ok points
      → shifted r.point_index delta ≡ pos i
      → i < length points
      → ((c' : CourseState) (w : W) → (persist_state W E m.state_file (some c') w).1 ≡ err e)
      → ((advance_next_point W E m t delta).0.state ≡ some (at_point c r points i))
        × ((advance_next_point W E m t delta).0.store ≡ m.store)
        × ((advance_next_point W E m t delta).1 ≡ err e)
  unfolding advance_next_point follow changed publish stepped
  advance_next_point-unsaved m t delta c r points i e is on found to inside failed =
      let step =
        ap (λ s. C.advance_next_point E.out_of_range s delta (resolve W E m)) is
        ∙ advance_next_point-at_point c r points delta i (resolve W E m) on found to inside in
      rw step (
        emitted-unsaved (stepped W E m (some (at_point c r points i))) t (at_point c r points i) e _
          (failed (at_point c r points i) _))
