-- ===== src/Course/Sources.antt =====
-- Where the course comes from: crates/signalk-server/src/course/manager.rs. With the API only, no
-- course is an NMEA sentence's, and such a course has no route.
use signalk_rs.Prelude.{
  ℕ, ◌+◌, ◌≡◌, refl, ◌∙◌, ◌>>=◌, Bool, true, false, Option, none, some, List, [], ◌∷◌, String, ◌==◌,
  if◌then◌else◌,
}
use signalk_rs.Prelude.Int.{pos}
use signalk_rs.Types.Float.{zero}
use signalk_rs.Types.Delta.{PathValue, Update}
use signalk_rs.Store.{SignalKStore}
use signalk_rs.Server.Resources.{ResourceProviderRegistry}
use signalk_rs.Course.{Position, ActiveRoute, CourseState, on_active, on_route, has_more_waypoints}
use signalk_rs.Course as C
use signalk_rs.Course.Manager.{
  CourseSource, api, nmea, CourseManager, Clock, Env, new, send, emit_arrival_notification,
  persist_state,
}
use signalk_rs.Course.Operations.{
  set_destination, set_active_route, clear, advance_next_point, set_point_index, reverse_route,
  set_target_arrival_time, set_arrival_circle, enable_api_only, disable_api_only,
  apply_nmea_position, arrive, check_at, check_arrival, is_inside, distance,
}
use signalk_rs.Server.{Result, ok, err}
use signalk_rs.Course.Keeps.{emit_deltas-Keeps}
use signalk_rs.Course.Queries.{
  load, take_up, restored, hear_delta, hear_updates, hear_values, hear_value, hear_position,
}
use signalk_rs.Course.Events.{
  Event, goes_to, follows, clears, advances, jumps, reverses, times, circles, enables, disables,
  checks, hears, handle, run,
}
use signalk_rs.Course.Sourced.{
  IsSourced, IsSourcedBy, IsSourcedBy-changed, follow-IsSourced, advance_next_point-IsSourced,
  cleared-IsSourced, directed-IsSourced, routed-IsSourced, timed-IsSourced, circled-IsSourced,
  drop_nmea-IsSourced, allowed-IsSourcedBy, heard-IsSourced,
}

module _ (W : Type 0) (E : Env W) where
  hear_position-IsSourced :
      (m : CourseManager W) (t : Clock) (p : Option Position)
      → IsSourced W m
      → IsSourced W (hear_position W E m t p)
  unfolding hear_position apply_nmea_position
  hear_position-IsSourced m t none h = h
  hear_position-IsSourced m t (some p) h = heard-IsSourced W E m t p m.config.api_only refl h

  -- A choice by a test keeps what both sides have.
  either-IsSourced :
      (b : Bool) (m m' : CourseManager W)
      → IsSourced W m
      → IsSourced W m'
      → IsSourced W (if b then m else m')
  either-IsSourced true m m' h h' = h
  either-IsSourced false m m' h h' = h'

  hear_values-IsSourced :
      (m : CourseManager W) (t : ℕ → Clock) (pvs : List PathValue)
      → IsSourced W m
      → IsSourced W (hear_values W E m t pvs)
  unfolding hear_values hear_value
  hear_values-IsSourced m t [] h = h
  hear_values-IsSourced m t (pv ∷ pvs) h =
      hear_values-IsSourced (hear_value W E m (t 0) pv) (λ i. t (i + 1)) pvs
        (either-IsSourced _ (hear_position W E m (t 0) _) m (hear_position-IsSourced m (t 0) _ h) h)

  hear_updates-IsSourced :
      (m : CourseManager W) (t : ℕ → ℕ → Clock) (us : List Update)
      → IsSourced W m
      → IsSourced W (hear_updates W E m t us)
  unfolding hear_updates
  hear_updates-IsSourced m t [] h = h
  hear_updates-IsSourced m t (u ∷ us) h =
      hear_updates-IsSourced
        (if u.source.label == "course-manager" then m else hear_values W E m (t 0) u.values)
        (λ i. t (i + 1)) us
        (either-IsSourced (u.source.label == "course-manager") m (hear_values W E m (t 0) u.values)
          h (hear_values-IsSourced m (t 0) u.values h))

  arrive-IsSourced :
      (m : CourseManager W) (t : Clock) (c : CourseState)
      → IsSourced W m
      → IsSourced W (arrive W E m t c)
  unfolding arrive emit_arrival_notification send
  arrive-IsSourced m t c h =
      either-IsSourced (has_more_waypoints c.active_route) (advance_next_point W E m t (pos 1)).0
        (emit_arrival_notification W E m t) (advance_next_point-IsSourced W E m t (pos 1) h) h

  either_first-IsSourced :
      (b : Bool) (r r' : CourseManager W × Bool)
      → IsSourced W r.0
      → IsSourced W r'.0
      → IsSourced W (if b then r else r').0
  either_first-IsSourced true r r' h h' = h
  either_first-IsSourced false r r' h h' = h'

  check_at-IsSourced :
      (m : CourseManager W) (t : Clock) (s : Option CourseState)
      → IsSourced W m
      → IsSourced W (check_at W E m t s).0
  unfolding check_at
  check_at-IsSourced m t none h = h
  check_at-IsSourced m t (some c) h =
      either_first-IsSourced (E.floats.le c.arrival_circle zero) (m, false)
        (if is_inside W E c.arrival_circle (distance W E m)
          then (arrive W E m t c, true)
          else (m, false))
        h
        (either_first-IsSourced (is_inside W E c.arrival_circle (distance W E m))
          (arrive W E m t c, true) (m, false) (arrive-IsSourced m t c h) h)

  handle-IsSourced :
      (m : CourseManager W) (e : Event W E) → IsSourced W m → IsSourced W (handle W E m e)
  unfolding handle set_destination set_active_route clear set_point_index reverse_route
      set_target_arrival_time set_arrival_circle enable_api_only disable_api_only check_arrival
      hear_delta advance_next_point C.advance_next_point C.set_point_index C.reverse_route
  handle-IsSourced m (goes_to t req) h = directed-IsSourced W E m t req.href _ h
  handle-IsSourced m (follows t req) h = routed-IsSourced W E m t req _ h
  handle-IsSourced m (clears t) h =
      cleared-IsSourced W E (record m { state = none }) t
        (persist_state W E m.state_file none m.world)
        (IsSourcedBy-changed m.source m.config.api_only m.state none (λ e. refl) h)
  handle-IsSourced m (advances t delta) h = follow-IsSourced W E m t _ h
  handle-IsSourced m (jumps t index) h = follow-IsSourced W E m t _ h
  handle-IsSourced m (reverses t) h = follow-IsSourced W E m t _ h
  handle-IsSourced m (times t time) h = timed-IsSourced W E m t time m.state refl h
  handle-IsSourced m (circles t radius) h =
      circled-IsSourced W E (record m { config = record m.config { arrival_circle = radius } }) t
        radius m.state refl h
  handle-IsSourced m (enables t) h =
      drop_nmea-IsSourced W E (record m { config = record m.config { api_only = true } }) t m.source
        refl
  handle-IsSourced m disables h = allowed-IsSourcedBy W E m.source m.config.api_only m.state h
  handle-IsSourced m (checks t) h = check_at-IsSourced m t m.state h
  handle-IsSourced m (hears t delta) h = hear_updates-IsSourced m t delta.updates h

  run_keeps :
      (m : CourseManager W) (es : List (Event W E)) → IsSourced W m → IsSourced W (run W E m es)
  unfolding run
  run_keeps m [] h = h
  run_keeps m (e ∷ es) h = run_keeps (handle W E m e) es (handle-IsSourced m e h)

  take_up-IsSourced :
      (m : CourseManager W) (t : Clock) (r : Result CourseState String)
      → m.source ≡ api
      → (take_up W E m t r).source ≡ api
  unfolding take_up
  take_up-IsSourced m t (err e) is = is
  take_up-IsSourced m t (ok c) is = (emit_deltas-Keeps W E m t c).source ∙ is

  from_api :
      (m : CourseManager W) (source : CourseSource)
      → source ≡ api
      → IsSourcedBy source m.config.api_only m.state
  from_api m api is = tt
  from_api m nmea is = absurd (cc)

  by_nmea :
      (source : CourseSource) (api_only : Bool) (s : Option CourseState)
      → source ≡ nmea
      → IsSourcedBy source api_only s
      → (api_only ≡ false) × ((s >>= λ c. c.active_route) ≡ none)
  by_nmea api api_only s is h = absurd (cc)
  by_nmea nmea api_only s is h = h

  -- From the start, with the course that the file holds, if any, and after any requests, arrival checks
  -- and deltas: while the source is an NMEA sentence (heard since the start), the API-only mode is off
  -- and the course has no route.
  pub run-IsSourced :
      (store : SignalKStore) (state_file : String) (providers : ResourceProviderRegistry W) (w : W)
      (t : Clock) (es : List (Event W E))
      → (run W E (load W E (new W store state_file providers w) t) es).source ≡ nmea
      → ((run W E (load W E (new W store state_file providers w) t) es).config.api_only ≡ false)
        × (((run W E (load W E (new W store state_file providers w) t) es).state >>= λ c.
              c.active_route)
            ≡ none)
  unfolding new load
  run-IsSourced store state_file providers w t es by =
      let m = new W store state_file providers w in
      let m' = load W E m t in
      by_nmea (run W E m' es).source (run W E m' es).config.api_only (run W E m' es).state by (
        run_keeps m' es (
          from_api m' m'.source (
            take_up-IsSourced m t (restored W E m (E.files.read_to_string m.state_file m.world))
              refl)))
