-- ===== src/Course/Sourced.antt =====
-- Where the course comes from: crates/signalk-server/src/course/manager.rs, one step at a time.
use signalk_rs.Prelude.{
  ◌≡◌, refl, ap, subst, ◌∙◌, Bool, true, false, Option, none, some, List, String, ◌>>=◌,
}
use signalk_rs.Prelude.Int.{ℤ}
use signalk_rs.Types.Json.{F64}
use signalk_rs.Server.{Result, ok, err, PluginError}
use signalk_rs.Course.{Position, ActiveRoute, CourseState, on_active, on_route, has_more_waypoints}
use signalk_rs.Course as C
use signalk_rs.Course.Manager.{
  CourseSource, api, nmea, CourseManager, Clock, Env, ActiveRouteRequest, publish, direct_course,
}
use signalk_rs.Course.Operations.{
  adopted, apply_state, apply_result, changed, follow, advance_next_point, drop_nmea, cleared,
  amended, stepped, directed, routed, timed, circled, heard,
}
use signalk_rs.Course.Keeps.{Keeps, publish-Keeps}

abbrev pub route_of : Option CourseState → Option ActiveRoute
route_of s = s >>= λ c. c.active_route

-- A course of an NMEA sentence stands only where the sentences are allowed, and has no route.
abbrev pub IsSourcedBy : CourseSource → Bool → Option CourseState → Type 0
IsSourcedBy api api_only s = Unit
IsSourcedBy nmea api_only s = (api_only ≡ false) × (route_of s ≡ none)

abbrev pub IsSourced : (W : Type 0) → CourseManager W → Type 0
IsSourced W m = IsSourcedBy m.source m.config.api_only m.state

on_active-no_route :
    (c : CourseState) (o : Option ActiveRoute)
    (step : CourseState → ActiveRoute → Option CourseState × Result CourseState PluginError)
    → o ≡ none
    → (on_active c o step).0 ≡ some c
unfolding on_active
on_active-no_route c none step e = refl
on_active-no_route c (some r) step e = absurd (cc)

-- Without a route, nothing that follows one changes the course.
on_route-no_route :
    (s : Option CourseState)
    (step : CourseState → ActiveRoute → Option CourseState × Result CourseState PluginError)
    → route_of s ≡ none
    → (on_route s step).0 ≡ s
unfolding on_route
on_route-no_route none step e = refl
on_route-no_route (some c) step e = on_active-no_route c c.active_route step e

-- A change of the state that keeps a course without a route.
pub IsSourcedBy-changed :
    (source : CourseSource) (api_only : Bool) (s s' : Option CourseState)
    → (route_of s ≡ none → route_of s' ≡ none)
    → IsSourcedBy source api_only s
    → IsSourcedBy source api_only s'
IsSourcedBy-changed api api_only s s' keeps h = tt
IsSourcedBy-changed nmea api_only s s' keeps h = (h.0, keeps h.1)

module _ (W : Type 0) (E : Env W) where
  Keeps-IsSourced : (m m' : CourseManager W) → Keeps W m m' → IsSourced W m → IsSourced W m'
  Keeps-IsSourced m m' kept h = rw (kept.source, kept.config, kept.state) h

  changed-IsSourced :
      (m : CourseManager W) (t : Clock) (answer : Result CourseState PluginError)
      → IsSourced W m
      → IsSourced W (changed W E m t answer).0
  unfolding changed
  changed-IsSourced m t (err e) h = h
  changed-IsSourced m t (ok c) h = Keeps-IsSourced m _ (publish-Keeps W E m t c) h

  pub follow-IsSourced :
      (m : CourseManager W) (t : Clock)
      (step : CourseState → ActiveRoute → Option CourseState × Result CourseState PluginError)
      → IsSourced W m
      → IsSourced W (follow W E m t (on_route m.state step)).0
  unfolding follow stepped
  follow-IsSourced m t step h =
      changed-IsSourced (stepped W E m (on_route m.state step).0) t (on_route m.state step).1 (
        IsSourcedBy-changed m.source m.config.api_only m.state (on_route m.state step).0
          (λ e. ap route_of (on_route-no_route m.state step e) ∙ e) h)

  pub advance_next_point-IsSourced :
      (m : CourseManager W) (t : Clock) (delta : ℤ)
      → IsSourced W m
      → IsSourced W (advance_next_point W E m t delta).0
  unfolding advance_next_point C.advance_next_point
  advance_next_point-IsSourced m t delta h = follow-IsSourced m t _ h

  -- A course that the API set.
  adopted-IsSourced :
      (c : CourseState) (r : CourseManager W × Result Unit PluginError)
      → IsSourced W r.0
      → IsSourced W (adopted W E api c r).0
  unfolding adopted
  adopted-IsSourced c (m, err e) h = h
  adopted-IsSourced c (m, ok u) h = tt

  apply_result-IsSourced :
      (m : CourseManager W) (t : Clock) (answer : Result CourseState PluginError)
      → IsSourced W m
      → IsSourced W (apply_result W E m t answer).0
  unfolding apply_result apply_state
  apply_result-IsSourced m t (err e) h = h
  apply_result-IsSourced m t (ok c) h =
      adopted-IsSourced c (publish W E m t c) (Keeps-IsSourced m _ (publish-Keeps W E m t c) h)

  pub cleared-IsSourced :
      (m : CourseManager W) (t : Clock) (saved : W × Result Unit PluginError)
      → IsSourced W m
      → IsSourced W (cleared W E m t saved).0
  unfolding cleared
  cleared-IsSourced m t (w, err e) h = h
  cleared-IsSourced m t (w, ok u) h = h

  pub directed-IsSourced :
      (m : CourseManager W) (t : Clock) (href : Option String) (r : W × Result Position PluginError)
      → IsSourced W m
      → IsSourced W (directed W E m t href r).0
  unfolding directed
  directed-IsSourced m t href (w, answer) h = apply_result-IsSourced (record m { world = w }) t _ h

  pub routed-IsSourced :
      (m : CourseManager W) (t : Clock) (req : ActiveRouteRequest)
      (r : W × Result (List Position) PluginError)
      → IsSourced W m
      → IsSourced W (routed W E m t req r).0
  unfolding routed
  routed-IsSourced m t req (w, points) h = apply_result-IsSourced (record m { world = w }) t _ h

  amended-IsSourced :
      (m : CourseManager W) (t : Clock) (c c' : CourseState)
      → c'.active_route ≡ c.active_route
      → IsSourcedBy m.source m.config.api_only (some c)
      → IsSourced W (amended W E m t c').0
  unfolding amended
  amended-IsSourced m t c c' same h =
      Keeps-IsSourced (record m { state = some c' })
        (publish W E (record m { state = some c' }) t c').0
        (publish-Keeps W E (record m { state = some c' }) t c')
        (IsSourcedBy-changed m.source m.config.api_only (some c) (some c') (λ e. same ∙ e) h)

  pub timed-IsSourced :
      (m : CourseManager W) (t : Clock) (time : Option String) (s : Option CourseState)
      → m.state ≡ s
      → IsSourced W m
      → IsSourced W (timed W E m t time s).0
  unfolding timed
  timed-IsSourced m t time none e h = h
  timed-IsSourced m t time (some c) e h =
      amended-IsSourced m t c _ refl (subst (IsSourcedBy m.source m.config.api_only) e h)

  pub circled-IsSourced :
      (m : CourseManager W) (t : Clock) (radius : F64) (s : Option CourseState)
      → m.state ≡ s
      → IsSourced W m
      → IsSourced W (circled W E m t radius s).0
  unfolding circled
  circled-IsSourced m t radius none e h = h
  circled-IsSourced m t radius (some c) e h =
      amended-IsSourced m t c _ refl (subst (IsSourcedBy m.source m.config.api_only) e h)

  pub drop_nmea-IsSourced :
      (m : CourseManager W) (t : Clock) (source : CourseSource)
      → m.source ≡ source
      → IsSourced W (drop_nmea W E m t source)
  unfolding drop_nmea
  drop_nmea-IsSourced m t api e = rw e tt
  drop_nmea-IsSourced m t nmea e = tt

  pub allowed-IsSourcedBy :
      (source : CourseSource) (api_only : Bool) (s : Option CourseState)
      → IsSourcedBy source api_only s
      → IsSourcedBy source false s
  allowed-IsSourcedBy api api_only s h = tt
  allowed-IsSourcedBy nmea api_only s h = (refl, h.1)

  adopted_nmea-IsSourced :
      (c : CourseState) (r : CourseManager W × Result Unit PluginError)
      → c.active_route ≡ none
      → r.0.config.api_only ≡ false
      → IsSourced W r.0
      → IsSourced W (adopted W E nmea c r).0
  unfolding adopted
  adopted_nmea-IsSourced c (m, err e) no_route off h = h
  adopted_nmea-IsSourced c (m, ok u) no_route off h = (off, no_route)

  pub heard-IsSourced :
      (m : CourseManager W) (t : Clock) (position : Position) (api_only : Bool)
      → m.config.api_only ≡ api_only
      → IsSourced W m
      → IsSourced W (heard W E m t position api_only).0
  unfolding heard direct_course
  heard-IsSourced m t position true e h = h
  heard-IsSourced m t position false e h =
      adopted_nmea-IsSourced _ (publish W E m t _) refl
        (ap (λ k. k.api_only) (publish-Keeps W E m t _).config ∙ e)
        (Keeps-IsSourced m (publish W E m t _).0 (publish-Keeps W E m t _) h)
