-- ===== src/Course/Stale.antt =====
-- What stays in the store when a course with a route gives way to one without
-- (crates/signalk-server/src/course/manager.rs).
use signalk_rs.Prelude.{
  ◌≡◌, refl, ap, sym, subst, ◌∙◌, Bool, true, false, Option, none, some, List, [], ◌∷◌, ◌++◌,
  String, ◌==◌, if◌then◌else◌, All, ◌>>=◌,
}
use signalk_rs.Types.Float.{FloatOps, zero}
use signalk_rs.Types.Delta.{Timestamp, PathValue, self_vessel, update_now}
use signalk_rs.Store.Values.Settings.{Settled, apply_delta-Settled}
use signalk_rs.Course as C
use signalk_rs.Types.Full.{SignalKValue, sk_value}
use signalk_rs.Types.Json.{Json}
use mathlib.Core.Option.{map}
use signalk_rs.Course.Resolve.{resolve_route_points}
use signalk_rs.Store.{SignalKStore, get_self_path, get_vessel_path}
use signalk_rs.Store.Values.Policy.{last_values}
use signalk_rs.Server.{Result, ok, err, PluginError}
use signalk_rs.Course.{Position, CoursePoint, ActiveRoute, CourseState, started, oriented}
use signalk_rs.Course.Emit.{
  state_values, next_values, previous_values, route_values, text_values, circle_values,
  current_vessel_position, distance_values, course_manager,
}
use signalk_rs.Course.Manager.{
  CourseManager, api, Clock, Env, DestinationRequest, ActiveRouteRequest, send, send_some,
  emit_deltas, emitted, publish, persist_state, remaining, direct_course, current_circle,
}
use signalk_rs.Course.Operations.{
  adopted, apply_state, apply_result, directed, set_destination, destination_course, routed,
  set_active_route,
}
use signalk_rs.Course.Told.{send-last}

abbrev pub href_path : String
href_path = "navigation.course.activeRoute.href"

-- No value is for the path.
abbrev IsSilent : List PathValue → Type 0
IsSilent values = All (λ pv. (pv.path == href_path) ≡ false) values

append-IsSilent : (xs ys : List PathValue) → IsSilent xs → IsSilent ys → IsSilent (xs ++ ys)
append-IsSilent [] ys h k = k
append-IsSilent (x ∷ xs) ys h k = (h.0, append-IsSilent xs ys h.1 k)

last_values-IsSilent :
    (ref : String) (timestamp : Timestamp) (values : List PathValue) (current : Option SignalKValue)
    → IsSilent values
    → last_values href_path ref timestamp values current ≡ current
unfolding last_values
last_values-IsSilent ref timestamp [] current h = refl
last_values-IsSilent ref timestamp (pv ∷ pvs) current h =
    rw h.0 (last_values-IsSilent ref timestamp pvs current h.1)

next_values-IsSilent : (F : FloatOps) (o : Option CoursePoint) → IsSilent (next_values F o)
unfolding next_values
next_values-IsSilent F none = tt
next_values-IsSilent F (some p) = (refl, (refl, tt))

previous_values-IsSilent : (F : FloatOps) (o : Option CoursePoint) → IsSilent (previous_values F o)
unfolding previous_values
previous_values-IsSilent F none = tt
previous_values-IsSilent F (some p) = (refl, tt)

text_values-IsSilent :
    (path : String) (o : Option String)
    → (path == href_path) ≡ false
    → IsSilent (text_values path o)
unfolding text_values
text_values-IsSilent path none e = tt
text_values-IsSilent path (some s) e = (e, tt)

circle-IsSilent :
    (b : Bool) (pv : PathValue)
    → (pv.path == href_path) ≡ false
    → IsSilent (if b then pv ∷ [] else [])
circle-IsSilent true pv e = (e, tt)
circle-IsSilent false pv e = tt

-- A course without a route tells nothing of one.
state_values-IsSilent :
    (F : FloatOps) (c : CourseState) → c.active_route ≡ none → IsSilent (state_values F c)
unfolding state_values route_values circle_values
state_values-IsSilent F c no_route =
    append-IsSilent _ _
      (append-IsSilent _ _
        (append-IsSilent _ _
          (append-IsSilent _ _
            (append-IsSilent _ _ (next_values-IsSilent F c.next_point)
              (previous_values-IsSilent F c.previous_point))
            (rw no_route tt))
          (text_values-IsSilent _ c.start_time refl))
        (text_values-IsSilent _ c.target_arrival_time refl))
      (circle-IsSilent (F.lt zero c.arrival_circle) _ refl)

module _ (W : Type 0) (E : Env W) where
  send_some-stale :
      (m : CourseManager W) (t : Clock) (values : List PathValue)
      → m.store.source_priorities ≡ []
      → IsSilent values
      → get_vessel_path (send_some W E m t values).store m.store.self_uri href_path
        ≡ get_self_path m.store href_path
  unfolding send_some
  send_some-stale m t [] none_set h = refl
  send_some-stale m t (v ∷ vs) none_set h =
      send-last W E m t (v ∷ vs) href_path none_set ∙ last_values-IsSilent _ t.now (v ∷ vs) _ h

  distance-IsSilent :
      (store : SignalKStore) (c : CourseState) (r : ActiveRoute)
      (points : Result (List Position) PluginError)
      → IsSilent (distance_values E.floats store c r points)
  unfolding distance_values
  distance-IsSilent store c r (err e) = tt
  distance-IsSilent store c r (ok points) = (refl, tt)

  remaining-IsSilent :
      (m : CourseManager W) (c : CourseState) (o : Option ActiveRoute)
      → o ≡ none
      → IsSilent (remaining W E m c o).1
  unfolding remaining
  remaining-IsSilent m c none e = tt
  remaining-IsSilent m c (some r) e = absurd (cc)

  -- On success the store shows the route that it showed before, and the course has none.
  LeavesRoute : CourseManager W → CourseManager W × Result Unit PluginError → Type 0
  LeavesRoute m (m', err e) = Unit
  LeavesRoute m (m', ok u) =
      (get_vessel_path m'.store m.store.self_uri href_path ≡ get_self_path m.store href_path)
      × ((m'.state >>= λ c. c.active_route) ≡ none)

  emitted-LeavesRoute :
      (m : CourseManager W) (old : W) (t : Clock) (c : CourseState)
      (r : W × Result Unit PluginError)
      → m.store.source_priorities ≡ []
      → c.active_route ≡ none
      → LeavesRoute m (adopted W E api c (emitted W E (record m { world = old }) t c r))
  unfolding emitted adopted LeavesRoute emit_deltas
  emitted-LeavesRoute m old t c (w, err e) none_set no_route = tt
  emitted-LeavesRoute m old t c (w, ok u) none_set no_route = (
    send_some-stale (record m { world = _ }) t _ none_set
        (append-IsSilent _ _ (state_values-IsSilent E.floats c no_route)
          (remaining-IsSilent (record m { world = w }) c c.active_route no_route)),
    no_route,
  )

  directed-LeavesRoute :
      (m : CourseManager W) (t : Clock) (href : Option String) (r : W × Result Position PluginError)
      → m.store.source_priorities ≡ []
      → LeavesRoute m (directed W E m t href r)
  unfolding directed destination_course apply_result apply_state publish direct_course LeavesRoute
  directed-LeavesRoute m t href (w, err e) none_set = tt
  directed-LeavesRoute m t href (w, ok p) none_set =
      let c =
        direct_course t.rfc3339 (current_circle m.state) (current_vessel_position E.floats m.store)
          href p in
      emitted-LeavesRoute m w t c (persist_state W E m.state_file (some c) w) none_set refl

  -- The last value for the path is the reference.
  Tells : String → List PathValue → Type 0
  Tells href values =
      (ref : String) (timestamp : Timestamp) (current : Option SignalKValue)
      → map (λ sv. sv.value) (last_values href_path ref timestamp values current)
        ≡ some (Json.string href)

  last_values-append :
      (ref : String) (timestamp : Timestamp) (xs ys : List PathValue)
      (current : Option SignalKValue)
      → last_values href_path ref timestamp (xs ++ ys) current
        ≡ last_values href_path ref timestamp ys (last_values href_path ref timestamp xs current)
  unfolding last_values
  last_values-append ref timestamp [] ys current = refl
  last_values-append ref timestamp (x ∷ xs) ys current = last_values-append ref timestamp xs ys _

  later-Tells : (href : String) (xs ys : List PathValue) → Tells href ys → Tells href (xs ++ ys)
  unfolding Tells
  later-Tells href xs ys h ref timestamp current =
      ap (map (λ sv. sv.value)) (last_values-append ref timestamp xs ys current) ∙ h ref timestamp _

  silent-Tells :
      (href : String) (xs ys : List PathValue) → Tells href xs → IsSilent ys → Tells href (xs ++ ys)
  unfolding Tells
  silent-Tells href xs ys h silent ref timestamp current =
      ap (map (λ sv. sv.value)) (
        last_values-append ref timestamp xs ys current
        ∙ last_values-IsSilent ref timestamp ys _ silent)
      ∙ h ref timestamp current

  route_values-Tells :
      (o : Option ActiveRoute) (r : ActiveRoute) → o ≡ some r → Tells r.href (route_values o)
  unfolding Tells route_values last_values sk_value
  route_values-Tells none r e ref timestamp current = absurd (cc)
  route_values-Tells (some r') r e ref timestamp current =
      ap (λ o. map (λ q. Json.string q.href) o) e

  state_values-Tells :
      (F : FloatOps) (c : CourseState) (r : ActiveRoute)
      → c.active_route ≡ some r
      → Tells r.href (state_values F c)
  unfolding state_values circle_values
  state_values-Tells F c r on =
      silent-Tells r.href _ _
        (silent-Tells r.href _ _
          (silent-Tells r.href _ _
            (later-Tells r.href (next_values F c.next_point ++ previous_values F c.previous_point)
              (route_values c.active_route) (route_values-Tells c.active_route r on))
            (text_values-IsSilent _ c.start_time refl))
          (text_values-IsSilent _ c.target_arrival_time refl))
        (circle-IsSilent (F.lt zero c.arrival_circle) _ refl)

  distance_values-IsSilent :
      (m : CourseManager W) (c : CourseState) (o : Option ActiveRoute)
      → IsSilent (remaining W E m c o).1
  unfolding remaining
  distance_values-IsSilent m c none = tt
  distance_values-IsSilent m c (some r) =
      distance-IsSilent m.store c r
        (resolve_route_points E.floats W m.resource_providers r.href m.world).1

  -- What a manager sends shows the reference, and leaves the settings of the store.
  abbrev Shows : String → SignalKStore → SignalKStore → Type 0
  Shows href s s' =
      (map (λ sv. sv.value) (get_vessel_path s' s.self_uri href_path) ≡ some (Json.string href))
      × Settled s s'

  send_some-Shows :
      (m : CourseManager W) (t : Clock) (values : List PathValue) (href : String)
      → m.store.source_priorities ≡ []
      → Tells href values
      → Shows href m.store (send_some W E m t values).store
  unfolding send_some Tells last_values send
  send_some-Shows m t [] href none_set h =
      let nothing : none ≡ some (Json.string href) = h "" 0 none in absurd (cc)
  send_some-Shows m t (v ∷ vs) href none_set h = (
    ap (map (λ sv. sv.value)) (send-last W E m t (v ∷ vs) href_path none_set) ∙ h _ t.now _,
    apply_delta-Settled E.display m.store t.store
        (self_vessel (update_now t.now course_manager (v ∷ vs) ∷ [])),
  )

  ShowsOn : String → SignalKStore → CourseManager W × Result Unit PluginError → Type 0
  ShowsOn href s (m', err e) = Unit
  ShowsOn href s (m', ok u) = Shows href s m'.store

  emitted-ShowsOn :
      (m : CourseManager W) (t : Clock) (c : CourseState) (route : ActiveRoute)
      (r : W × Result Unit PluginError)
      → m.store.source_priorities ≡ []
      → c.active_route ≡ some route
      → ShowsOn route.href m.store (adopted W E api c (emitted W E m t c r))
  unfolding emitted adopted ShowsOn emit_deltas
  emitted-ShowsOn m t c route (w, err e) none_set on = tt
  emitted-ShowsOn m t c route (w, ok u) none_set on =
      send_some-Shows (record m { world = _ }) t _ route.href none_set
        (silent-Tells route.href (state_values E.floats c) _
          (state_values-Tells E.floats c route on)
          (distance_values-IsSilent (record m { world = w }) c c.active_route))

  -- A new course follows the route of the reference.
  Follows : String → Result CourseState PluginError → Type 0
  Follows href (err e) = Unit
  Follows href (ok c) = (r : ActiveRoute) × (c.active_route ≡ some r) × (r.href ≡ href)

  started-Follows :
      (s : Option CourseState) (href : String) (reversed : Bool) (now : String)
      (vessel : Option Position) (points : List Position)
      → Follows href (started s href reversed now vessel points)
  unfolding Follows started
  started-Follows s href reversed now vessel [] = tt
  started-Follows s href reversed now vessel (p ∷ ps) = (_, refl, refl)

  set_active_route-Follows :
      (s : Option CourseState) (href : String) (reversed : Bool)
      (points : Result (List Position) PluginError) (now : String) (vessel : Option Position)
      → Follows href (C.set_active_route s href reversed points now vessel)
  unfolding C.set_active_route Follows
  set_active_route-Follows s href reversed (err e) now vessel = tt
  set_active_route-Follows s href reversed (ok points) now vessel =
      started-Follows s href reversed now vessel (oriented reversed points)

  apply_result-ShowsOn :
      (m : CourseManager W) (t : Clock) (href : String) (r : Result CourseState PluginError)
      → m.store.source_priorities ≡ []
      → Follows href r
      → ShowsOn href m.store (apply_result W E m t r)
  unfolding apply_result apply_state publish Follows ShowsOn
  apply_result-ShowsOn m t href (err e) none_set follows = tt
  apply_result-ShowsOn m t href (ok c) none_set follows =
      subst
        (λ h.
          ShowsOn h m.store (
            adopted W E api c
              (emitted W E m t c (persist_state W E m.state_file (some c) m.world))))
        follows.2
        (emitted-ShowsOn m t c follows.0 (persist_state W E m.state_file (some c) m.world) none_set
          follows.1)

  routed-ShowsOn :
      (m : CourseManager W) (t : Clock) (req : ActiveRouteRequest)
      (r : W × Result (List Position) PluginError)
      → m.store.source_priorities ≡ []
      → ShowsOn req.href m.store (routed W E m t req r)
  unfolding routed
  routed-ShowsOn m t req (w, points) none_set =
      apply_result-ShowsOn (record m { world = w }) t req.href _ none_set
        (set_active_route-Follows m.state req.href req.reverse points t.rfc3339
          (current_vessel_position E.floats m.store))

  set_destination-leaves :
      (m m' : CourseManager W) (t : Clock) (req : DestinationRequest)
      → m.store.source_priorities ≡ []
      → set_destination W E m t req ≡ (m', ok tt)
      → (get_vessel_path m'.store m.store.self_uri href_path ≡ get_self_path m.store href_path)
        × ((m'.state >>= λ c. c.active_route) ≡ none)
  unfolding set_destination LeavesRoute
  set_destination-leaves m m' t req none_set done =
      subst (LeavesRoute m) done (directed-LeavesRoute m t req.href _ none_set)

  -- With no priorities configured: after a successful request to follow a route, and then one for
  -- a destination, the course has no route, but the store still shows the reference of that route to the
  -- clients, as a value of the self vessel.
  pub set_destination-stale_route :
      (m m₁ m₂ : CourseManager W) (t t' : Clock) (route : ActiveRouteRequest)
      (req : DestinationRequest)
      → m.store.source_priorities ≡ []
      → set_active_route W E m t route ≡ (m₁, ok tt)
      → set_destination W E m₁ t' req ≡ (m₂, ok tt)
      → (map (λ sv. sv.value) (get_vessel_path m₂.store m.store.self_uri href_path)
          ≡ some (Json.string route.href))
        × ((m₂.state >>= λ c. c.active_route) ≡ none)
  unfolding set_active_route ShowsOn
  set_destination-stale_route m m₁ m₂ t t' route req none_set followed done =
      let (shown, settled) : Shows route.href m.store m₁.store =
        subst (ShowsOn route.href m.store) followed (
          routed-ShowsOn m t route
            (resolve_route_points E.floats W m.resource_providers route.href m.world) none_set) in
      let (left, no_route) =
        set_destination-leaves m₁ m₂ t' req (settled.priorities ∙ none_set) done in
      (
        ap (λ u. map (λ sv. sv.value) (get_vessel_path m₂.store u href_path)) (sym settled.self_uri)
            ∙ (ap (map (λ sv. sv.value)) left
                ∙ (ap (λ u. map (λ sv. sv.value) (get_vessel_path m₁.store u href_path))
                      settled.self_uri
                    ∙ shown)),
        no_route,
      )
