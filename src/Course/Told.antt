-- ===== src/Course/Told.antt =====
-- What the store shows of the course of crates/signalk-server/src/course/manager.rs, where no source
-- priorities are configured.
use signalk_rs.Prelude.{
  ◌≡◌, refl, ap, subst, ◌∙◌, Bool, true, false, ◌||◌, inl, inr, ◌⊎◌, Option, none, some, List, [],
  ◌∷◌, ◌++◌, String, ◌==◌, any, All, if◌then◌else◌,
}
use mathlib.Core.List as L
use mathlib.Core.Option.{map}
use signalk_rs.Types.Json.{Json}
use signalk_rs.Types.Delta.{Timestamp, PathValue, self_vessel, update_now}
use signalk_rs.Types.Full.{SignalKValue, sk_value}
use signalk_rs.Store.{SignalKStore, make_source_ref, get_self_path, get_vessel_path}
use signalk_rs.Store.Context.{apply_delta-NamesSelf}
use signalk_rs.Store.Values.Winner.{winner}
use signalk_rs.Store.Values.Policy.{last_values, last_value, winner-no_priorities}
use signalk_rs.Server.{Result, ok, err, PluginError}
use signalk_rs.Types.Float.{FloatOps, zero}
use signalk_rs.Course.{Position, CoursePoint, ActiveRoute, CourseState}
use signalk_rs.Course.Emit.{
  path_value, course_paths, course_manager, next_values, previous_values, route_values, text_values,
  circle_values, state_values, distance_values,
}
use signalk_rs.Course.Manager.{
  CourseManager, Clock, Env, send, emit_clear_deltas, remaining, persist_state,
}
use signalk_rs.Course.Operations.{cleared, clear}

-- The value of the first path, or what is left to be told.
told_or_kept :
    (v : Json) (ref : String) (timestamp : Timestamp) (here later : Bool)
    (current : Option SignalKValue)
    → ((here || later) ≡ true) ⊎ (map (λ sv. sv.value) current ≡ some v)
    → (later ≡ true)
      ⊎ (map (λ sv. sv.value) (if here then some (sk_value v ref timestamp) else current) ≡ some v)
unfolding sk_value
told_or_kept v ref timestamp true later current h = inr refl
told_or_kept v ref timestamp false later current h = h

-- A value for each path: each path has it, and every other path what it had.
last_values-all :
    (v : Json) (path ref : String) (timestamp : Timestamp) (ps : List String)
    (current : Option SignalKValue)
    → (any (λ p. p == path) ps ≡ true) ⊎ (map (λ sv. sv.value) current ≡ some v)
    → map (λ sv. sv.value) (last_values path ref timestamp (L.map (λ p. path_value p v) ps) current)
      ≡ some v
unfolding last_values
last_values-all v path ref timestamp [] current (inl e) = absurd (cc)
last_values-all v path ref timestamp [] current (inr e) = e
last_values-all v path ref timestamp (p ∷ ps) current h =
    last_values-all v path ref timestamp ps _
      (told_or_kept v ref timestamp (p == path) (any (λ q. q == path) ps) current h)

-- The value's path is one of those that are cleared.
abbrev IsCleared : PathValue → Type 0
IsCleared pv = any (λ p. p == pv.path) course_paths ≡ true

append-IsCleared :
    (xs ys : List PathValue) → All IsCleared xs → All IsCleared ys → All IsCleared (xs ++ ys)
append-IsCleared [] ys h k = k
append-IsCleared (x ∷ xs) ys h k = (h.0, append-IsCleared xs ys h.1 k)

map-All :
    (P Q : PathValue → Type 0) (xs : List PathValue)
    → ((x : PathValue) → P x → Q x)
    → All P xs
    → All Q xs
map-All P Q [] f h = tt
map-All P Q (x ∷ xs) f h = (f x h.0, map-All P Q xs f h.1)

next_values-IsCleared : (F : FloatOps) (o : Option CoursePoint) → All IsCleared (next_values F o)
unfolding next_values
next_values-IsCleared F none = tt
next_values-IsCleared F (some p) = (refl, (refl, tt))

previous_values-IsCleared :
    (F : FloatOps) (o : Option CoursePoint) → All IsCleared (previous_values F o)
unfolding previous_values
previous_values-IsCleared F none = tt
previous_values-IsCleared F (some p) = (refl, tt)

route_values-IsCleared : (o : Option ActiveRoute) → All IsCleared (route_values o)
unfolding route_values
route_values-IsCleared none = tt
route_values-IsCleared (some r) = (refl, tt)

text_values-IsCleared :
    (path : String) (o : Option String)
    → any (λ p. p == path) course_paths ≡ true
    → All IsCleared (text_values path o)
unfolding text_values
text_values-IsCleared path none named = tt
text_values-IsCleared path (some s) named = (named, tt)

circle-IsCleared :
    (b : Bool) (pv : PathValue) → IsCleared pv → All IsCleared (if b then pv ∷ [] else [])
circle-IsCleared true pv named = (named, tt)
circle-IsCleared false pv named = tt

-- Every value that tells of a course is for a path that is cleared.
state_values-IsCleared : (F : FloatOps) (c : CourseState) → All IsCleared (state_values F c)
unfolding state_values circle_values
state_values-IsCleared F c =
    append-IsCleared _ _
      (append-IsCleared _ _
        (append-IsCleared _ _
          (append-IsCleared _ _
            (append-IsCleared _ _ (next_values-IsCleared F c.next_point)
              (previous_values-IsCleared F c.previous_point))
            (route_values-IsCleared c.active_route))
          (text_values-IsCleared _ c.start_time refl))
        (text_values-IsCleared _ c.target_arrival_time refl))
      (circle-IsCleared (F.lt zero c.arrival_circle) _ refl)

distance_values-IsCleared :
    (F : FloatOps) (store : SignalKStore) (c : CourseState) (r : ActiveRoute)
    (points : Result (List Position) PluginError)
    → All IsCleared (distance_values F store c r points)
unfolding distance_values
distance_values-IsCleared F store c r (err e) = tt
distance_values-IsCleared F store c r (ok points) = (refl, tt)

module _ (W : Type 0) (E : Env W) where
  -- What the self vessel has at a path, after a delta of the course manager.
  pub send-last :
      (m : CourseManager W) (t : Clock) (values : List PathValue) (path : String)
      → m.store.source_priorities ≡ []
      → get_vessel_path (send W E m t values).store m.store.self_uri path
        ≡ last_values path
            (make_source_ref E.display course_manager)
            t.now
            values
            (get_self_path m.store path)
  unfolding send self_vessel update_now last_value
  send-last m t values path none_set =
      apply_delta-NamesSelf E.display m.store t.store
        (self_vessel (update_now t.now course_manager values ∷ [])) path (inr (inl refl))
      ∙ (ap
            (λ q.
              winner q m.store.source_ttls E.display path t.store
                (update_now t.now course_manager values ∷ []) (get_self_path m.store path))
            none_set
          ∙ winner-no_priorities m.store.source_ttls E.display path t.store _ _)

  cleared-null :
      (m : CourseManager W) (t : Clock) (path : String) (r : W × Result Unit PluginError)
      → m.store.source_priorities ≡ []
      → any (λ p. p == path) course_paths ≡ true
      → (cleared W E m t r).1 ≡ ok tt
      → m.state ≡ none
      → (map (λ sv. sv.value) (get_vessel_path (cleared W E m t r).0.store m.store.self_uri path)
          ≡ some Json.null)
        × ((cleared W E m t r).0.state ≡ none)
  unfolding cleared emit_clear_deltas send
  cleared-null m t path (w, err e) none_set named is no_course = absurd (cc)
  cleared-null m t path (w, ok u) none_set named is no_course = (
    ap (map (λ sv. sv.value)) (send-last (record m { world = w }) t _ path none_set)
        ∙ last_values-all Json.null path _ t.now course_paths _ (inl named),
    no_course,
  )

  clear-at :
      (m m' : CourseManager W) (t : Clock) (path : String)
      → m.store.source_priorities ≡ []
      → any (λ p. p == path) course_paths ≡ true
      → clear W E m t ≡ (m', ok tt)
      → (map (λ sv. sv.value) (get_vessel_path m'.store m.store.self_uri path) ≡ some Json.null)
        × (m'.state ≡ none)
  unfolding clear
  clear-at m m' t path none_set named done =
      subst
        (λ r.
          (map (λ sv. sv.value) (get_vessel_path r.0.store m.store.self_uri path) ≡ some Json.null)
          × (r.0.state ≡ none))
        done
        (cleared-null (record m { state = none }) t path
          (persist_state W E m.state_file none m.world) none_set named (ap (λ r. r.1) done) refl)

  remaining-IsCleared :
      (m : CourseManager W) (c : CourseState) (o : Option ActiveRoute)
      → All IsCleared (remaining W E m c o).1
  unfolding remaining
  remaining-IsCleared m c none = tt
  remaining-IsCleared m c (some r) = distance_values-IsCleared E.floats m.store c r _

  -- All that the manager sends to tell of a course.
  abbrev pub told : CourseManager W → CourseState → List PathValue
  told m c = state_values E.floats c ++ (remaining W E m c c.active_route).1

  -- With no priorities configured: once the course was cleared, no course is in memory, and the self
  -- vessel has null at the path of every value that a manager, in whatever state, sends to tell of
  -- a course, whichever it is.
  pub clear-null :
      (m m' told_by : CourseManager W) (t : Clock) (c : CourseState)
      → m.store.source_priorities ≡ []
      → clear W E m t ≡ (m', ok tt)
      → All
          (λ pv.
            map (λ sv. sv.value) (get_vessel_path m'.store m.store.self_uri pv.path)
            ≡ some Json.null)
          (told told_by c)
        × (m'.state ≡ none)
  clear-null m m' told_by t c none_set done = (
    map-All IsCleared _ (told told_by c)
        (λ pv named. (clear-at m m' t pv.path none_set named done).0)
        (append-IsCleared (state_values E.floats c) (remaining W E told_by c c.active_route).1
          (state_values-IsCleared E.floats c) (remaining-IsCleared told_by c c.active_route)),
    (clear-at m m' t "navigation.course.startTime" none_set refl done).1,
  )
