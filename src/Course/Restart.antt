-- ===== src/Course/Restart.antt =====
-- The file of crates/signalk-server/src/course/manager.rs: after a successful request, a new start
-- takes up the same course.
use signalk_rs.Prelude.{
  ◌≡◌, refl, sym, ap, subst, ◌∙◌, not, Option, none, some, List, [], ◌∷◌, String,
}
use signalk_rs.Prelude.Int.{pos}
use signalk_rs.Types.Json.{F64}
use signalk_rs.Types.Delta.{PathValue}
use signalk_rs.Store.{SignalKStore}
use signalk_rs.Server.{Result, ok, err, PluginError}
use signalk_rs.Server.Resources.{ResourceProviderRegistry}
use signalk_rs.Course.{
  Position, ActiveRoute, CourseState, on_active, on_route, moved, resolved, restart, in_range,
  shifted,
}
use signalk_rs.Course as C
use signalk_rs.Course.Resolve.{resolve_route_points}
use signalk_rs.Course.Manager.{
  CourseSource, api, CourseManager, Clock, Env, ActiveRouteRequest, new, labelled, write_json,
  write_state, after_mkdir, make_parent, persist_state, send_some, remaining, emit_deltas, emitted,
  publish,
}
use signalk_rs.Course.Operations.{
  adopted, apply_state, apply_result, directed, set_destination, routed, set_active_route, changed,
  stepped, follow, resolve, advance_next_point, set_point_index, reverse_route, amended, timed,
  set_target_arrival_time, circled, set_arrival_circle,
}
use signalk_rs.Course.Queries.{load, take_up, restored}
use signalk_rs.Course.Keeps.{publish-Keeps}
use signalk_rs.Course.Requests.{
  Request, goes_to, follows, advances, jumps, reverses, times, circles, answer, Agrees,
  on_route-Agrees, resolved-Agrees, restart-Agrees,
}

module _ (W : Type 0) (E : Env W) where
  -- `read` is the file as it is read.
  module _ (f : String) (read : W → Result String String)
      (written : (text : String) (w w' : W)
        → E.files.write f text w ≡ (w', ok tt)
        → read w' ≡ ok text) where
    -- The file holds the course.
    abbrev Holds : CourseState → W → Type 0
    Holds c w = (text : String) × (E.serde.to_string_pretty c ≡ ok text) × (read w ≡ ok text)

    -- On success the file holds the course.
    Wrote : CourseState → W × Result Unit PluginError → Type 0
    Wrote c (w, err e) = Unit
    Wrote c (w, ok u) = Holds c w

    labelled-Wrote :
        (c : CourseState) (what text : String) (w : W) (r : W × Result Unit String)
        → E.files.write f text w ≡ r
        → E.serde.to_string_pretty c ≡ ok text
        → Wrote c (labelled W E what r)
    unfolding labelled Wrote
    labelled-Wrote c what text w (w', err e) called printed = tt
    labelled-Wrote c what text w (w', ok u) called printed =
        (text, printed, written text w w' called)

    write_json-Wrote :
        (c : CourseState) (s : Result String String) (w : W)
        → E.serde.to_string_pretty c ≡ s
        → Wrote c (write_json W E f s w)
    unfolding write_json Wrote
    write_json-Wrote c (err e) w printed = tt
    write_json-Wrote c (ok text) w printed = labelled-Wrote c _ text w _ refl printed

    after_mkdir-Wrote :
        (c : CourseState) (r : W × Result Unit PluginError) → Wrote c (after_mkdir W E f (some c) r)
    unfolding after_mkdir write_state Wrote
    after_mkdir-Wrote c (w, err e) = tt
    after_mkdir-Wrote c (w, ok u) = write_json-Wrote c (E.serde.to_string_pretty c) w refl

    -- Asking the providers leaves the file.
    abbrev Asks : CourseManager W → Type 0
    Asks m =
        (href : String) (w : W)
        → read (resolve_route_points E.floats W m.resource_providers href w).0 ≡ read w

    send_some-world :
        (m : CourseManager W) (t : Clock) (values : List PathValue)
        → (send_some W E m t values).world ≡ m.world
    unfolding send_some
    send_some-world m t [] = refl
    send_some-world m t (v ∷ vs) = refl

    remaining-read :
        (m : CourseManager W) (c : CourseState) (o : Option ActiveRoute)
        → Asks m
        → read (remaining W E m c o).0 ≡ read m.world
    unfolding remaining
    remaining-read m c none asks = refl
    remaining-read m c (some r) asks = asks r.href m.world

    emit_deltas-read :
        (m : CourseManager W) (t : Clock) (c : CourseState)
        → Asks m
        → read (emit_deltas W E m t c).world ≡ read m.world
    unfolding emit_deltas
    emit_deltas-read m t c asks =
        ap read (send_some-world _ t _) ∙ remaining-read m c c.active_route asks

    -- On success the file holds the course, whatever is in memory.
    Held : CourseState → CourseManager W × Result Unit PluginError → Type 0
    Held c (m, err e) = Unit
    Held c (m, ok u) = Holds c m.world

    emitted-Held :
        (m : CourseManager W) (t : Clock) (c : CourseState) (r : W × Result Unit PluginError)
        → Asks m
        → Wrote c r
        → Held c (emitted W E m t c r)
    unfolding emitted Held Wrote
    emitted-Held m t c (w, err e) asks wrote = tt
    emitted-Held m t c (w, ok u) asks wrote =
        let (text, printed, found) = wrote in
        (text, printed, emit_deltas-read (record m { world = w }) t c asks ∙ found)

    publish-Held :
        (m : CourseManager W) (t : Clock) (c : CourseState)
        → m.state_file ≡ f
        → Asks m
        → Held c (publish W E m t c)
    unfolding publish persist_state
    publish-Held m t c at_f asks =
        emitted-Held m t c _ asks (rw at_f (after_mkdir-Wrote c (make_parent W E f m.world)))

    -- On success the course in memory is in the file.
    Saved : Option CourseState → W → Type 0
    Saved none w = Unit
    Saved (some c) w = Holds c w

    IsSaved : CourseManager W × Result Unit PluginError → Type 0
    IsSaved (m, err e) = Unit
    IsSaved (m, ok u) = Saved m.state m.world

    Held-IsSaved :
        (c : CourseState) (r : CourseManager W × Result Unit PluginError)
        → r.0.state ≡ some c
        → Held c r
        → IsSaved r
    unfolding Held IsSaved Saved
    Held-IsSaved c (m, err e) is held = tt
    Held-IsSaved c (m, ok u) is held = subst (λ s. Saved s m.world) (sym is) held

    adopted-IsSaved :
        (source : CourseSource) (c : CourseState) (r : CourseManager W × Result Unit PluginError)
        → Held c r
        → IsSaved (adopted W E source c r)
    unfolding adopted Held IsSaved Saved
    adopted-IsSaved source c (m, err e) held = tt
    adopted-IsSaved source c (m, ok u) held = held

    amended-IsSaved :
        (m : CourseManager W) (t : Clock) (c : CourseState)
        → m.state_file ≡ f
        → Asks m
        → IsSaved (amended W E m t c)
    unfolding amended
    amended-IsSaved m t c at_f asks =
        Held-IsSaved c (publish W E (record m { state = some c }) t c)
          (publish-Keeps W E (record m { state = some c }) t c).state
          (publish-Held (record m { state = some c }) t c at_f asks)

    circled-IsSaved :
        (m : CourseManager W) (t : Clock) (radius : F64) (s : Option CourseState)
        → m.state ≡ s
        → m.state_file ≡ f
        → Asks m
        → IsSaved (circled W E m t radius s)
    unfolding circled IsSaved Saved
    circled-IsSaved m t radius none is at_f asks = rw is tt
    circled-IsSaved m t radius (some c) is at_f asks =
        amended-IsSaved m t (record c { arrival_circle = radius }) at_f asks

    module _ (m : CourseManager W) (t : Clock) (at_f : m.state_file ≡ f) (asks : Asks m) where
      apply_result-IsSaved :
          (w : W) (r : Result CourseState PluginError)
          → IsSaved (apply_result W E (record m { world = w }) t r)
      unfolding apply_result apply_state IsSaved
      apply_result-IsSaved w (err e) = tt
      apply_result-IsSaved w (ok c) =
          adopted-IsSaved api c (publish W E (record m { world = w }) t c)
            (publish-Held (record m { world = w }) t c at_f asks)

      changed-IsSaved :
          (s : Option CourseState) (w : W) (r : Result CourseState PluginError)
          → Agrees (s, r)
          → IsSaved (changed W E (record m { state = s; world = w }) t r)
      unfolding changed IsSaved
      changed-IsSaved s w (err e) agrees = tt
      changed-IsSaved s w (ok c) agrees =
          Held-IsSaved c (publish W E (record m { state = s; world = w }) t c)
            ((publish-Keeps W E (record m { state = s; world = w }) t c).state ∙ agrees)
            (publish-Held (record m { state = s; world = w }) t c at_f asks)

      directed-IsSaved :
          (href : Option String) (r : W × Result Position PluginError)
          → IsSaved (directed W E m t href r)
      unfolding directed
      directed-IsSaved href (w, r) = apply_result-IsSaved w _

      routed-IsSaved :
          (req : ActiveRouteRequest) (r : W × Result (List Position) PluginError)
          → IsSaved (routed W E m t req r)
      unfolding routed
      routed-IsSaved req (w, r) = apply_result-IsSaved w _

      follow-IsSaved :
          (r : Option CourseState × Result CourseState PluginError)
          → Agrees r
          → IsSaved (follow W E m t r)
      unfolding follow stepped
      follow-IsSaved (s, r) agrees = changed-IsSaved s _ r agrees

      timed-IsSaved :
          (time : Option String) (s : Option CourseState) → IsSaved (timed W E m t time s)
      unfolding timed IsSaved
      timed-IsSaved time none = tt
      timed-IsSaved time (some c) =
          amended-IsSaved m t (record c { target_arrival_time = time }) at_f asks

      answer-IsSaved : (req : Request) → IsSaved (answer W E m t req)
      unfolding answer set_destination set_active_route advance_next_point set_point_index
          reverse_route set_target_arrival_time set_arrival_circle C.advance_next_point
          C.set_point_index C.reverse_route
      answer-IsSaved (goes_to req) = directed-IsSaved req.href _
      answer-IsSaved (follows req) = routed-IsSaved req _
      answer-IsSaved (advances delta) = follow-IsSaved _ (
          on_route-Agrees m.state _ (λ c r.
            resolved-Agrees E.out_of_range c r (shifted r.point_index delta)
              (resolve W E m r.href)))
      answer-IsSaved (jumps index) = follow-IsSaved _ (
          on_route-Agrees m.state _
            (λ c r. resolved-Agrees E.out_of_range c r (pos index) (resolve W E m r.href)))
      answer-IsSaved reverses = follow-IsSaved _ (
          on_route-Agrees m.state _
            (λ c r. restart-Agrees c (record r { reverse = not r.reverse }) (resolve W E m r.href)))
      answer-IsSaved (times time) = timed-IsSaved time m.state
      answer-IsSaved (circles radius) =
          circled-IsSaved (record m { config = record m.config { arrival_circle = radius } }) t
            radius m.state refl at_f asks

  take_up-found :
      (m : CourseManager W) (t : Clock) (c : CourseState) (r : Result CourseState String)
      → r ≡ ok c
      → (take_up W E m t r).state ≡ some c
  unfolding take_up
  take_up-found m t c (err e) is = absurd (cc)
  take_up-found m t c (ok d) is = cc

  -- Where the file system and serde work (a file that was written is read back, the providers of
  -- resources leave the state file, the course that was printed is parsed again): after a request
  -- that succeeded, a manager that starts anew from the file has the course that was in memory.
  pub answer-load :
      (m m' : CourseManager W) (t t' : Clock) (req : Request) (c : CourseState)
      (store : SignalKStore) (providers : ResourceProviderRegistry W)
      → ((text : String) (w w' : W)
          → E.files.write m.state_file text w ≡ (w', ok tt)
          → E.files.read_to_string m.state_file w' ≡ ok text)
      → ((href : String) (w : W)
          → E.files.read_to_string m.state_file
              (resolve_route_points E.floats W m.resource_providers href w).0
            ≡ E.files.read_to_string m.state_file w)
      → ((text : String) → E.serde.to_string_pretty c ≡ ok text → E.serde.from_str text ≡ ok c)
      → answer W E m t req ≡ (m', ok tt)
      → m'.state ≡ some c
      → (load W E (new W store m.state_file providers m'.world) t').state ≡ some c
  unfolding load new restored IsSaved Saved
  answer-load m m' t t' req c store providers written asks parsed done is =
      let read = E.files.read_to_string m.state_file in
      let saved : IsSaved m.state_file read written (m', ok tt) =
        subst (IsSaved m.state_file read written) done
          (answer-IsSaved m.state_file read written m t refl asks req) in
      let (text, printed, found) : Holds m.state_file read written c m'.world =
        subst (λ s. Saved m.state_file read written s m'.world) is saved in
      take_up-found (new W store m.state_file providers m'.world) t' c _ (
        ap (restored W E (new W store m.state_file providers m'.world)) found ∙ parsed text printed)
