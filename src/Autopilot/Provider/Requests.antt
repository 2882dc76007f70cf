-- ===== src/Autopilot/Provider/Requests.antt =====
-- Runs of requests to the autopilot (crates/plugins/autopilot/src/provider.rs), and with them the
-- writes of its control loop (crates/plugins/autopilot/src/lib.rs).
use signalk_rs.Prelude.{
  ◌≡◌, refl, sym, ap, ◌∙◌, Bool, true, false, not, Option, none, some, List, [], ◌∷◌, String, ◌==◌,
  ◌<>◌, unwrap_or, if◌then◌else◌, ◌>>=◌,
}
use signalk_rs.Types.Json.{Json, F64}
use signalk_rs.Types.Float.{FloatOps}
use signalk_rs.Types.Float as L
use signalk_rs.Server.{Result, ok, err, PluginError, runtime, bad_request}
use signalk_rs.Autopilot.State.{AutopilotMode, route, parse_mode, is_route, is_wind, AutopilotState}
use signalk_rs.Autopilot.Provider.{
  TackDirection, Outcome, engage, disengage, set_state, with_mode, set_mode, set_target, dodge,
  course_next_point, adjust_target, maneuver, tack, gybe, follow_bearing, follow_answer,
  course_current_point, turned, tenth, hundredth,
}

-- A request; `to_current_point` comes with the answer of the host.
pub data Request : Type 0 where
  to_state to_mode : String → Request
  to_target by_angle : F64 → Request
  engaging disengaging to_next_point : Request
  tacking gybing : TackDirection → Request
  dodging : Option F64 → Request
  to_current_point : (String → Result (Option Json) PluginError) → Request

abbrev is_ok : Result Unit PluginError → Bool
is_ok (ok u) = true
is_ok (err e) = false

-- The autopilot as its users see it: whether it steers, and by what.
abbrev Helm : Type 0
Helm = Bool × AutopilotMode

abbrev pub helm : AutopilotState → Helm
helm st = (st.enabled, st.mode)

unfoldable or_same : AutopilotMode → Result AutopilotMode String → AutopilotMode
or_same m (ok m') = m'
or_same m (err e) = m

-- What a request means where it is accepted.
unfoldable obey : Helm → Request → Helm
unfolding or_same
obey (e, m) (to_state s) = (s == "enabled", m)
obey (e, m) (to_mode s) = (e, or_same m (parse_mode s))
obey (e, m) (to_target x) = (e, m)
obey (e, m) (by_angle x) = (e, m)
obey (e, m) engaging = (true, m)
obey (e, m) disengaging = (false, m)
obey (e, m) to_next_point = (true, route)
obey (e, m) (tacking d) = (e, m)
obey (e, m) (gybing d) = (e, m)
obey (e, m) (dodging x) = (e, m)
obey (e, m) (to_current_point read) = (true, route)

unfoldable pub obey_all : Helm → List Request → Helm
unfolding obey
obey_all h [] = h
obey_all h (r ∷ rs) = obey_all (obey h r) rs

is_route_lem : (m : AutopilotMode) → is_route m ≡ true → m ≡ route
unfolding is_route
is_route_lem AutopilotMode.compass e = absurd (cc)
is_route_lem AutopilotMode.wind e = absurd (cc)
is_route_lem AutopilotMode.route e = refl

module _ (F : FloatOps) (normalize : F64 → F64) where
  unfoldable pub step : AutopilotState → Request → Outcome
  step st (to_state s) = set_state st s
  step st (to_mode s) = set_mode st s
  step st (to_target x) = set_target st x
  step st (by_angle x) = adjust_target F normalize st x
  step st engaging = engage st
  step st disengaging = disengage st
  step st to_next_point = course_next_point st
  step st (tacking d) = tack F st d
  step st (gybing d) = gybe F st d
  step st (dodging x) = dodge st x
  step st (to_current_point read) = course_current_point F read st

  unfoldable pub run : AutopilotState → List Request → AutopilotState
  unfolding step
  run st [] = st
  run st (r ∷ rs) = run (step st r).0 rs

  -- The requests of a run that are accepted.
  unfoldable pub accepted : AutopilotState → List Request → List Request
  unfolding step
  accepted st [] = []
  accepted st (r ∷ rs) =
      let rest = accepted (step st r).0 rs in if is_ok (step st r).1 then r ∷ rest else rest

  -- A request that is refused leaves the state, and one that is accepted does what it means.
  unfoldable Obeys : AutopilotState → Helm → Outcome → Type 0
  Obeys st h (st', ok u) = helm st' ≡ h
  Obeys st h (st', err e) = st' ≡ st

  refused-Obeys : (st : AutopilotState) (h : Helm) (e : PluginError) → Obeys st h (st, err e)
  unfolding Obeys
  refused-Obeys st h e = refl

  granted-Obeys : (st st' : AutopilotState) (h : Helm) → helm st' ≡ h → Obeys st h (st', ok tt)
  unfolding Obeys
  granted-Obeys st st' h same = same

  choice-Obeys :
      (b : Bool) (st : AutopilotState) (h : Helm) (o o' : Outcome)
      → (b ≡ true → Obeys st h o)
      → (b ≡ false → Obeys st h o')
      → Obeys st h (if b then o else o')
  choice-Obeys true st h o o' holds fails = holds refl
  choice-Obeys false st h o o' holds fails = fails refl

  with_mode-Obeys :
      (st : AutopilotState) (m : Result AutopilotMode String)
      → Obeys st (st.enabled, or_same st.mode m) (with_mode st m)
  unfolding with_mode or_same
  with_mode-Obeys st (ok m) = granted-Obeys st _ _ refl
  with_mode-Obeys st (err e) = refused-Obeys st _ _

  two_tests-Obeys :
      (b c : Bool) (st st' : AutopilotState) (h : Helm) (e e' : PluginError)
      → helm st' ≡ h
      → Obeys st h (if b then (st, err e) else if c then (st, err e') else (st', ok tt))
  two_tests-Obeys true c st st' h e e' same = refused-Obeys st h e
  two_tests-Obeys false true st st' h e e' same = refused-Obeys st h e'
  two_tests-Obeys false false st st' h e e' same = granted-Obeys st st' h same

  maneuver-Obeys :
      (what : String) (st : AutopilotState) (d : TackDirection)
      → Obeys st (helm st) (maneuver F what st d)
  unfolding maneuver
  maneuver-Obeys what st d =
      let current = unwrap_or st.target_rad L.zero in
      let new_target = turned F d (F.max (F.abs current) tenth) in
      two_tests-Obeys (not (is_wind st.mode)) (F.lt (F.abs (F.sub new_target current)) hundredth) st
        (record st { target_rad = some new_target; last_error_rad = L.zero }) (helm st)
        (bad_request (what <> " requires wind mode")) (runtime ("already on that " <> what)) refl

  follow_bearing-Obeys :
      (st : AutopilotState) (bearing : Option F64)
      → Obeys st (true, route) (follow_bearing F st bearing)
  unfolding follow_bearing
  follow_bearing-Obeys st none = refused-Obeys st _ _
  follow_bearing-Obeys st (some x) = granted-Obeys st _ _ refl

  follow_answer-Obeys :
      (st : AutopilotState) (answer : Result (Option Json) PluginError)
      → Obeys st (true, route) (follow_answer F st answer)
  unfolding follow_answer
  follow_answer-Obeys st (err e) = refused-Obeys st _ _
  follow_answer-Obeys st (ok v) = follow_bearing-Obeys st (v >>= F.as_f64)

  set_state-Obeys :
      (st : AutopilotState) (s : String) → Obeys st (s == "enabled", st.mode) (set_state st s)
  unfolding set_state engage disengage
  set_state-Obeys st s =
      choice-Obeys (s == "enabled") st (s == "enabled", st.mode) (engage st)
        (if s == "disabled"
          then disengage st
          else (st, err (runtime ("unknown autopilot state: " <> s))))
        (λ e. granted-Obeys st _ _ (ap (λ b. (b, st.mode)) (sym e)))
        (λ e.
          choice-Obeys (s == "disabled") st (s == "enabled", st.mode) (disengage st)
            (st, err (runtime ("unknown autopilot state: " <> s)))
            (λ e'. granted-Obeys st _ _ (ap (λ b. (b, st.mode)) (sym e)))
            (λ e'. refused-Obeys st _ _))

  course_next_point-Obeys : (st : AutopilotState) → Obeys st (true, route) (course_next_point st)
  unfolding course_next_point
  course_next_point-Obeys st =
      choice-Obeys (is_route st.mode) st (true, route) (record st { enabled = true }, ok tt)
        (
          record st { mode = route; last_error_rad = L.zero; last_tick_at = none; enabled = true },
          ok tt,
        )
        (λ e. granted-Obeys st _ _ (ap (λ m. (true, m)) (is_route_lem st.mode e)))
        (λ e. granted-Obeys st _ _ refl)

  step-Obeys : (st : AutopilotState) (r : Request) → Obeys st (obey (helm st) r) (step st r)
  unfolding step obey set_mode set_target adjust_target engage disengage tack gybe dodge
      course_current_point
  step-Obeys st (to_state s) = set_state-Obeys st s
  step-Obeys st (to_mode s) = with_mode-Obeys st (parse_mode s)
  step-Obeys st (to_target x) = granted-Obeys st _ _ refl
  step-Obeys st (by_angle x) = granted-Obeys st _ _ refl
  step-Obeys st engaging = granted-Obeys st _ _ refl
  step-Obeys st disengaging = granted-Obeys st _ _ refl
  step-Obeys st to_next_point = course_next_point-Obeys st
  step-Obeys st (tacking d) = maneuver-Obeys "tack" st d
  step-Obeys st (gybing d) = maneuver-Obeys "gybe" st d
  step-Obeys st (dodging x) = granted-Obeys st _ _ refl
  step-Obeys st (to_current_point read) =
      follow_answer-Obeys st (read "navigation.course.calcValues.bearingTrackTrue")

  heard :
      (st : AutopilotState) (r : Request) (rest : List Request) (o : Outcome)
      → Obeys st (obey (helm st) r) o
      → obey_all (helm o.0) rest ≡ obey_all (helm st) (if is_ok o.1 then r ∷ rest else rest)
  unfolding Obeys obey_all
  heard st r rest (st', ok u) same = ap (λ h. obey_all h rest) same
  heard st r rest (st', err e) same = ap (λ s. obey_all (helm s) rest) same

  -- Over any requests, whether the autopilot steers and its mode are what the accepted requests, in
  -- their order, make of them; the refused ones have no part in it.
  pub run-obey_all :
      (st : AutopilotState) (rs : List Request)
      → helm (run st rs) ≡ obey_all (helm st) (accepted st rs)
  unfolding run accepted obey_all
  run-obey_all st [] = refl
  run-obey_all st (r ∷ rs) =
      let st' = (step st r).0 in
      run-obey_all st' rs ∙ heard st r (accepted st' rs) (step st r) (step-Obeys st r)

  refused-same :
      (st : AutopilotState) (h : Helm) (o : Outcome) → Obeys st h o → is_ok o.1 ≡ false → o.0 ≡ st
  unfolding Obeys
  refused-same st h (st', ok u) same refused = absurd (cc)
  refused-same st h (st', err e) same refused = same

  -- A request that is refused, whichever it is and for whatever reason, changes nothing at all.
  pub step-refused :
      (st : AutopilotState) (r : Request) → is_ok (step st r).1 ≡ false → (step st r).0 ≡ st
  step-refused st r refused =
      refused-same st (obey (helm st) r) (step st r) (step-Obeys st r) refused
