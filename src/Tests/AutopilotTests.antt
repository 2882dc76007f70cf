-- ===== src/Tests/AutopilotTests.antt =====
-- The autopilot's algorithms (crates/plugins/autopilot/src/pd.rs) and the simplification of tracks
-- (crates/plugins/tracks/src/simplify.rs) on small inputs. Floats are whole numbers here, and a
-- fraction of one is 1. In `huge`, a subtraction changes nothing: the numbers are too large.
use signalk_rs.Prelude.{
  ◌+◌, ◌-◌, ◌*◌, ◌<◌, ◌≡◌, refl, arith, true, false, none, some, List, [], ◌∷◌, ltb, leb, is_some,
  if◌then◌else◌,
}
use signalk_rs.Types.Json.{Json, Number, F64}
use signalk_rs.Types.Float.{FloatOps, pi}
use signalk_rs.Autopilot.{
  PidConfig, new_recovery, new_monitor, compute, normalize_angle, new_controller, update_recovery,
  update_feedback,
}
use signalk_rs.Autopilot.Bounds.{compute-Within, Within}
use signalk_rs.Autopilot.Recovery.{recovery_ends}
use signalk_rs.Autopilot.Recovery as Recovery
use signalk_rs.Autopilot.Feedback.{run_from-Alternates, Alternates}
use signalk_rs.Autopilot.Feedback as Feedback
use signalk_rs.Autopilot.Angles.{normalize_angle-stuck}
use signalk_rs.Autopilot.State.{AutopilotState, compass, new_state, parse_mode, is_wind, let_go}
use signalk_rs.Autopilot.Provider.{
  port, starboard, maneuver, tenth, set_mode, tack, engage, set_target, set_state,
}
use signalk_rs.Autopilot.Provider.Requests.{
  Request, to_state, to_mode, to_target, engaging, tacking, helm, obey_all, accepted, run,
  run-obey_all, step, step-refused,
}
use signalk_rs.Autopilot.Provider.Rest.{
  Event, request, begins, letting_go, ends, happen_all, all_timely, happen_all-IsRested,
}
use signalk_rs.Autopilot.Provider.Tacks.{by_tack, by_gybe, turn_all, magnitude, turn_all-magnitude}
use signalk_rs.Tracks.{Point, simplify_track_points}
use signalk_rs.Tracks.Kept.{first_of, last_of, simplify_track_points-ends}
use signalk_rs.Tracks.Ends.{simplify_track_points-is_some}

-- x brought between lo and hi.
abbrev between : F64 → F64 → F64 → F64
between x lo hi = if leb x lo then lo else if leb hi x then hi else x

abbrev floats : FloatOps
floats = record {
  lt = ltb;
  le = leb;
  is_finite = λ a. true;
  add = λ a b. a + b;
  sub = λ a b. (a - b) + (b - a);
  mul = λ a b. if leb b 1000 then a * b else 1;
  div = λ a b. a;
  rem_euclid = λ a b. a;
  sqrt = λ a. a;
  sin = λ a. a;
  cos = λ a. a;
  asin = λ a. a;
  atan2 = λ a b. a;
  powi = λ a n. a;
  to_radians = λ a. a;
  abs = λ a. a;
  neg = λ a. 0;
  signum = λ a. 1;
  max = λ a b. a + (b - a);
  powf = λ a b. a;
  ne = λ a b. false;
  clamp = between;
  sum = λ l. 0;
  as_f64 = λ j. none;
  value = λ a. Json.number (Number.pos_int a);
}

abbrev huge : FloatOps
huge = record floats { sub = λ a b. a }

abbrev config : PidConfig
config = record { gain_p = 2; gain_i = 1; gain_d = 1; dead_zone_rad = 1; max_rudder_rad = 30 }

between-Within : (x lo hi : F64) → leb lo hi ≡ true → Within floats lo hi (between x lo hi)
between-Within x lo hi order = ground (arith, order)

-- An error of 50: the rudder is at its limit.
compute-Within_example : Within floats 0 30 (compute floats (new_controller 10) 50 0 1 config).1
compute-Within_example =
    compute-Within floats (new_controller 10) 50 0 1 config
      (λ x lo hi order number. between-Within x lo hi order) (λ x lo hi nan. absurd (cc)) refl
      (refl, refl) refl

-- Of at most four active answers in a row, two.
recovery_ends_example : 2 < 4
unfolding Recovery.all_active update_recovery Recovery.run new_recovery
recovery_ends_example = recovery_ends floats 5 4 (10 ∷ []) (10 ∷ 9 ∷ []) (omega arith) refl

-- A mismatch of 20 for two ticks, then none, then again two ticks.
abbrev ticks : List Feedback.Tick
ticks = (30, some 10) ∷ (30, some 10) ∷ (30, some 30) ∷ (30, some 10) ∷ (30, some 10) ∷ []

announced : (Feedback.run floats 5 2 new_monitor ticks).1 ≡ true ∷ false ∷ true ∷ []
unfolding update_feedback new_monitor Feedback.run
announced = refl

run_from-Alternates_example :
    Feedback.Alternates floats 5 2 false
      (Feedback.run floats 5 2 new_monitor ticks).1
      (Feedback.run floats 5 2 new_monitor ticks).0.alarm_active
run_from-Alternates_example = run_from-Alternates floats 5 2 ticks

normalize_angle-stuck_example : normalize_angle huge 100 (pi + 1) ≡ none
normalize_angle-stuck_example = normalize_angle-stuck huge 100 (pi + 1) refl refl

-- A corner between two points.
abbrev corner : List Point
corner = (1, 1) ∷ (1, 9) ∷ (9, 9) ∷ []

simplify_track_points-is_some_example :
    is_some (simplify_track_points floats (λ p. p) corner 1) ≡ true
simplify_track_points-is_some_example =
    simplify_track_points-is_some floats (λ a b below. ground (arith, below)) (λ p. p) corner 1

simplified : simplify_track_points floats (λ p. p) corner 1 ≡ some corner
unfolding simplify_track_points
simplified = refl

-- With a large tolerance the point between the ends is left out.
simplified_far : simplify_track_points floats (λ p. p) corner 1000000 ≡ some ((1, 1) ∷ (9, 9) ∷ [])
unfolding simplify_track_points
simplified_far = refl

simplify_track_points-ends_example :
    (first_of ((1, 1) ∷ (9, 9) ∷ []) ≡ first_of corner)
    × (last_of ((1, 1) ∷ (9, 9) ∷ []) ≡ last_of corner)
simplify_track_points-ends_example =
    simplify_track_points-ends floats (λ p. p) corner 1000000 ((1, 1) ∷ (9, 9) ∷ []) simplified_far

-- A number is its own negative: only its distance from 0 is known.
abbrev unsigned : FloatOps
unsigned = record floats { neg = λ a. a }

abbrev requests : List Request
requests =
    engaging
    ∷ to_mode "wind"
    ∷ to_mode "sideways"
    ∷ to_target tenth
    ∷ tacking starboard
    ∷ to_state "off"
    ∷ []

-- The unknown mode, the tack to where the boat already is and the unknown state are refused.
requests-accepted :
    accepted unsigned (λ x. x) (new_state compass) requests
    ≡ engaging ∷ to_mode "wind" ∷ to_target tenth ∷ []
unfolding accepted new_state engage set_mode parse_mode set_target set_state tack maneuver is_wind
requests-accepted = refl

run-obey_all_example :
    helm (run unsigned (λ x. x) (new_state compass) requests)
    ≡ obey_all (helm (new_state compass)) (accepted unsigned (λ x. x) (new_state compass) requests)
run-obey_all_example = run-obey_all unsigned (λ x. x) (new_state compass) requests

step-refused_example :
    (step unsigned (λ x. x) (new_state compass) (tacking port)).0 ≡ new_state compass
unfolding step tack maneuver new_state is_wind
step-refused_example = step-refused unsigned (λ x. x) (new_state compass) (tacking port) refl

abbrev events : List Event
events =
    request engaging
    ∷ begins
    ∷ request (to_mode "wind")
    ∷ ends 3 4 1000
    ∷ begins
    ∷ letting_go
    ∷ begins
    ∷ ends 5 6 2000
    ∷ []

happen_all-IsRested_example :
    (happen_all unsigned (λ x. x) (new_state compass, false) events).0.last_tick_at ≡ none
unfolding happen_all all_timely new_state engage parse_mode set_mode let_go
happen_all-IsRested_example = happen_all-IsRested unsigned (λ x. x) compass events refl refl

-- A boat in wind mode, 40 from the bow.
abbrev sailing : AutopilotState
sailing = run unsigned (λ x. x) (new_state compass) (to_mode "wind" ∷ to_target 40 ∷ [])

turn_all-magnitude_example :
    magnitude unsigned (turn_all unsigned sailing (by_tack port ∷ by_gybe starboard ∷ []))
    ≡ magnitude unsigned sailing
turn_all-magnitude_example =
    turn_all-magnitude unsigned (λ x. refl) (λ x. refl) (λ x. omega arith) sailing
      (by_tack port ∷ by_gybe starboard ∷ [])
