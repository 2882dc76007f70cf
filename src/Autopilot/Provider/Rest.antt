-- ===== src/Autopilot/Provider/Rest.antt =====
-- The time of the last tick, over requests (crates/plugins/autopilot/src/provider.rs) and the writes
-- of the control loop (crates/plugins/autopilot/src/lib.rs).
use signalk_rs.Prelude.{
  ℕ, ◌≡◌, refl, false, Option, none, some, List, [], ◌∷◌, String, arith, ap, Bool, true, not, ◌&&◌,
  ◌||◌, ◌>>=◌,
}
use signalk_rs.Types.Json.{Json, F64}
use signalk_rs.Types.Float.{FloatOps}
use signalk_rs.Server.{Result, ok, err, PluginError}
use signalk_rs.Autopilot.State.{AutopilotMode, AutopilotState, new_state, let_go, ticked}
use signalk_rs.Autopilot.Provider.{
  TackDirection, engage, disengage, set_state, with_mode, set_mode, set_target, dodge,
  course_next_point, adjust_target, maneuver, tack, gybe, follow_bearing, follow_answer,
  course_current_point,
}
use signalk_rs.Autopilot.Provider.Requests.{
  Request, to_state, to_mode, to_target, by_angle, engaging, disengaging, to_next_point, tacking,
  gybing, dodging, to_current_point, step,
}

-- What happens, in the order of the lock: a request; a tick of the control loop that begins with its
-- snapshot; the loop that lets go in the tick that runs; and its end, which writes the rudder, the error and
-- the time of the tick. Requests may come between the snapshot and the write.
pub data Event : Type 0 where
  request : Request → Event
  begins letting_go : Event
  ends : F64 → F64 → ℕ → Event

-- The shared state, and whether a tick runs whose snapshot was engaged.
abbrev Loop : Type 0
Loop = AutopilotState × Bool

-- The snapshot: the loop goes on with the tick where it finds the autopilot engaged.
unfoldable begin_tick : Loop → Loop
begin_tick (st, running) = (st, st.enabled)

unfoldable abort_tick : Loop → Loop
unfolding let_go
abort_tick (st, false) = (st, false)
abort_tick (st, true) = (let_go st, false)

-- The write does not look at `enabled` again.
unfoldable end_tick : Loop → F64 → F64 → ℕ → Loop
unfolding ticked
end_tick (st, false) rudder error now = (st, false)
end_tick (st, true) rudder error now = (ticked st rudder error now, false)

module _ (F : FloatOps) (normalize : F64 → F64) where
  unfoldable happen : Loop → Event → Loop
  unfolding step begin_tick abort_tick end_tick
  happen (st, running) (request r) = ((step F normalize st r).0, running)
  happen l begins = begin_tick l
  happen l letting_go = abort_tick l
  happen l (ends rudder error now) = end_tick l rudder error now

  unfoldable pub happen_all : Loop → List Event → Loop
  unfolding happen
  happen_all l [] = l
  happen_all l (e ∷ es) = happen_all (happen l e) es

  -- The tick that ends, if any, finds the autopilot still engaged.
  unfoldable is_timely : Loop → Event → Bool
  is_timely (st, running) (request r) = true
  is_timely (st, running) begins = true
  is_timely (st, running) letting_go = true
  is_timely (st, running) (ends rudder error now) = not running || st.enabled

  unfoldable pub all_timely : Loop → List Event → Bool
  unfolding is_timely happen
  all_timely l [] = true
  all_timely l (e ∷ es) = let rest = all_timely (happen l e) es in is_timely l e && rest

  abbrev IsRested : AutopilotState → Type 0
  IsRested st = st.enabled ≡ false → st.last_tick_at ≡ none

  with_mode-IsRested :
      (st : AutopilotState) (m : Result AutopilotMode String)
      → IsRested st
      → IsRested (with_mode st m).0
  unfolding with_mode
  with_mode-IsRested st (ok m) h = λ e. refl
  with_mode-IsRested st (err e) h = h

  follow_bearing-IsRested :
      (st : AutopilotState) (bearing : Option F64)
      → IsRested st
      → IsRested (follow_bearing F st bearing).0
  unfolding follow_bearing
  follow_bearing-IsRested st none h = h
  follow_bearing-IsRested st (some x) h = λ e. refl

  follow_answer-IsRested :
      (st : AutopilotState) (answer : Result (Option Json) PluginError)
      → IsRested st
      → IsRested (follow_answer F st answer).0
  unfolding follow_answer
  follow_answer-IsRested st (err e) h = h
  follow_answer-IsRested st (ok v) h = follow_bearing-IsRested st (v >>= F.as_f64) h

  set_state-IsRested :
      (st : AutopilotState) (s : String) → IsRested st → IsRested (set_state st s).0
  unfolding set_state engage disengage
  set_state-IsRested st s h off = ground (arith, h, off)

  course_next_point-IsRested :
      (st : AutopilotState) → IsRested st → IsRested (course_next_point st).0
  unfolding course_next_point
  course_next_point-IsRested st h off = ground (arith, h, off)

  maneuver-IsRested :
      (what : String) (st : AutopilotState) (d : TackDirection)
      → IsRested st
      → IsRested (maneuver F what st d).0
  unfolding maneuver
  maneuver-IsRested what st d h off = ground (arith, h, off)

  step-IsRested :
      (st : AutopilotState) (r : Request) → IsRested st → IsRested (step F normalize st r).0
  unfolding step set_mode set_target adjust_target engage disengage tack gybe dodge
      course_current_point
  step-IsRested st (to_state s) h = set_state-IsRested st s h
  step-IsRested st (to_mode s) h = with_mode-IsRested st _ h
  step-IsRested st (to_target x) h = h
  step-IsRested st (by_angle x) h = h
  step-IsRested st engaging h = λ e. absurd (cc)
  step-IsRested st disengaging h = λ e. refl
  step-IsRested st to_next_point h = course_next_point-IsRested st h
  step-IsRested st (tacking d) h = maneuver-IsRested "tack" st d h
  step-IsRested st (gybing d) h = maneuver-IsRested "gybe" st d h
  step-IsRested st (dodging x) h = h
  step-IsRested st (to_current_point read) h = follow_answer-IsRested st _ h

  abort_tick-IsRested : (l : Loop) → IsRested l.0 → IsRested (abort_tick l).0
  unfolding abort_tick let_go
  abort_tick-IsRested (st, false) h = h
  abort_tick-IsRested (st, true) h = λ stopped. refl

  end_tick-IsRested :
      (l : Loop) (rudder error : F64) (now : ℕ)
      → (not l.1 || l.0.enabled) ≡ true
      → IsRested l.0
      → IsRested (end_tick l rudder error now).0
  unfolding end_tick ticked
  end_tick-IsRested (st, false) rudder error now timely h = h
  end_tick-IsRested (st, true) rudder error now timely h = λ stopped. absurd (cc)

  happen-IsRested :
      (l : Loop) (e : Event) → is_timely l e ≡ true → IsRested l.0 → IsRested (happen l e).0
  unfolding happen is_timely begin_tick
  happen-IsRested (st, running) (request r) timely h = step-IsRested st r h
  happen-IsRested (st, running) begins timely h = h
  happen-IsRested (st, running) letting_go timely h = abort_tick-IsRested (st, running) h
  happen-IsRested (st, running) (ends rudder error now) timely h =
      end_tick-IsRested (st, running) rudder error now timely h

  both_true : (a b : Bool) → (a && b) ≡ true → (a ≡ true) × (b ≡ true)
  both_true true b e = (refl, e)
  both_true false b e = absurd (cc)

  happen_all-keeps :
      (l : Loop) (es : List Event)
      → all_timely l es ≡ true
      → IsRested l.0
      → IsRested (happen_all l es).0
  unfolding happen_all all_timely
  happen_all-keeps l [] timely h = h
  happen_all-keeps l (e ∷ es) timely h =
      let (now, later) : (is_timely l e ≡ true) × (all_timely (happen l e) es ≡ true) =
        both_true (is_timely l e) (all_timely (happen l e) es) timely in
      happen_all-keeps (happen l e) es later (happen-IsRested l e now h)

  -- From a new state, over any requests and ticks of the control loop in any order: as long as each
  -- tick that writes its result finds the autopilot still engaged, it has no time of a last tick
  -- while it does not steer.
  pub happen_all-IsRested :
      (mode : AutopilotMode) (es : List Event)
      → all_timely (new_state mode, false) es ≡ true
      → (happen_all (new_state mode, false) es).0.enabled ≡ false
      → (happen_all (new_state mode, false) es).0.last_tick_at ≡ none
  unfolding new_state
  happen_all-IsRested mode es timely stopped =
      happen_all-keeps (new_state mode, false) es timely (λ e. refl) stopped

  -- A tick that ends after a disengage request leaves its time behind, and engaging the autopilot again
  -- keeps it.
  late_tick :
      (st : AutopilotState) (rudder error : F64) (now : ℕ)
      → st.enabled ≡ true
      → (happen_all
          (st, false)
          (begins
            ∷ request disengaging
            ∷ ends rudder error now
            ∷ request engaging
            ∷ [])).0.last_tick_at
        ≡ some now
  unfolding happen_all happen begin_tick end_tick ticked step disengage engage
  late_tick st rudder error now on =
      ap
        (λ b.
          (end_tick (record st { enabled = false; last_tick_at = none }, b) rudder error
            now).0.last_tick_at)
        on
