-- ===== src/Autopilot/Feedback.antt =====
-- The alarm of the rudder feedback: crates/plugins/autopilot/src/pd.rs.
use signalk_rs.Prelude.{
  ℕ, ◌≡◌, refl, subst, Bool, false, not, Option, none, some, List, [], ◌∷◌, unwrap_or, arith,
}
use signalk_rs.Types.Json.{F64}
use signalk_rs.Types.Float.{FloatOps}
use signalk_rs.Autopilot.{RudderFeedbackMonitor, new_monitor, mismatched, matched, update_feedback}

-- A tick: the angle that was commanded, and the measured one, if any.
abbrev pub Tick : Type 0
Tick = F64 × Option F64

module _ (F : FloatOps) (threshold_rad : F64) (timeout_ticks : ℕ) where
  abbrev update : RudderFeedbackMonitor → Tick → RudderFeedbackMonitor × Option Bool
  update m (commanded, actual) = update_feedback F m commanded actual threshold_rad timeout_ticks

  -- What is announced over some ticks, in order, and the state afterwards.
  unfoldable pub run : RudderFeedbackMonitor → List Tick → RudderFeedbackMonitor × List Bool
  run m [] = (m, [])
  run m (t ∷ ts) =
      let (m', change) = update m t in
      let (m'', changes) = run m' ts in (m'', elim change [ none ↦ changes | some b ↦ b ∷ changes ])

  -- The announcements alternate, beginning with the opposite of the given one, and end with the
  -- alarm's state.
  abbrev pub Alternates : Bool → List Bool → Bool → Type 0
  Alternates last [] now = now ≡ last
  Alternates last (b ∷ bs) now = (b ≡ not last) × Alternates b bs now

  update-alarm :
      (m : RudderFeedbackMonitor) (t : Tick)
      → (update m t).0.alarm_active ≡ unwrap_or (update m t).1 m.alarm_active
  unfolding update_feedback mismatched matched
  update-alarm m (commanded, none) = refl
  update-alarm m (commanded, some actual) = ground arith

  update-change :
      (m : RudderFeedbackMonitor) (t : Tick) (b : Bool)
      → (update m t).1 ≡ some b
      → b ≡ not m.alarm_active
  unfolding update_feedback mismatched matched
  update-change m (commanded, none) b e = absurd (cc)
  update-change m (commanded, some actual) b e = ground (arith, e)

  announced-Alternates :
      (before : Bool) (change : Option Bool) (changes : List Bool) (now : Bool)
      → ((b : Bool) → change ≡ some b → b ≡ not before)
      → Alternates (unwrap_or change before) changes now
      → Alternates before (elim change [ none ↦ changes | some b ↦ b ∷ changes ]) now
  announced-Alternates before none changes now differs h = h
  announced-Alternates before (some b) changes now differs h = (differs b refl, h)

  run-Alternates :
      (m : RudderFeedbackMonitor) (ts : List Tick)
      → Alternates m.alarm_active (run m ts).1 (run m ts).0.alarm_active
  unfolding run
  run-Alternates m [] = refl
  run-Alternates m (t ∷ ts) =
      let m' = (update m t).0 in
      announced-Alternates m.alarm_active (update m t).1 (run m' ts).1 (run m' ts).0.alarm_active
        (update-change m t)
        (subst (λ b. Alternates b (run m' ts).1 (run m' ts).0.alarm_active) (update-alarm m t)
          (run-Alternates m' ts))

  -- From a new monitor, over any ticks: the alarm is announced and withdrawn in turns, beginning with
  -- an announcement, and the alarm is on just when the last thing said was that it is.
  pub run_from-Alternates :
      (ts : List Tick) → Alternates false (run new_monitor ts).1 (run new_monitor ts).0.alarm_active
  unfolding new_monitor
  run_from-Alternates ts = run-Alternates new_monitor ts
