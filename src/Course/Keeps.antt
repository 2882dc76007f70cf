-- ===== src/Course/Keeps.antt =====
-- What publishing a course leaves as it is (crates/signalk-server/src/course/manager.rs).
use signalk_rs.Prelude.{◌≡◌, refl, some, List, [], ◌∷◌}
use signalk_rs.Types.Delta.{PathValue}
use signalk_rs.Server.{Result, ok, err, PluginError}
use signalk_rs.Course.{CourseState}
use signalk_rs.Course.Manager.{
  CourseManager, Clock, Env, send_some, emit_deltas, emitted, publish, persist_state,
}

-- The course in memory, its source and the configuration are the same.
pub record Keeps (W : Type 0) (m m' : CourseManager W) : Type 0 where
  pub state : m'.state ≡ m.state
  pub source : m'.source ≡ m.source
  pub config : m'.config ≡ m.config

module _ (W : Type 0) (E : Env W) where
  send_some-Keeps :
      (m : CourseManager W) (t : Clock) (values : List PathValue)
      → Keeps W m (send_some W E m t values)
  unfolding send_some
  send_some-Keeps m t [] = record { state = refl; source = refl; config = refl }
  send_some-Keeps m t (v ∷ vs) = record { state = refl; source = refl; config = refl }

  pub emit_deltas-Keeps :
      (m : CourseManager W) (t : Clock) (c : CourseState) → Keeps W m (emit_deltas W E m t c)
  unfolding emit_deltas
  emit_deltas-Keeps m t c =
      let kept = send_some-Keeps _ t _ in
      record { state = kept.state; source = kept.source; config = kept.config }

  emitted-Keeps :
      (m : CourseManager W) (t : Clock) (c : CourseState) (saved : W × Result Unit PluginError)
      → Keeps W m (emitted W E m t c saved).0
  unfolding emitted
  emitted-Keeps m t c (w, err e) = record { state = refl; source = refl; config = refl }
  emitted-Keeps m t c (w, ok u) =
      let kept = emit_deltas-Keeps (record m { world = w }) t c in
      record { state = kept.state; source = kept.source; config = kept.config }

  pub publish-Keeps :
      (m : CourseManager W) (t : Clock) (c : CourseState) → Keeps W m (publish W E m t c).0
  unfolding publish
  publish-Keeps m t c = emitted-Keeps m t c (persist_state W E m.state_file (some c) m.world)
