-- ===== src/Ais/Runs.antt =====
-- Any sequence of calls on the tracker of crates/plugins/ais-status/src/tracker.rs.
use signalk_rs.Prelude.{Bool, Option, List, [], ◌∷◌, String}
use signalk_rs.Prelude.Assoc.{lookup}
use signalk_rs.Types.Json.{Json, F64}
use signalk_rs.Subscription.{Instant}
use signalk_rs.Ais.{AisTracker, TrackerConfig, with_config}
use signalk_rs.Ais.Tracker.{update_target, update_target_cpa, tick}
use signalk_rs.Ais.Keys.{
  IsConsistent, update_target-IsConsistent, tick-IsConsistent, update_target_cpa-IsConsistent,
}

-- What the plugin asks of the tracker.
pub data Call : Type 0 where
  hears : String → List (String × Json) → Instant → Call
  ticks : Instant → Call
  computes : String → F64 → F64 → Bool → Call

abbrev pub call : (Json → Option F64) → AisTracker → Call → AisTracker
call as_f64 t (hears context values now) = (update_target as_f64 t context values now).0
call as_f64 t (ticks now) = (tick t now).0
call as_f64 t (computes mmsi cpa_m tcpa_s alarm_active) =
    update_target_cpa t mmsi cpa_m tcpa_s alarm_active

unfoldable pub run : (Json → Option F64) → AisTracker → List Call → AisTracker
run as_f64 t [] = t
run as_f64 t (c ∷ calls) = run as_f64 (call as_f64 t c) calls

pub call-IsConsistent :
    (as_f64 : Json → Option F64) (t : AisTracker) (c : Call)
    → IsConsistent t
    → IsConsistent (call as_f64 t c)
call-IsConsistent as_f64 t (hears context values now) ok =
    update_target-IsConsistent as_f64 t context values now ok
call-IsConsistent as_f64 t (ticks now) ok = tick-IsConsistent t now ok
call-IsConsistent as_f64 t (computes mmsi cpa_m tcpa_s alarm_active) ok =
    update_target_cpa-IsConsistent t mmsi cpa_m tcpa_s alarm_active ok

run_keeps :
    (as_f64 : Json → Option F64) (t : AisTracker) (calls : List Call)
    → IsConsistent t
    → IsConsistent (run as_f64 t calls)
unfolding run
run_keeps as_f64 t [] ok = ok
run_keeps as_f64 t (c ∷ calls) ok =
    run_keeps as_f64 (call as_f64 t c) calls (call-IsConsistent as_f64 t c ok)

-- After any calls on a new tracker no MMSI stands twice, and every target carries the MMSI it is
-- kept under, the class of that MMSI and the thresholds its class has in the tracker's
-- configuration.
pub run-IsConsistent :
    (as_f64 : Json → Option F64) (self_uri : String) (config : TrackerConfig) (calls : List Call)
    → IsConsistent (run as_f64 (with_config self_uri config) calls)
unfolding with_config lookup
run-IsConsistent as_f64 self_uri config calls =
    run_keeps as_f64 (with_config self_uri config) calls (λ mmsi x e. absurd (cc), tt)
