-- ===== src/Tests/AisTests.antt =====
-- crates/plugins/ais-status/src/tracker.rs on a ferry.
use signalk_rs.Prelude.{◌<>◌, ◌≡◌, Option, none, List, [], ◌∷◌, String, ◌>>=◌}
use signalk_rs.Types.Json.{Json, F64, string}
use signalk_rs.Ais.{TrackerConfig, AisTracker, with_config}
use signalk_rs.Ais.Tracker.{get_target, tick}
use signalk_rs.Ais.Tick.{survivor, get_target-tick}
use signalk_rs.Ais.Own.{get_target-own}
use signalk_rs.Ais.Keys.{IsConsistent}
use signalk_rs.Ais.Runs.{Call, hears, run, run-IsConsistent}

abbrev as_f64 : Json → Option F64
as_f64 v = none

abbrev plain : TrackerConfig
plain = record { vessel = none; aton = none; base = none; sar = none }

abbrev ferry : String
ferry = "244000042"

abbrev ferry_context : String
ferry_context = "vessels.urn:mrn:imo:mmsi:244000042"

abbrev calls : List Call
calls =
    hears ferry_context (("name", string "Ferry") ∷ []) 1000000000
    ∷ hears ferry_context [] 2000000000
    ∷ []

abbrev tracker : AisTracker
tracker = run as_f64 (with_config "urn:mrn:imo:mmsi:244000001" plain) calls

get_target-tick_example :
    get_target (tick tracker 500000000000).0 ferry
    ≡ (get_target tracker ferry >>= survivor 500000000000)
get_target-tick_example =
    get_target-tick tracker 500000000000 ferry
      (run-IsConsistent as_f64 "urn:mrn:imo:mmsi:244000001" plain calls).1

run-IsConsistent_example : IsConsistent tracker
run-IsConsistent_example = run-IsConsistent as_f64 "urn:mrn:imo:mmsi:244000001" plain calls

get_target-own_example :
    get_target (run as_f64 (with_config ("urn:mrn:imo:mmsi:" <> ferry) plain) calls) ferry ≡ none
get_target-own_example = get_target-own as_f64 ferry plain calls
