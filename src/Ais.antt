-- ===== src/Ais.antt =====
-- crates/plugins/ais-status/src/tracker.rs: which AIS targets there are and whether they are still
-- heard. An `Instant` is a number of nanoseconds since the earliest one, a `Duration` a number of
-- nanoseconds. `as_f64` is serde_json's conversion of a number to a float.
pub mod Tracker
pub mod Confirm
pub mod Tick
pub mod Keys
pub mod Runs
pub mod Own
use signalk_rs.Prelude.{
  ℕ, ◌+◌, ◌-◌, ◌*◌, ◌%◌, ◌^◌, Bool, true, false, Option, none, some, List, [], ◌∷◌, ◌++◌, String,
  ◌==◌, ltb, leb, if◌then◌else◌, unwrap_or, ◌>>=◌, ◌||◌, ◌&&◌, length, retain, starts_with,
  strip_prefix, ends_with, is_some,
}
use signalk_rs.Prelude.Assoc.{Map, lookup, or_insert, insert, remove, update}
use signalk_rs.Types.Json.{Json, F64, get, as_str}
use signalk_rs.Subscription.{Instant}

-- `TargetClass` and `classify_mmsi` of crates/signalk-types/src/ais.rs.
pub data TargetClass : Type 0 where
  vessel aton base sar : TargetClass

unfoldable pub classify_mmsi : String → TargetClass
classify_mmsi mmsi =
    if starts_with mmsi "97"
    then aton
    else if starts_with mmsi "00"
    then base
    else if starts_with mmsi "111"
    then sar
    else vessel

pub record ClassThresholds : Type 0 where
  pub confirm_count : ℕ
  pub confirm_window : ℕ
  pub lost_after : ℕ
  pub remove_after : ℕ

pub record ThresholdOverrides : Type 0 where
  pub confirm_count : Option ℕ
  pub confirm_window_secs : Option ℕ
  pub lost_after_secs : Option ℕ
  pub remove_after_secs : Option ℕ

-- `Duration::from_secs`.
abbrev from_secs : ℕ → ℕ
from_secs n = n * 10 ^ 9

abbrev defaults : TargetClass → ℕ × ℕ × ℕ × ℕ
defaults vessel = (2, 180, 360, 540)
defaults aton = (1, 180, 900, 3600)
defaults base = (1, 10, 30, 180)
defaults sar = (1, 10, 30, 180)

unfoldable pub for_class_with_overrides : TargetClass → Option ThresholdOverrides → ClassThresholds
for_class_with_overrides class none = record {
  confirm_count = (defaults class).0;
  confirm_window = from_secs (defaults class).1;
  lost_after = from_secs (defaults class).2;
  remove_after = from_secs (defaults class).3;
}
for_class_with_overrides class (some o) = record {
  confirm_count = unwrap_or o.confirm_count (defaults class).0;
  confirm_window = from_secs (unwrap_or o.confirm_window_secs (defaults class).1);
  lost_after = from_secs (unwrap_or o.lost_after_secs (defaults class).2);
  remove_after = from_secs (unwrap_or o.remove_after_secs (defaults class).3);
}

pub data TargetStatus : Type 0 where
  acquiring tracking lost : TargetStatus

pub record StatusTransition : Type 0 where
  pub mmsi : String
  pub context : String
  pub old_status : TargetStatus
  pub new_status : TargetStatus

pub record TrackedTarget : Type 0 where
  pub mmsi : String
  pub context : String
  pub class : TargetClass
  pub status : TargetStatus
  pub thresholds : ClassThresholds
  pub first_seen : Instant
  pub last_seen : Instant
  pub message_count : ℕ
  pub recent_messages : List Instant
  pub name : Option String
  pub callsign : Option String
  pub position : Option (F64 × F64)
  pub sog : Option F64
  pub cog : Option F64
  pub heading : Option F64
  pub last_cpa_m : Option F64
  pub last_tcpa_s : Option F64
  pub cpa_alarm_active : Bool

unfoldable pub new_target : String → String → Instant → Option ThresholdOverrides → TrackedTarget
unfolding classify_mmsi for_class_with_overrides
new_target mmsi context now overrides = record {
  mmsi = mmsi;
  context = context;
  class = classify_mmsi mmsi;
  status = acquiring;
  thresholds = for_class_with_overrides (classify_mmsi mmsi) overrides;
  first_seen = now;
  last_seen = now;
  message_count = 0;
  recent_messages = [];
  name = none;
  callsign = none;
  position = none;
  sog = none;
  cog = none;
  heading = none;
  last_cpa_m = none;
  last_tcpa_s = none;
  cpa_alarm_active = false;
}

-- `now.checked_sub(window).unwrap_or(now)`.
abbrev pub window_start : Instant → ℕ → Instant
window_start now window = if leb window now then now - window else now

-- The messages inside the window, the new one included.
abbrev pub recent : TrackedTarget → Instant → List Instant
recent t now =
    retain (λ m. leb (window_start now t.thresholds.confirm_window) m)
      (t.recent_messages ++ now ∷ [])

abbrev pub transition : TrackedTarget → TargetStatus → StatusTransition
transition t new_status = record {
  mmsi = t.mmsi;
  context = t.context;
  old_status = t.status;
  new_status = new_status;
}

-- The `match` on the status, for the target with its times and counts renewed.
promote : TargetStatus → TrackedTarget → Instant → TrackedTarget × Option StatusTransition
promote acquiring t now =
    if leb t.thresholds.confirm_count (length t.recent_messages)
    then (record t { status = tracking }, some (transition t tracking))
    else (t, none)
promote lost t now =
    (record t { status = tracking; recent_messages = now ∷ [] }, some (transition t tracking))
promote tracking t now = (t, none)

unfoldable pub record_message : TrackedTarget → Instant → TrackedTarget × Option StatusTransition
unfolding promote
record_message t now =
    promote t.status
      (record t {
        last_seen = now;
        message_count = (t.message_count + 1) % 2 ^ 32;
        recent_messages = recent t now;
      })
      now

module _ (as_f64 : Json → Option F64) where
  pub position_of : Json → Option (F64 × F64)
  unfolding get
  position_of value = do
    a ← get value "latitude"
    lat ← as_f64 a
    o ← get value "longitude"
    lon ← as_f64 o
    some (lat, lon)

  unfoldable pub update_from_value : TrackedTarget → String → Json → TrackedTarget
  unfolding position_of as_str
  update_from_value t path value =
      if path == "name"
      then record t { name = as_str value }
      else if path == "communication.callsignVhf"
      then record t { callsign = as_str value }
      else if path == "navigation.position"
      then elim (position_of value) [ none ↦ t | some p ↦ record t { position = some p } ]
      else if path == "navigation.speedOverGround"
      then record t { sog = as_f64 value }
      else if path == "navigation.courseOverGroundTrue"
      then record t { cog = as_f64 value }
      else if path == "navigation.headingTrue"
      then record t { heading = as_f64 value }
      else t

  unfoldable pub update_from_values : TrackedTarget → List (String × Json) → TrackedTarget
  unfolding update_from_value
  update_from_values t [] = t
  update_from_values t ((path, value) ∷ values) =
      update_from_values (update_from_value t path value) values

pub record TrackerConfig : Type 0 where
  pub vessel : Option ThresholdOverrides
  pub aton : Option ThresholdOverrides
  pub base : Option ThresholdOverrides
  pub sar : Option ThresholdOverrides

unfoldable pub overrides_for : TrackerConfig → TargetClass → Option ThresholdOverrides
overrides_for c TargetClass.vessel = c.vessel
overrides_for c TargetClass.aton = c.aton
overrides_for c TargetClass.base = c.base
overrides_for c TargetClass.sar = c.sar

pub record AisTracker : Type 0 where
  pub targets : Map TrackedTarget
  pub self_uri : String
  pub config : TrackerConfig

unfoldable pub with_config : String → TrackerConfig → AisTracker
with_config self_uri config = record { targets = []; self_uri = self_uri; config = config }

unfoldable pub parse_mmsi : String → Option String
unfolding strip_prefix
parse_mmsi context = strip_prefix context "vessels.urn:mrn:imo:mmsi:"
