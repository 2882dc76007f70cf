-- ===== src/Ais/Tracker.antt =====
-- `AisTracker` of crates/plugins/ais-status/src/tracker.rs: the targets by MMSI.
use signalk_rs.Prelude.{
  ℕ, ◌+◌, ◌-◌, Bool, true, false, Option, none, some, List, [], ◌∷◌, String, ◌==◌, ltb,
  if◌then◌else◌, unwrap_or, ◌||◌, length, ends_with,
}
use signalk_rs.Prelude.Assoc.{Map, lookup, insert, remove, update}
use signalk_rs.Types.Json.{Json, F64}
use signalk_rs.Subscription.{Instant}
use signalk_rs.Ais.{
  TargetStatus, acquiring, tracking, lost, StatusTransition, TrackedTarget, AisTracker, new_target,
  record_message, update_from_values, overrides_for, classify_mmsi, parse_mmsi,
}

unfoldable target_count : AisTracker → ℕ
target_count t = length t.targets

-- Confirmed, lost and unconfirmed targets.
count_step : TargetStatus → ℕ × ℕ × ℕ → ℕ × ℕ × ℕ
count_step tracking (confirmed, gone, unconfirmed) = (confirmed + 1, gone, unconfirmed)
count_step lost (confirmed, gone, unconfirmed) = (confirmed, gone + 1, unconfirmed)
count_step acquiring (confirmed, gone, unconfirmed) = (confirmed, gone, unconfirmed + 1)

count_from : ℕ × ℕ × ℕ → Map TrackedTarget → ℕ × ℕ × ℕ
unfolding count_step
count_from counts [] = counts
count_from counts ((mmsi, t) ∷ m) = count_from (count_step t.status counts) m

unfoldable count_by_status : AisTracker → ℕ × ℕ × ℕ
unfolding count_from
count_by_status t = count_from (0, 0, 0) t.targets

unfoldable pub get_target : AisTracker → String → Option TrackedTarget
unfolding lookup
get_target t mmsi = lookup mmsi t.targets

-- The target of an MMSI, made where it is missing.
abbrev pub target_or_new : AisTracker → String → String → Instant → TrackedTarget
target_or_new t mmsi context now =
    unwrap_or (lookup mmsi t.targets)
      (new_target mmsi context now (overrides_for t.config (classify_mmsi mmsi)))

module _ (as_f64 : Json → Option F64) where
  -- The part of `update_target` for a context with an MMSI.
  unfoldable pub update_mmsi :
      AisTracker
      → String
      → String
      → List (String × Json)
      → Instant
      → AisTracker × Option StatusTransition
  unfolding lookup insert new_target overrides_for update_from_values record_message
  update_mmsi t mmsi context values now =
      let (target, moved) =
        record_message (update_from_values as_f64 (target_or_new t mmsi context now) values) now in
      (record t { targets = insert mmsi target t.targets }, moved)

  unfoldable pub update_target :
      AisTracker → String → List (String × Json) → Instant → AisTracker × Option StatusTransition
  unfolding ends_with parse_mmsi update_mmsi
  update_target t context values now =
      if ends_with context t.self_uri || context == "vessels.self"
      then (t, none)
      else elim (parse_mmsi context) [
        | none ↦ (t, none)
        | some mmsi ↦ update_mmsi t mmsi context values now
      ]

-- What a tick finds for one target.
pub data Fate : Type 0 where
  stay to_lose to_remove : Fate

unfoldable pub fate_of : TargetStatus → TrackedTarget → Instant → Fate
fate_of acquiring t now =
    if ltb t.thresholds.confirm_window (now - t.last_seen) then to_remove else stay
fate_of tracking t now = if ltb t.thresholds.lost_after (now - t.last_seen) then to_lose else stay
fate_of lost t now =
    if ltb (t.thresholds.lost_after + t.thresholds.remove_after) (now - t.last_seen)
    then to_remove
    else stay

abbrev pub fate : TrackedTarget → Instant → Fate
fate t now = fate_of t.status t now

-- The loop of `tick`: the targets, the transitions and the keys to remove.
unfoldable pub sweep :
    Instant → Map TrackedTarget → Map TrackedTarget × List StatusTransition × List String
unfolding fate_of
sweep now [] = ([], [], [])
sweep now ((mmsi, t) ∷ m) =
    let (targets, transitions, to_go) = sweep now m in
    elim (fate t now) [
      | stay ↦ ((mmsi, t) ∷ targets, transitions, to_go)
      | to_remove ↦ ((mmsi, t) ∷ targets, transitions, mmsi ∷ to_go)
      | to_lose ↦ (
        (mmsi, record t { status = lost }) ∷ targets,
        record { mmsi = mmsi; context = t.context; old_status = t.status; new_status = lost }
            ∷ transitions,
        to_go,
      )
    ]

unfoldable pub remove_all : List String → Map TrackedTarget → Map TrackedTarget
unfolding remove
remove_all [] m = m
remove_all (k ∷ ks) m = remove_all ks (remove k m)

unfoldable pub tick : AisTracker → Instant → AisTracker × List StatusTransition
unfolding sweep remove_all
tick t now =
    let (targets, transitions, to_go) = sweep now t.targets in
    (record t { targets = remove_all to_go targets }, transitions)

unfoldable pub update_target_cpa : AisTracker → String → F64 → F64 → Bool → AisTracker
unfolding update
update_target_cpa t mmsi cpa_m tcpa_s alarm_active = record t {
  targets =
      update mmsi
        (λ x. record x {
          last_cpa_m = some cpa_m;
          last_tcpa_s = some tcpa_s;
          cpa_alarm_active = alarm_active;
        })
        t.targets;
}

pub record TargetCpaSnapshot : Type 0 where
  pub mmsi : String
  pub context : String
  pub lat : F64
  pub lon : F64
  pub sog_ms : F64
  pub cog_rad : F64
  pub cpa_alarm_active : Bool

-- `position.is_some()` and the tuple's parts; 0.0 has the bits 0.
snapshot : TrackedTarget → F64 × F64 → TargetCpaSnapshot
snapshot t (lat, lon) = record {
  mmsi = t.mmsi;
  context = t.context;
  lat = lat;
  lon = lon;
  sog_ms = unwrap_or t.sog 0;
  cog_rad = unwrap_or t.cog 0;
  cpa_alarm_active = t.cpa_alarm_active;
}

is_tracking : TargetStatus → Bool
is_tracking tracking = true
is_tracking _ = false

snapshots : Map TrackedTarget → List TargetCpaSnapshot
unfolding snapshot is_tracking
snapshots [] = []
snapshots ((mmsi, t) ∷ m) = elim t.position [
  | none ↦ snapshots m
  | some p ↦ if is_tracking t.status then snapshot t p ∷ snapshots m else snapshots m
]

unfoldable targets_for_cpa : AisTracker → List TargetCpaSnapshot
unfolding snapshots
targets_for_cpa t = snapshots t.targets
