-- ===== src/Anchor.antt =====
-- The anchor alarm: crates/plugins/anchor-alarm/src/lib.rs. The state is the flag `alarming` and the
-- notifications that were raised, in their order.
pub mod Alarm
use signalk_rs.Prelude.{
  Bool, true, false, not, ◌&&◌, Option, none, some, List, [], ◌∷◌, ◌++◌, String, ◌==◌, ◌<>◌,
  if◌then◌else◌, ◌>>=◌,
}
use signalk_rs.Types.Json.{Json, F64, get}
use signalk_rs.Types.Delta.{Delta, Update, PathValue}
use signalk_rs.Types.Float.{FloatOps}
use signalk_rs.Types.Geo.{haversine_meters}
use signalk_rs.Types.Notification.{Notification, normal, alarm, visual, sound}

pub record AnchorPosition : Type 0 where
  pub latitude : F64
  pub longitude : F64

pub record AnchorConfig : Type 0 where
  pub position : AnchorPosition
  pub radius : F64

pub record Watch : Type 0 where
  pub alarming : Bool
  pub raised : List Notification

unfoldable pub new_watch : Watch
new_watch = record { alarming = false; raised = [] }

-- `show` prints a number without decimals.
module _ (F : FloatOps) (show : F64 → String) where
  -- What `emit_notification` raises at `navigation.anchor`.
  unfoldable pub notification : F64 → F64 → Bool → Notification
  notification distance radius true = record {
    id = none;
    state = alarm;
    method = visual ∷ sound ∷ [];
    message =
        "Anchor alarm! Vessel is "
        <> show distance
        <> "m from anchor (radius: "
        <> show radius
        <> "m)";
    status = none;
  }
  notification distance radius false = record {
    id = none;
    state = normal;
    method = [];
    message =
        "Back within anchor radius (" <> show distance <> "m, radius: " <> show radius <> "m)";
    status = none;
  }

  -- The flag and the notification.
  unfoldable pub announce : Watch → F64 → F64 → Bool → Watch
  unfolding notification
  announce w distance radius alarming = record {
    alarming = alarming;
    raised = w.raised ++ (notification distance radius alarming ∷ []);
  }

  unfoldable pub watch_distance : AnchorConfig → Watch → F64 → Watch
  unfolding announce
  watch_distance c w distance =
      let is_outside = F.lt c.radius distance in
      if is_outside && not w.alarming
      then announce w distance c.radius true
      else if not is_outside && w.alarming
      then announce w distance c.radius false
      else w

  -- The latitude and the longitude of a position, where both are numbers.
  unfoldable pub lat_lon : Json → Option (F64 × F64)
  lat_lon value = do
    a ← get value "latitude"
    lat ← F.as_f64 a
    b ← get value "longitude"
    lon ← F.as_f64 b
    some (lat, lon)

  unfoldable pub anchor_distance : AnchorConfig → F64 × F64 → F64
  unfolding haversine_meters
  anchor_distance c (lat, lon) = haversine_meters F c.position.latitude c.position.longitude lat lon

  unfoldable pub watch_position : AnchorConfig → Watch → Option (F64 × F64) → Watch
  unfolding watch_distance anchor_distance
  watch_position c w none = w
  watch_position c w (some p) = watch_distance c w (anchor_distance c p)

  unfoldable pub watch_values : AnchorConfig → Watch → List PathValue → Watch
  unfolding watch_position lat_lon
  watch_values c w [] = w
  watch_values c w (pv ∷ pvs) =
      let w' = watch_position c w (lat_lon pv.value) in
      watch_values c (if pv.path == "navigation.position" then w' else w) pvs

  unfoldable pub watch_updates : AnchorConfig → Watch → List Update → Watch
  unfolding watch_values
  watch_updates c w [] = w
  watch_updates c w (u ∷ us) = watch_updates c (watch_values c w u.values) us

  -- The callback of the subscription.
  unfoldable pub watch_delta : AnchorConfig → Watch → Delta → Watch
  unfolding watch_updates
  watch_delta c w d = watch_updates c w d.updates
