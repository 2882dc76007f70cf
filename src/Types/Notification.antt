-- ===== src/Types/Notification.antt =====
-- crates/signalk-types/src/notification.rs.
use signalk_rs.Prelude.{Option, some, List, String, Bool, true, false, not}

pub data NotificationState : Type 0 where
  normal nominal alert warn alarm emergency : NotificationState

pub data NotificationMethod : Type 0 where
  visual sound : NotificationMethod

abbrev pub is_normal : NotificationState → Bool
is_normal NotificationState.normal = true
is_normal _ = false

abbrev pub is_emergency : NotificationState → Bool
is_emergency NotificationState.emergency = true
is_emergency _ = false

pub record NotificationStatus : Type 0 where
  pub silenced : Option Bool
  pub acknowledged : Option Bool
  pub can_silence : Option Bool
  pub can_acknowledge : Option Bool
  pub can_clear : Option Bool

pub record Notification : Type 0 where
  pub id : Option String
  pub state : NotificationState
  pub method : List NotificationMethod
  pub message : String
  pub status : Option NotificationStatus

-- `NotificationStatus::initial`.
unfoldable initial : NotificationState → Bool → NotificationStatus
initial state from_api = record {
  silenced = some false;
  acknowledged = some false;
  can_silence = some (not (is_emergency state));
  can_acknowledge = some true;
  can_clear = some from_api;
}
