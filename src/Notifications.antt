-- ===== src/Notifications.antt =====
-- crates/signalk-server/src/notifications/manager.rs: every notification gets an id and a status
-- before it reaches the store. Parameters: `parse` and `print` stand for serde's `from_value` and
-- `to_value` of a notification (`none` is an error), `uuid n` for the n-th UUID that is drawn.
pub mod Life
pub mod Ids
pub mod Shape
use signalk_rs.Prelude.{
  ℕ, suc, Bool, true, false, Option, none, some, List, [], ◌∷◌, String, ◌==◌, if◌then◌else◌,
  starts_with, ◌&&◌, not, ◌>>=◌, unwrap_or,
}
use signalk_rs.Prelude.Assoc.{Map, lookup, insert, remove, update}
use signalk_rs.Types.Json.{Json}
use signalk_rs.Types.Delta.{PathValue, Update, Delta}
use signalk_rs.Types.Notification.{
  Notification, NotificationState, NotificationStatus, is_normal, is_emergency,
}

pub record NotificationEntry : Type 0 where
  pub id : String
  pub plugin_originated : Bool
  pub silenced : Bool
  pub acknowledged : Bool

-- `drawn` counts the UUIDs that were drawn.
pub record NotificationManager : Type 0 where
  pub entries : Map NotificationEntry
  pub drawn : ℕ

unfoldable pub new : NotificationManager
new = record { entries = []; drawn = 0 }

abbrev cleared_status : NotificationStatus
cleared_status = record {
  silenced = some false;
  acknowledged = some false;
  can_silence = some false;
  can_acknowledge = some false;
  can_clear = some false;
}

-- The status of an active notification, from its entry.
abbrev active_status : NotificationState → NotificationEntry → NotificationStatus
active_status state entry = record {
  silenced = some entry.silenced;
  acknowledged = some entry.acknowledged;
  can_silence = some (not (is_emergency state) && not entry.silenced);
  can_acknowledge = some (not entry.acknowledged);
  can_clear = some (not entry.plugin_originated);
}

-- A notification of state normal: its entry goes, and the message carries the old id.
clear : NotificationManager → String → Notification → NotificationManager × Notification
unfolding lookup remove
clear m path n = (
  record m { entries = remove path m.entries },
  record n {
    id = elim (lookup path m.entries) [ none ↦ n.id | some old ↦ some old.id ];
    status = some cleared_status;
  },
)

module _ (uuid : ℕ → String) where
  -- The entry of a notification that was not there.
  abbrev pub new_entry : NotificationManager → Bool → NotificationEntry
  new_entry m is_plugin = record {
    id = uuid m.drawn;
    plugin_originated = is_plugin;
    silenced = false;
    acknowledged = false;
  }

  -- `entries.entry(path).or_insert_with(..)`: the entry, and the manager that has it.
  entry_for : NotificationManager → String → Bool → NotificationManager × NotificationEntry
  unfolding lookup insert
  entry_for m path is_plugin = elim (lookup path m.entries) [
    | some entry ↦ (m, entry)
    | none ↦ (
      record { entries = insert path (new_entry m is_plugin) m.entries; drawn = suc m.drawn },
      new_entry m is_plugin,
    )
  ]

  raise : NotificationManager → String → Bool → Notification → NotificationManager × Notification
  unfolding entry_for
  raise m path is_plugin n =
      let (m', entry) = entry_for m path is_plugin in
      (m', record n { id = some entry.id; status = some (active_status n.state entry) })

  unfoldable pub enrich :
      NotificationManager → String → Bool → Notification → NotificationManager × Notification
  unfolding clear raise
  enrich m path is_plugin n = if is_normal n.state then clear m path n else raise m path is_plugin n

  module _ (parse : Json → Option Notification) (print : Notification → Option Json) where
    -- One value of an update; what is no notification passes as it is.
    unfoldable pub enrich_value :
        NotificationManager → Bool → PathValue → NotificationManager × PathValue
    unfolding enrich
    enrich_value m is_plugin pv =
        if starts_with pv.path "notifications."
        then elim (parse pv.value) [
          | none ↦ (m, pv)
          | some n ↦
              let (m', n') = enrich m pv.path is_plugin n in
              (m', record pv { value = unwrap_or (print n') pv.value })
        ]
        else (m, pv)

    unfoldable pub enrich_values :
        NotificationManager → Bool → List PathValue → NotificationManager × List PathValue
    unfolding enrich_value
    enrich_values m is_plugin [] = (m, [])
    enrich_values m is_plugin (pv ∷ pvs) =
        let (m', pv') = enrich_value m is_plugin pv in
        let (m'', pvs') = enrich_values m' is_plugin pvs in (m'', pv' ∷ pvs')

    unfoldable pub enrich_updates :
        NotificationManager → List Update → NotificationManager × List Update
    unfolding enrich_values
    enrich_updates m [] = (m, [])
    enrich_updates m (u ∷ us) =
        let (m', values) = enrich_values m (u.source.type_ == "Plugin") u.values in
        let (m'', us') = enrich_updates m' us in (m'', record u { values = values } ∷ us')

    unfoldable pub enrich_delta : NotificationManager → Delta → NotificationManager × Delta
    unfolding enrich_updates
    enrich_delta m d =
        let (m', updates) = enrich_updates m d.updates in (m', record d { updates = updates })

abbrev pub set_silenced : NotificationEntry → NotificationEntry
set_silenced e = record e { silenced = true }

abbrev pub set_acknowledged : NotificationEntry → NotificationEntry
set_acknowledged e = record e { acknowledged = true }

unfoldable pub silence : NotificationManager → String → NotificationManager
unfolding update
silence m path = record m { entries = update path set_silenced m.entries }

unfoldable pub acknowledge : NotificationManager → String → NotificationManager
unfolding update
acknowledge m path = record m { entries = update path set_acknowledged m.entries }

unfoldable get_entry_data : NotificationManager → String → Option (String × Bool × Bool × Bool)
unfolding lookup
get_entry_data m path = do
  e ← lookup path m.entries
  some (e.id, e.silenced, e.acknowledged, e.plugin_originated)
