-- ===== src/Server/Plugins/Manager.antt =====
-- crates/signalk-server/src/plugins/manager.rs: the life of the plugins. A plugin is a value of a type
-- `P`; `start` gives the plugin afterwards, what it asked of its context, and its answer, where a
-- panic is an error (isolation.rs).
use signalk_rs.Prelude.{
  Bool, true, false, Option, none, some, List, [], ◌∷◌, String, ◌<>◌, if◌then◌else◌,
}
use mathlib.Core.List as L
use signalk_rs.Prelude.Assoc.{Map, lookup, insert}
use signalk_rs.Types.Json.{Json}
use signalk_rs.Server.{Result, ok, err, PluginError, runtime}
use signalk_rs.Server.Plugins.{
  Host, RustPluginContext, Act, new_context, cleanup_plugin, perform, forget,
}

-- `PluginStatus` and `PluginMetadata` of crates/signalk-plugin-api/src/plugin.rs.
pub data PluginStatus : Type 0 where
  stopped starting stopping : PluginStatus
  running error : String → PluginStatus

pub record PluginMetadata : Type 0 where
  pub id : String
  pub name : String
  pub description : String
  pub version : String

-- What stands in an entry: a plugin, or the placeholder of that name.
pub data Slot (P : Type 0) : Type 0 where
  real : P → Slot P
  placeholder : String → Slot P

pub record PluginEntry (P : Type 0) : Type 0 where
  pub plugin : Slot P
  pub status : PluginStatus
  pub context : Option RustPluginContext

abbrev pub is_running_status : PluginStatus → Bool
is_running_status (running message) = true
is_running_status _ = false

abbrev pub is_stopped_status : PluginStatus → Bool
is_stopped_status stopped = true
is_stopped_status _ = false

module _ (H G W A P : Type 0) (device_id : A → String) where
  -- The trait `Plugin`; `show` is the text of an error.
  pub record PluginCode : Type 0 where
    pub metadata : P → PluginMetadata
    pub start : P → Json → Host H G W A → P × List (Act H G W A device_id) × Result Unit PluginError
    pub stop : P → P × Result Unit PluginError
    pub show : PluginError → String

  pub record PluginManager : Type 0 where
    pub plugins : Map (PluginEntry P)
    pub host : Host H G W A

  module _ (code : PluginCode) where
    unfoldable pub register : PluginManager → P → PluginManager
    unfolding insert
    register m plugin = record m {
      plugins =
          insert (code.metadata plugin).id
            (record { plugin = real plugin; status = stopped; context = none }) m.plugins;
    }

    -- The entry behind a start: on an error the plugin is lost.
    unfoldable pub outcome :
        String → P → RustPluginContext → Result Unit PluginError → PluginEntry P
    outcome plugin_id p ctx (ok u) = record {
      plugin = real p;
      status = running "Started";
      context = some ctx;
    }
    outcome plugin_id p ctx (err e) = record {
      plugin = placeholder plugin_id;
      status = error (code.show e);
      context = none;
    }

    -- `start` of what stands in the entry, on a new context.
    unfoldable pub started :
        String
        → Slot P
        → Json
        → Host H G W A
        → (PluginEntry P × Host H G W A) × Result Unit PluginError
    unfolding perform new_context outcome
    started plugin_id (placeholder name) config h = (
      (
        record {
          plugin = placeholder plugin_id;
          status = error (code.show (runtime "placeholder plugin cannot be started"));
          context = none;
        },
        h,
      ),
      err (runtime "placeholder plugin cannot be started"),
    )
    started plugin_id (real p) config h =
        let (p', acts, answer) = code.start p config h in
        let (ctx, h') = perform H G W A device_id (new_context plugin_id, h) acts in
        ((outcome plugin_id p' ctx answer, h'), answer)

    -- A plugin that runs is left alone.
    unfoldable pub start_unless :
        PluginManager
        → String
        → Json
        → PluginEntry P
        → Bool
        → PluginManager × Result Unit PluginError
    unfolding started insert
    start_unless m plugin_id config entry true = (m, ok tt)
    start_unless m plugin_id config entry false =
        let ((entry', h), answer) = started plugin_id entry.plugin config m.host in
        (record { plugins = insert plugin_id entry' m.plugins; host = h }, answer)

    unfoldable pub start_entry :
        PluginManager
        → String
        → Json
        → Option (PluginEntry P)
        → PluginManager × Result Unit PluginError
    unfolding start_unless
    start_entry m plugin_id config none = (m, err (runtime ("Unknown plugin: " <> plugin_id)))
    start_entry m plugin_id config (some entry) =
        start_unless m plugin_id config entry (is_running_status entry.status)

    unfoldable pub start_plugin :
        PluginManager → String → Json → PluginManager × Result Unit PluginError
    unfolding start_entry lookup
    start_plugin m plugin_id config = start_entry m plugin_id config (lookup plugin_id m.plugins)

    -- Only the plugins with a configuration are started; a failure is passed over.
    unfoldable pub start_all : PluginManager → Map Json → PluginManager
    unfolding start_plugin
    start_all m [] = m
    start_all m ((plugin_id, config) ∷ configs) =
        start_all (start_plugin m plugin_id config).0 configs

    -- `stop` of what stands in the entry; its error is passed over.
    unfoldable pub halted : Slot P → Slot P
    halted (placeholder name) = placeholder name
    halted (real p) = real (code.stop p).0

    -- The context that a start left, if any, is cleaned up.
    unfoldable pub cleaned : Option RustPluginContext → Host H G W A → Host H G W A
    unfolding cleanup_plugin
    cleaned none h = h
    cleaned (some ctx) h = cleanup_plugin H G W A device_id ctx h

    unfoldable pub stop_entry :
        PluginManager → String → Option (PluginEntry P) → PluginManager × Result Unit PluginError
    unfolding halted cleaned insert forget
    stop_entry m plugin_id none = (m, err (runtime ("Unknown plugin: " <> plugin_id)))
    stop_entry m plugin_id (some entry) = if is_stopped_status entry.status then (m, ok tt) else (
      record {
        plugins =
            insert plugin_id
              (record { plugin = halted entry.plugin; status = stopped; context = none }) m.plugins;
        host = forget H G W A device_id (cleaned entry.context m.host) plugin_id;
      },
      ok tt,
    )

    unfoldable pub stop_plugin : PluginManager → String → PluginManager × Result Unit PluginError
    unfolding stop_entry lookup
    stop_plugin m plugin_id = stop_entry m plugin_id (lookup plugin_id m.plugins)

    unfoldable pub stop_each : PluginManager → List String → PluginManager
    unfolding stop_plugin
    stop_each m [] = m
    stop_each m (plugin_id ∷ ids) = stop_each (stop_plugin m plugin_id).0 ids

    unfoldable pub stop_all : PluginManager → PluginManager
    unfolding stop_each
    stop_all m = stop_each m (L.map (λ e. e.0) m.plugins)

    -- A plugin that asks something of the context it was given, at any time: it may keep the context, also
    -- beyond a stop, when its old subscriptions have ended.
    unfoldable pub ask_context :
        PluginManager
        → String
        → PluginEntry P
        → Option RustPluginContext
        → List (Act H G W A device_id)
        → PluginManager
    unfolding perform insert
    ask_context m plugin_id entry none acts = record m {
      host = (perform H G W A device_id (new_context plugin_id, m.host) acts).1;
    }
    ask_context m plugin_id entry (some ctx) acts =
        let (ctx', h) =
          perform H G W A device_id (record ctx { plugin_id = plugin_id }, m.host) acts in
        record {
          plugins = insert plugin_id (record entry { context = some ctx' }) m.plugins;
          host = h;
        }

    unfoldable pub ask_entry :
        PluginManager
        → String
        → Option (PluginEntry P)
        → List (Act H G W A device_id)
        → PluginManager
    unfolding ask_context
    ask_entry m plugin_id none acts = m
    ask_entry m plugin_id (some entry) acts = ask_context m plugin_id entry entry.context acts

    unfoldable pub ask : PluginManager → String → List (Act H G W A device_id) → PluginManager
    unfolding ask_entry lookup
    ask m plugin_id acts = ask_entry m plugin_id (lookup plugin_id m.plugins) acts

    unfoldable pub is_running : PluginManager → String → Bool
    unfolding lookup
    is_running m plugin_id = elim (lookup plugin_id m.plugins) [
      | none ↦ false
      | some entry ↦ is_running_status entry.status
    ]

    slot_metadata : Slot P → PluginMetadata
    slot_metadata (real p) = code.metadata p
    slot_metadata (placeholder name) = record {
      id = name;
      name = "placeholder";
      description = "";
      version = "0.0.0";
    }

    unfoldable statuses : PluginManager → List (PluginMetadata × PluginStatus)
    unfolding slot_metadata
    statuses m = L.map (λ e. (slot_metadata e.1.plugin, e.1.status)) m.plugins
