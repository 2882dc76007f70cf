-- ===== src/Server/Plugins/Registry.antt =====
-- crates/signalk-server/src/plugins/registry.rs: the plugins as the administration sees them.
use signalk_rs.Prelude.{
  Bool, true, false, not, Option, none, some, List, [], ◌∷◌, String, ◌&&◌, if◌then◌else◌,
  starts_with, ◌>>=◌,
}
use mathlib.Core.List as L
use signalk_rs.Prelude.Assoc.{Map, lookup, insert, update}
use signalk_rs.Types.Json.{Json}
use signalk_rs.Types.Delta.{Timestamp}

pub data PluginTier : Type 0 where
  rust bridge standalone : PluginTier

pub record PluginInfo : Type 0 where
  pub id : String
  pub name : String
  pub description : String
  pub version : String
  pub tier : PluginTier
  pub status : String
  pub enabled : Bool
  pub keywords : List String
  pub has_webapp : Bool
  pub webapp_url : Option String
  pub schema : Option Json
  pub last_error_time : Option Timestamp

pub record BridgePluginInfo : Type 0 where
  pub id : String
  pub name : String
  pub version : String
  pub description : String
  pub has_webapp : Bool

pub record ProviderInfo : Type 0 where
  pub id : String
  pub type_label : String
  pub enabled : Bool

-- `PluginRegistry`: the map of plugins.
abbrev PluginRegistry : Type 0
PluginRegistry = Map PluginInfo

unfoldable register_tier1 :
    PluginRegistry → Timestamp → String → String → String → String → String → Bool → PluginRegistry
unfolding lookup insert
register_tier1 plugins now id name description version status enabled =
    insert id
      (record {
        id = id;
        name = name;
        description = description;
        version = version;
        tier = rust;
        status = status;
        enabled = enabled;
        keywords = "signalk-node-server-plugin" ∷ [];
        has_webapp = false;
        webapp_url = none;
        schema = none;
        last_error_time =
            if starts_with status "error"
            then some now
            else (lookup id plugins >>= λ p. p.last_error_time);
      })
      plugins

unfoldable register_tier2 : PluginRegistry → BridgePluginInfo → PluginRegistry
unfolding insert
register_tier2 plugins info =
    insert info.id
      (record {
        id = info.id;
        name = info.name;
        description = info.description;
        version = info.version;
        tier = bridge;
        status = "running";
        enabled = true;
        keywords = "signalk-node-server-plugin" ∷ [];
        has_webapp = info.has_webapp;
        webapp_url = none;
        schema = none;
        last_error_time = none;
      })
      plugins

unfoldable update_status : PluginRegistry → Timestamp → String → String → PluginRegistry
unfolding update
update_status plugins now id status =
    update id
      (λ info. record info {
        last_error_time = if starts_with status "error" then some now else info.last_error_time;
        status = status;
        enabled = not (starts_with status "stopped") && not (starts_with status "error");
      })
      plugins

unfoldable set_webapp_url : PluginRegistry → String → String → PluginRegistry
unfolding update
set_webapp_url plugins id url =
    update id (λ info. record info { has_webapp = true; webapp_url = some url }) plugins

unfoldable type_label : PluginTier → String
type_label rust = "signalk-rs"
type_label bridge = "node-bridge"
type_label standalone = "standalone"

unfoldable provider_info : PluginInfo → ProviderInfo
unfolding type_label
provider_info p = record { id = p.id; type_label = type_label p.tier; enabled = p.enabled }

-- `sort_by` the id is a parameter: Rust's stable sort.
unfoldable providers : (List ProviderInfo → List ProviderInfo) → PluginRegistry → List ProviderInfo
unfolding provider_info
providers sort_by_id plugins = sort_by_id (L.map (λ e. provider_info e.1) plugins)
