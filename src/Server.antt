-- ===== src/Server.antt =====
-- The registries of crates/signalk-server/src, and the errors of
-- crates/signalk-plugin-api/src/error.rs.
pub mod DeltaFilter
pub mod Autopilot
pub mod Resources
pub mod Plugins
use signalk_rs.Prelude.{Bool, true, false, String}

-- Rust's `Result`.
pub data Result (A E : Type 0) : Type 0 where
  ok : A → Result A E
  err : E → Result A E

-- An error that another library made is its text.
pub data PluginError : Type 0 where
  config io json runtime invalid_state registration not_found bad_request other :
      String → PluginError

unfoldable pub is_not_found : PluginError → Bool
is_not_found (not_found message) = true
is_not_found _ = false
