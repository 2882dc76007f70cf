-- ===== src/Tests/PluginTests.antt =====
-- crates/signalk-server/src/plugins/manager.rs on a plugin that starts and one that does not.
use signalk_rs.Prelude.{
  ℕ, ◌≡◌, ◌↔◌, refl, Bool, true, false, Option, none, some, ◌==◌, any, List, [], ◌∷◌, String,
}
use signalk_rs.Prelude.Assoc.{lookup}
use signalk_rs.Types.Json.{Json}
use signalk_rs.Server.{Result, ok, err, PluginError, runtime}
use signalk_rs.Server.Plugins.{Host, subscribes, puts, routes, filters}
use signalk_rs.Server.Plugins.Manager.{
  PluginCode, PluginManager, PluginEntry, real, stopped, start_plugin, stop_plugin, is_running, ask,
}
use signalk_rs.Server.Plugins.Trace.{NoTrace}
use signalk_rs.Server.Plugins.Clean.{
  Call, starts, stops, starts_all, stops_all, asks, run, run-NoTrace,
}
use signalk_rs.Server.Plugins.Lost.{start_plugin-is_running, start_plugin-lost}

-- A plugin is whether it starts; an autopilot is its id.
abbrev device_id : String → String
device_id a = a

abbrev answer : Bool → Result Unit PluginError
answer true = ok tt
answer false = err (runtime "no device")

abbrev code : PluginCode ℕ ℕ Unit String Bool device_id
code = record {
  metadata = λ p. record { id = "anchor-alarm"; name = "Anchor"; description = ""; version = "1" };
  start = λ p config h. (p, subscribes ∷ puts "navigation.anchor" 1 ∷ routes [] ∷ [], answer p);
  stop = λ p. (p, ok tt);
  show = λ e. "no device";
}

abbrev host : Host ℕ ℕ Unit String
host = record {
  route_table = [];
  put_handler_registry = [];
  put_handlers = [];
  plugin_routes = [];
  delta_filter = record { handlers = ("notification-manager", λ w d. (w, some d)) ∷ [] };
  resource_providers = none;
  autopilot_manager = none;
  tasks = [];
  next_task = 0;
}

abbrev manager : Bool → PluginManager ℕ ℕ Unit String Bool device_id
manager p = record {
  plugins = ("anchor-alarm", record { plugin = real p; status = stopped; context = none }) ∷ [];
  host = host;
}

-- Started, and asked for a filter beside what it registered at the start.
abbrev busy : PluginManager ℕ ℕ Unit String Bool device_id
busy =
    ask ℕ ℕ Unit String Bool device_id code
      (start_plugin ℕ ℕ Unit String Bool device_id code (manager true) "anchor-alarm" Json.null).0
      "anchor-alarm" (filters (λ w d. (w, none)) ∷ [])

abbrev entry_of : PluginManager ℕ ℕ Unit String Bool device_id → Option (PluginEntry Bool)
entry_of m = lookup "anchor-alarm" m.plugins

abbrev later : List (Call ℕ ℕ Unit String Bool device_id code)
later =
    starts "tracks" Json.null ∷ stops_all ∷ asks "tracks" (puts "navigation.position" 2 ∷ []) ∷ []

busy-filters : any (λ e. e.0 == "anchor-alarm") busy.host.delta_filter.handlers ≡ true
unfolding start_plugin ask lookup
busy-filters = refl

run-NoTrace_example :
    NoTrace ℕ ℕ Unit String "anchor-alarm"
      (run ℕ ℕ Unit String Bool device_id code
        (stop_plugin ℕ ℕ Unit String Bool device_id code busy "anchor-alarm").0
        later).host
unfolding start_plugin ask lookup
run-NoTrace_example =
    run-NoTrace ℕ ℕ Unit String Bool device_id code busy "anchor-alarm" _ later refl refl refl

start_plugin-is_running_example :
    ((start_plugin ℕ ℕ Unit String Bool device_id code (manager true) "anchor-alarm" Json.null).1
      ≡ ok tt)
    ↔ (is_running ℕ ℕ Unit String Bool device_id code
          (start_plugin ℕ ℕ Unit String Bool device_id code
            (manager true)
            "anchor-alarm"
            Json.null).0
          "anchor-alarm"
        ≡ true)
start_plugin-is_running_example =
    start_plugin-is_running ℕ ℕ Unit String Bool device_id code (manager true) "anchor-alarm"
      Json.null

abbrev meanwhile : List (Call ℕ ℕ Unit String Bool device_id code)
meanwhile = stops "anchor-alarm" ∷ starts_all (("anchor-alarm", Json.null) ∷ []) ∷ stops_all ∷ []

start_plugin-lost_example :
    (start_plugin ℕ ℕ Unit String Bool device_id code
      (run ℕ ℕ Unit String Bool device_id code
        (start_plugin ℕ ℕ Unit String Bool device_id code
          (manager false)
          "anchor-alarm"
          Json.null).0
        meanwhile)
      "anchor-alarm"
      Json.null).1
    ≡ err (runtime "placeholder plugin cannot be started")
unfolding start_plugin lookup
start_plugin-lost_example =
    start_plugin-lost ℕ ℕ Unit String Bool device_id code (manager false)
      (start_plugin ℕ ℕ Unit String Bool device_id code (manager false) "anchor-alarm" Json.null).0
      "anchor-alarm" Json.null Json.null
      (record { plugin = real false; status = stopped; context = none }) (runtime "no device")
      meanwhile refl refl
