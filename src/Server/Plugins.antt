-- ===== src/Server/Plugins.antt =====
-- crates/signalk-server/src/plugins: what the plugins that run in the server's process register with
-- it. host.rs is the context that a plugin gets, routes.rs its REST routes. `H` is the type of PUT
-- handlers, `G` of route handlers, `W` the world of resource providers
-- and delta handlers, `A` the type of autopilots.
pub mod Manager
pub mod Trace
pub mod Acts
pub mod Clean
pub mod Lost
pub mod Registry
use signalk_rs.Prelude.{
  ℕ, ◌+◌, ◌%◌, ◌^◌, Bool, true, false, not, Option, none, some, List, [], ◌∷◌, String, ◌==◌, eqb,
  ◌&&◌, ◌<>◌, if◌then◌else◌, any, retain, ◌>>=◌,
}
use mathlib.Core.Option.{map}
use signalk_rs.Prelude.Assoc.{Map, lookup, insert, remove}
use signalk_rs.Types.Json.{Json}
use signalk_rs.Types.Path.{split, join, matches_pattern}
use signalk_rs.Types.Delta.{Timestamp, Delta}
use signalk_rs.Types.Full.{SignalKValue}
use signalk_rs.Store.{SignalKStore, get_self_path, get_vessel_path, apply_delta}
use signalk_rs.Server.DeltaFilter.{DeltaFilterChain, DeltaInputHandler}
use signalk_rs.Server.DeltaFilter as F
use signalk_rs.Server.Autopilot.{AutopilotManager}
use signalk_rs.Server.Autopilot as P
use signalk_rs.Server.Resources.{ResourceProvider, ResourceProviderRegistry}
use signalk_rs.Server.Resources as R
use signalk_rs.Server.{Result, ok, err, PluginError, runtime}

-- `RegisteredRoute` of crates/signalk-plugin-api/src/context.rs.
pub record RegisteredRoute (G : Type 0) : Type 0 where
  pub method : String
  pub path : String
  pub handler : G

-- The tables that the server shares with its plugins, and the tasks that run: `next_task` is the
-- name of the next one that is spawned.
pub record Host (H G W A : Type 0) : Type 0 where
  pub route_table : Map (List (RegisteredRoute G))
  pub put_handler_registry : Map (String × H)
  pub put_handlers : Map String
  pub plugin_routes : Map String
  pub delta_filter : DeltaFilterChain W
  pub resource_providers : Option (ResourceProviderRegistry W)
  pub autopilot_manager : Option (AutopilotManager A)
  pub tasks : List ℕ
  pub next_task : ℕ

-- `RustPluginContext`, without the shared tables: the subscriptions by their handles, each with the
-- task that serves it.
pub record RustPluginContext : Type 0 where
  pub plugin_id : String
  pub sub_handles : List (ℕ × ℕ)
  pub next_sub_id : ℕ

unfoldable pub new_context : String → RustPluginContext
new_context plugin_id = record { plugin_id = plugin_id; sub_handles = []; next_sub_id = 1 }

-- The tasks of the handles are aborted.
unfoldable abort : List (ℕ × ℕ) → List ℕ → List ℕ
abort handles tasks = retain (λ t. not (any (λ e. eqb e.1 t) handles)) tasks

-- `get_path`: "vessels.{uri}.{path}", or a path of the self vessel.
full_path_value : SignalKStore → String → List String → Option SignalKValue
full_path_value store full_path (root ∷ vessel_uri ∷ part ∷ parts) =
    if root == "vessels"
    then get_vessel_path store (if vessel_uri == "self" then store.self_uri else vessel_uri)
        (join (part ∷ parts))
    else get_self_path store full_path
full_path_value store full_path _ = get_self_path store full_path

unfoldable get_path : SignalKStore → String → Option Json
unfolding full_path_value split
get_path store full_path = map (λ sv. sv.value) (full_path_value store full_path (split full_path))

-- `handle_message`: through the delta filter into the store.
module _ (W : Type 0) where
  unfoldable handle_message :
      (Json → String)
      → DeltaFilterChain W
      → W × SignalKStore
      → (ℕ → ℕ → Timestamp)
      → Delta
      → W × SignalKStore
  unfolding F.apply apply_delta
  handle_message display delta_filter (w, store) clock delta =
      let (w', answer) = F.apply W delta_filter w delta in
      elim answer [ none ↦ (w', store) | some d ↦ (w', apply_delta display store clock d) ]

module _ (G : Type 0) where
  -- `PluginRouteTable::handle`: the handler of the first route with the method and the path.
  find_route : String → String → List (RegisteredRoute G) → Option G
  find_route method path [] = none
  find_route method path (r ∷ rs) =
      if (r.method == method) && (r.path == path) then some r.handler else find_route method path rs

  unfoldable find_handler : Map (List (RegisteredRoute G)) → String → String → String → Option G
  unfolding find_route lookup
  find_handler routes plugin_id method relative_path = do
    plugin_routes ← lookup plugin_id routes
    find_route method relative_path plugin_routes

module _ (H : Type 0) where
  -- `PutHandlerRegistry::find`: the first pattern that matches.
  unfoldable find_put : Map (String × H) → String → Option (String × H)
  unfolding matches_pattern
  find_put [] path = none
  find_put ((pattern, entry) ∷ handlers) path =
      if matches_pattern pattern path then some entry else find_put handlers path

module _ (H G W A : Type 0) (device_id : A → String) where
  unfoldable pub subscribe : RustPluginContext → Host H G W A → RustPluginContext × Host H G W A
  subscribe ctx h = (
    record ctx {
      sub_handles = (ctx.next_sub_id, h.next_task) ∷ ctx.sub_handles;
      next_sub_id = (ctx.next_sub_id + 1) % 2 ^ 64;
    },
    record h { tasks = h.next_task ∷ h.tasks; next_task = h.next_task + 1 },
  )

  unfoldable pub unsubscribe :
      RustPluginContext → Host H G W A → ℕ → RustPluginContext × Host H G W A
  unfolding abort
  unsubscribe ctx h handle = (
    record ctx { sub_handles = retain (λ e. not (eqb e.0 handle)) ctx.sub_handles },
    record h { tasks = abort (retain (λ e. eqb e.0 handle) ctx.sub_handles) h.tasks },
  )

  -- `cleanup_plugin`: all subscriptions end.
  unfoldable pub cleanup_plugin : RustPluginContext → Host H G W A → Host H G W A
  unfolding abort
  cleanup_plugin ctx h = record h { tasks = abort ctx.sub_handles h.tasks }

  unfoldable pub register_put_handler : Host H G W A → String → String → H → Host H G W A
  unfolding insert
  register_put_handler h plugin_id path handler = record h {
    put_handler_registry = insert path (plugin_id, handler) h.put_handler_registry;
    put_handlers = insert path plugin_id h.put_handlers;
  }

  unfoldable pub register_routes : Host H G W A → String → List (RegisteredRoute G) → Host H G W A
  unfolding insert
  register_routes h plugin_id routes = record h {
    route_table = insert plugin_id routes h.route_table;
    plugin_routes = insert plugin_id ("/plugins/" <> plugin_id) h.plugin_routes;
  }

  unfoldable pub register_delta_input_handler :
      Host H G W A → String → DeltaInputHandler W → Host H G W A
  unfolding F.register
  register_delta_input_handler h plugin_id handler = record h {
    delta_filter = F.register W h.delta_filter plugin_id handler;
  }

  -- In the registry, where the server has one.
  unfoldable pub with_autopilots :
      Host H G W A
      → String
      → A
      → Option (AutopilotManager A)
      → Host H G W A × Result Unit PluginError
  unfolding P.register
  with_autopilots h plugin_id provider none =
      (h, err (runtime "register_autopilot_provider: no AutopilotManager available"))
  with_autopilots h plugin_id provider (some m) =
      (record h { autopilot_manager = some (P.register A device_id m provider plugin_id) }, ok tt)

  unfoldable pub register_autopilot_provider :
      Host H G W A → String → A → Host H G W A × Result Unit PluginError
  unfolding with_autopilots
  register_autopilot_provider h plugin_id provider =
      with_autopilots h plugin_id provider h.autopilot_manager

  unfoldable pub with_resources :
      Host H G W A
      → String
      → String
      → ResourceProvider W
      → Option (ResourceProviderRegistry W)
      → Host H G W A × Result Unit PluginError
  unfolding R.register
  with_resources h plugin_id resource_type provider none =
      (h, err (runtime "register_resource_provider: no ResourceProviderRegistry available"))
  with_resources h plugin_id resource_type provider (some r) = (
    record h { resource_providers = some (R.register W r resource_type plugin_id provider) },
    ok tt,
  )

  unfoldable pub register_resource_provider :
      Host H G W A → String → String → ResourceProvider W → Host H G W A × Result Unit PluginError
  unfolding with_resources
  register_resource_provider h plugin_id resource_type provider =
      with_resources h plugin_id resource_type provider h.resource_providers

  -- What a plugin asks of its context.
  pub data Act : Type 0 where
    subscribes : Act
    unsubscribes : ℕ → Act
    puts : String → H → Act
    routes : List (RegisteredRoute G) → Act
    filters : DeltaInputHandler W → Act
    steers : A → Act
    provides : String → ResourceProvider W → Act

  unfoldable pub act : RustPluginContext × Host H G W A → Act → RustPluginContext × Host H G W A
  unfolding subscribe unsubscribe register_put_handler register_routes register_delta_input_handler
      register_autopilot_provider register_resource_provider
  act (ctx, h) subscribes = subscribe ctx h
  act (ctx, h) (unsubscribes handle) = unsubscribe ctx h handle
  act (ctx, h) (puts path handler) = (ctx, register_put_handler h ctx.plugin_id path handler)
  act (ctx, h) (routes rs) = (ctx, register_routes h ctx.plugin_id rs)
  act (ctx, h) (filters handler) = (ctx, register_delta_input_handler h ctx.plugin_id handler)
  act (ctx, h) (steers provider) = (ctx, (register_autopilot_provider h ctx.plugin_id provider).0)
  act (ctx, h) (provides resource_type provider) =
      (ctx, (register_resource_provider h ctx.plugin_id resource_type provider).0)

  unfoldable pub perform :
      RustPluginContext × Host H G W A → List Act → RustPluginContext × Host H G W A
  unfolding act
  perform s [] = s
  perform s (a ∷ acts) = perform (act s a) acts

  -- `stop_plugin`: everything but the subscriptions.
  unfoldable pub forget : Host H G W A → String → Host H G W A
  unfolding remove F.remove_plugin R.unregister
  forget h plugin_id = record h {
    route_table = remove plugin_id h.route_table;
    put_handler_registry = retain (λ e. not (e.1.0 == plugin_id)) h.put_handler_registry;
    put_handlers = retain (λ e. not (e.1 == plugin_id)) h.put_handlers;
    plugin_routes = remove plugin_id h.plugin_routes;
    delta_filter = F.remove_plugin W h.delta_filter plugin_id;
    resource_providers = map (λ r. R.unregister W r plugin_id) h.resource_providers;
  }
