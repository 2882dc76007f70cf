-- ===== src/Server/Plugins/Acts.antt =====
-- What a plugin asks of its context leaves no trace of another plugin
-- (crates/signalk-server/src/plugins/host.rs).
use signalk_rs.Prelude.{
  ◌≡◌, refl, ap, ◌∙◌, false, Option, none, some, List, [], ◌∷◌, String, ◌==◌, unwrap_or, All, arith,
  inl, inr, Bool-cases,
}
use signalk_rs.Prelude.Assoc.{Map, lookup, insert, lookup-insert}
use signalk_rs.Server.DeltaFilter.{DeltaFilterChain, DeltaInputHandler}
use signalk_rs.Server.DeltaFilter as F
use signalk_rs.Server.Resources.{ResourceProvider, ResourceProviderRegistry, drop_plugin}
use signalk_rs.Server.Resources as R
use signalk_rs.Server.Plugins.{
  Host, RustPluginContext, Act, subscribes, unsubscribes, puts, routes, filters, steers, provides,
  act, perform, subscribe, unsubscribe, register_put_handler, register_routes,
  register_delta_input_handler, register_autopilot_provider, register_resource_provider,
}
use signalk_rs.Server.Plugins.{with_autopilots, with_resources}
use signalk_rs.Server.Autopilot.{AutopilotManager}
use signalk_rs.Server.Plugins.Trace.{NoTrace, NoProvider, any-append, any-insert}

module _ (H G W A : Type 0) (device_id : A → String) where
  lookup-insert-absent :
      {V : Type 0} (id other : String) (v : V) (m : Map V)
      → (other == id) ≡ false
      → lookup id m ≡ none
      → lookup id (insert other v m) ≡ none
  lookup-insert-absent id other v m ne e = ground (arith, lookup-insert other id v m, ne, e)

  insert-All :
      (id resource_type : String) (list : Map (ResourceProvider W))
      (m : Map (Map (ResourceProvider W)))
      → lookup id list ≡ none
      → All (λ e. lookup id e.1 ≡ none) m
      → All (λ e. lookup id e.1 ≡ none) (insert resource_type list m)
  unfolding insert
  insert-All id t list [] e h = (e, tt)
  insert-All id t list ((u, old) ∷ m) e h = elim (Bool-cases (u == t)) [
    | inl s ↦ rw s (e, h.1)
    | inr s ↦ rw s (h.0, insert-All id t list m e h.1)
  ]

  lookup-All :
      (id t : String) (m : Map (Map (ResourceProvider W)))
      → All (λ e. lookup id e.1 ≡ none) m
      → lookup id (unwrap_or (lookup t m) []) ≡ none
  unfolding lookup
  lookup-All id t [] h = refl
  lookup-All id t ((u, list) ∷ m) h = elim (Bool-cases (u == t)) [
    | inl s ↦ rw s h.0
    | inr s ↦ rw s (lookup-All id t m h.1)
  ]

  with_autopilots-keeps :
      (h : Host H G W A) (plugin_id id : String) (provider : A) (o : Option (AutopilotManager A))
      → NoTrace H G W A id h
      → NoTrace H G W A id (with_autopilots H G W A device_id h plugin_id provider o).0
  unfolding with_autopilots
  with_autopilots-keeps h plugin_id id provider none n = n
  with_autopilots-keeps h plugin_id id provider (some m) n = record {
    route = n.route;
    discovery = n.discovery;
    put_handler = n.put_handler;
    put = n.put;
    filter = n.filter;
    provider = n.provider;
  }

  with_resources-keeps :
      (h : Host H G W A) (plugin_id id t : String) (provider : ResourceProvider W)
      (o : Option (ResourceProviderRegistry W))
      → (plugin_id == id) ≡ false
      → NoProvider W id o
      → NoTrace H G W A id h
      → NoTrace H G W A id (with_resources H G W A device_id h plugin_id t provider o).0
  unfolding with_resources R.register
  with_resources-keeps h plugin_id id t provider none ne k n = n
  with_resources-keeps h plugin_id id t provider (some r) ne k n = record {
    route = n.route;
    discovery = n.discovery;
    put_handler = n.put_handler;
    put = n.put;
    filter = n.filter;
    provider =
        insert-All id t (insert plugin_id provider (unwrap_or (lookup t r.providers) []))
          r.providers
          (lookup-insert-absent id plugin_id provider (unwrap_or (lookup t r.providers) []) ne
            (lookup-All id t r.providers k))
          k;
  }

  -- What a plugin asks for is under its own name.
  act-keeps :
      (ctx : RustPluginContext) (h : Host H G W A) (a : Act H G W A device_id) (id : String)
      → (ctx.plugin_id == id) ≡ false
      → NoTrace H G W A id h
      → NoTrace H G W A id (act H G W A device_id (ctx, h) a).1
  unfolding act subscribe unsubscribe register_put_handler register_routes
      register_delta_input_handler register_autopilot_provider register_resource_provider F.register
  act-keeps ctx h subscribes id ne n = record {
    route = n.route;
    discovery = n.discovery;
    put_handler = n.put_handler;
    put = n.put;
    filter = n.filter;
    provider = n.provider;
  }
  act-keeps ctx h (unsubscribes handle) id ne n = record {
    route = n.route;
    discovery = n.discovery;
    put_handler = n.put_handler;
    put = n.put;
    filter = n.filter;
    provider = n.provider;
  }
  act-keeps ctx h (puts path handler) id ne n = record {
    route = n.route;
    discovery = n.discovery;
    put_handler =
        any-insert (λ e. e.1.0 == id) path (ctx.plugin_id, handler) h.put_handler_registry
          n.put_handler ne;
    put = any-insert (λ e. e.1 == id) path ctx.plugin_id h.put_handlers n.put ne;
    filter = n.filter;
    provider = n.provider;
  }
  act-keeps ctx h (routes rs) id ne n = record {
    route = lookup-insert-absent id ctx.plugin_id rs h.route_table ne n.route;
    discovery = lookup-insert-absent id ctx.plugin_id _ h.plugin_routes ne n.discovery;
    put_handler = n.put_handler;
    put = n.put;
    filter = n.filter;
    provider = n.provider;
  }
  act-keeps ctx h (filters handler) id ne n = record {
    route = n.route;
    discovery = n.discovery;
    put_handler = n.put_handler;
    put = n.put;
    filter =
        any-append (λ e. e.0 == id) h.delta_filter.handlers ((ctx.plugin_id, handler) ∷ []) n.filter
          (rw ne refl);
    provider = n.provider;
  }
  act-keeps ctx h (steers provider) id ne n =
      with_autopilots-keeps h ctx.plugin_id id provider h.autopilot_manager n
  act-keeps ctx h (provides t provider) id ne n =
      with_resources-keeps h ctx.plugin_id id t provider h.resource_providers ne n.provider n

  act-plugin_id :
      (ctx : RustPluginContext) (h : Host H G W A) (a : Act H G W A device_id)
      → (act H G W A device_id (ctx, h) a).0.plugin_id ≡ ctx.plugin_id
  unfolding act subscribe unsubscribe
  act-plugin_id ctx h subscribes = refl
  act-plugin_id ctx h (unsubscribes handle) = refl
  act-plugin_id ctx h (puts path handler) = refl
  act-plugin_id ctx h (routes rs) = refl
  act-plugin_id ctx h (filters handler) = refl
  act-plugin_id ctx h (steers provider) = refl
  act-plugin_id ctx h (provides t provider) = refl

  pub perform-keeps :
      (ctx : RustPluginContext) (h : Host H G W A) (acts : List (Act H G W A device_id))
      (id : String)
      → (ctx.plugin_id == id) ≡ false
      → NoTrace H G W A id h
      → NoTrace H G W A id (perform H G W A device_id (ctx, h) acts).1
  unfolding perform
  perform-keeps ctx h [] id ne n = n
  perform-keeps ctx h (a ∷ acts) id ne n =
      perform-keeps (act H G W A device_id (ctx, h) a).0 (act H G W A device_id (ctx, h) a).1 acts
        id (ap (λ p. p == id) (act-plugin_id ctx h a) ∙ ne) (act-keeps ctx h a id ne n)
