-- ===== src/Server/Plugins/Clean.antt =====
-- A plugin that is stopped has nothing left in the server's tables
-- (crates/signalk-server/src/plugins/manager.rs).
use signalk_rs.Prelude.{
  ◌≡◌, refl, Bool, true, false, not, ◌&&◌, ◌||◌, Option, none, some, List, [], ◌∷◌, String, ◌==◌,
  any, if◌then◌else◌, subst, sym,
}
use mathlib.Core.List as L
use signalk_rs.Prelude.Assoc.{Map, lookup}
use signalk_rs.Types.Json.{Json}
use signalk_rs.Server.{Result, ok, PluginError}
use signalk_rs.Server.Plugins.{Host, RustPluginContext, Act, new_context, cleanup_plugin}
use signalk_rs.Server.Plugins.Manager.{
  Slot, real, placeholder, PluginEntry, PluginCode, PluginManager, is_stopped_status,
  is_running_status, started, start_unless, start_entry, start_plugin, start_all, stop_entry,
  stop_plugin, stop_each, stop_all, cleaned, ask_context, ask_entry, ask,
}
use signalk_rs.Server.Plugins.Trace.{NoTrace, forget-NoTrace, forget-keeps}
use signalk_rs.Server.Plugins.Acts.{perform-keeps}

module _ (H G W A P : Type 0) (device_id : A → String) (code : PluginCode H G W A P device_id) where
  -- What the server does with its plugins, and what they ask of it, once they are registered.
  pub data Call : Type 0 where
    starts : String → Json → Call
    stops : String → Call
    starts_all : Map Json → Call
    stops_all : Call
    asks : String → List (Act H G W A device_id) → Call

  unfoldable pub call : PluginManager H G W A P device_id → Call → PluginManager H G W A P device_id
  unfolding start_plugin stop_plugin start_all stop_all ask
  call m (starts id config) = (start_plugin H G W A P device_id code m id config).0
  call m (stops id) = (stop_plugin H G W A P device_id code m id).0
  call m (starts_all configs) = start_all H G W A P device_id code m configs
  call m stops_all = stop_all H G W A P device_id code m
  call m (asks id acts) = ask H G W A P device_id code m id acts

  unfoldable pub run :
      PluginManager H G W A P device_id → List Call → PluginManager H G W A P device_id
  unfolding call
  run m [] = m
  run m (c ∷ cs) = run (call m c) cs

  -- Whether a call leaves a plugin alone: it neither starts it nor is a request of it.
  abbrev spares : String → Call → Bool
  spares id (starts plugin_id config) = not (plugin_id == id)
  spares id (stops plugin_id) = true
  spares id (starts_all configs) = not (any (λ e. e.0 == id) configs)
  spares id stops_all = true
  spares id (asks plugin_id acts) = not (plugin_id == id)

  abbrev all_spare : String → List Call → Bool
  all_spare id [] = true
  all_spare id (c ∷ cs) = spares id c && all_spare id cs

  and_true : (a b : Bool) → (a && b) ≡ true → (a ≡ true) × (b ≡ true)
  and_true true b e = (refl, e)
  and_true false b e = absurd (cc)

  false_of_not : (b : Bool) → not b ≡ true → b ≡ false
  false_of_not false e = refl
  false_of_not true e = absurd (cc)

  or_not : (a b : Bool) → not (a || b) ≡ true → (a ≡ false) × (not b ≡ true)
  or_not true b e = absurd (cc)
  or_not false b e = (refl, e)

  started-keeps :
      (plugin_id : String) (slot : Slot P) (config : Json) (h : Host H G W A) (id : String)
      → (plugin_id == id) ≡ false
      → NoTrace H G W A id h
      → NoTrace H G W A id (started H G W A P device_id code plugin_id slot config h).0.1
  unfolding started new_context
  started-keeps plugin_id (placeholder name) config h id ne n = n
  started-keeps plugin_id (real p) config h id ne n =
      perform-keeps H G W A device_id (new_context plugin_id) h (code.start p config h).1 id ne n

  start_unless-keeps :
      (m : PluginManager H G W A P device_id) (plugin_id : String) (config : Json)
      (entry : PluginEntry P) (running : Bool) (id : String)
      → (plugin_id == id) ≡ false
      → NoTrace H G W A id m.host
      → NoTrace H G W A id
          (start_unless H G W A P device_id code m plugin_id config entry running).0.host
  unfolding start_unless
  start_unless-keeps m plugin_id config entry true id ne n = n
  start_unless-keeps m plugin_id config entry false id ne n =
      started-keeps plugin_id entry.plugin config m.host id ne n

  start_entry-keeps :
      (m : PluginManager H G W A P device_id) (plugin_id : String) (config : Json)
      (o : Option (PluginEntry P)) (id : String)
      → (plugin_id == id) ≡ false
      → NoTrace H G W A id m.host
      → NoTrace H G W A id (start_entry H G W A P device_id code m plugin_id config o).0.host
  unfolding start_entry
  start_entry-keeps m plugin_id config none id ne n = n
  start_entry-keeps m plugin_id config (some entry) id ne n =
      start_unless-keeps m plugin_id config entry (is_running_status entry.status) id ne n

  start_all-keeps :
      (m : PluginManager H G W A P device_id) (configs : Map Json) (id : String)
      → not (any (λ e. e.0 == id) configs) ≡ true
      → NoTrace H G W A id m.host
      → NoTrace H G W A id (start_all H G W A P device_id code m configs).host
  unfolding start_all start_plugin
  start_all-keeps m [] id spared n = n
  start_all-keeps m ((plugin_id, config) ∷ configs) id spared n =
      let (ne, later) : ((plugin_id == id) ≡ false) × (not (any (λ e. e.0 == id) configs) ≡ true) =
        or_not (plugin_id == id) (any (λ e. e.0 == id) configs) spared in
      start_all-keeps (start_plugin H G W A P device_id code m plugin_id config).0 configs id later
        (start_entry-keeps m plugin_id config (lookup plugin_id m.plugins) id ne n)

  cleaned-keeps :
      (o : Option RustPluginContext) (h : Host H G W A) (id : String)
      → NoTrace H G W A id h
      → NoTrace H G W A id (cleaned H G W A P device_id code o h)
  unfolding cleaned cleanup_plugin
  cleaned-keeps none h id n = n
  cleaned-keeps (some ctx) h id n = record {
    route = n.route;
    discovery = n.discovery;
    put_handler = n.put_handler;
    put = n.put;
    filter = n.filter;
    provider = n.provider;
  }

  either-keeps :
      (b : Bool) (id : String) (r r' : PluginManager H G W A P device_id × Result Unit PluginError)
      → NoTrace H G W A id r.0.host
      → NoTrace H G W A id r'.0.host
      → NoTrace H G W A id (if b then r else r').0.host
  either-keeps true id r r' n n' = n
  either-keeps false id r r' n n' = n'

  stop_entry-keeps :
      (m : PluginManager H G W A P device_id) (plugin_id : String) (o : Option (PluginEntry P))
      (id : String)
      → NoTrace H G W A id m.host
      → NoTrace H G W A id (stop_entry H G W A P device_id code m plugin_id o).0.host
  unfolding stop_entry
  stop_entry-keeps m plugin_id none id n = n
  stop_entry-keeps m plugin_id (some entry) id n =
      either-keeps (is_stopped_status entry.status) id (m, ok tt) _ n
        (forget-keeps H G W A device_id (cleaned H G W A P device_id code entry.context m.host) id
          plugin_id (cleaned-keeps entry.context m.host id n))

  stop_each-keeps :
      (m : PluginManager H G W A P device_id) (ids : List String) (id : String)
      → NoTrace H G W A id m.host
      → NoTrace H G W A id (stop_each H G W A P device_id code m ids).host
  unfolding stop_each stop_plugin
  stop_each-keeps m [] id n = n
  stop_each-keeps m (plugin_id ∷ ids) id n =
      stop_each-keeps (stop_plugin H G W A P device_id code m plugin_id).0 ids id
        (stop_entry-keeps m plugin_id (lookup plugin_id m.plugins) id n)

  ask_context-keeps :
      (m : PluginManager H G W A P device_id) (plugin_id : String) (entry : PluginEntry P)
      (o : Option RustPluginContext) (acts : List (Act H G W A device_id)) (id : String)
      → (plugin_id == id) ≡ false
      → NoTrace H G W A id m.host
      → NoTrace H G W A id (ask_context H G W A P device_id code m plugin_id entry o acts).host
  unfolding ask_context new_context
  ask_context-keeps m plugin_id entry none acts id ne n =
      perform-keeps H G W A device_id (new_context plugin_id) m.host acts id ne n
  ask_context-keeps m plugin_id entry (some ctx) acts id ne n =
      perform-keeps H G W A device_id (record ctx { plugin_id = plugin_id }) m.host acts id ne n

  ask_entry-keeps :
      (m : PluginManager H G W A P device_id) (plugin_id : String) (o : Option (PluginEntry P))
      (acts : List (Act H G W A device_id)) (id : String)
      → (plugin_id == id) ≡ false
      → NoTrace H G W A id m.host
      → NoTrace H G W A id (ask_entry H G W A P device_id code m plugin_id o acts).host
  unfolding ask_entry
  ask_entry-keeps m plugin_id none acts id ne n = n
  ask_entry-keeps m plugin_id (some entry) acts id ne n =
      ask_context-keeps m plugin_id entry entry.context acts id ne n

  call-keeps :
      (m : PluginManager H G W A P device_id) (c : Call) (id : String)
      → spares id c ≡ true
      → NoTrace H G W A id m.host
      → NoTrace H G W A id (call m c).host
  unfolding call start_plugin stop_plugin stop_all ask
  call-keeps m (starts plugin_id config) id spared n =
      start_entry-keeps m plugin_id config (lookup plugin_id m.plugins) id
        (false_of_not (plugin_id == id) spared) n
  call-keeps m (stops plugin_id) id spared n =
      stop_entry-keeps m plugin_id (lookup plugin_id m.plugins) id n
  call-keeps m (starts_all configs) id spared n = start_all-keeps m configs id spared n
  call-keeps m stops_all id spared n = stop_each-keeps m (L.map (λ e. e.0) m.plugins) id n
  call-keeps m (asks plugin_id acts) id spared n =
      ask_entry-keeps m plugin_id (lookup plugin_id m.plugins) acts id
        (false_of_not (plugin_id == id) spared) n

  run-keeps :
      (m : PluginManager H G W A P device_id) (cs : List Call) (id : String)
      → all_spare id cs ≡ true
      → NoTrace H G W A id m.host
      → NoTrace H G W A id (run m cs).host
  unfolding run
  run-keeps m [] id spared n = n
  run-keeps m (c ∷ cs) id spared n =
      let (now, later) : (spares id c ≡ true) × (all_spare id cs ≡ true) =
        and_true (spares id c) (all_spare id cs) spared in
      run-keeps (call m c) cs id later (call-keeps m c id now n)

  second-keeps :
      (b : Bool) (id : String) (r r' : PluginManager H G W A P device_id × Result Unit PluginError)
      → b ≡ false
      → NoTrace H G W A id r'.0.host
      → NoTrace H G W A id (if b then r else r').0.host
  second-keeps true id r r' e n = absurd (cc)
  second-keeps false id r r' e n = n

  stop_entry-NoTrace :
      (m : PluginManager H G W A P device_id) (id : String) (entry : PluginEntry P)
      → is_stopped_status entry.status ≡ false
      → NoTrace H G W A id (stop_entry H G W A P device_id code m id (some entry)).0.host
  unfolding stop_entry
  stop_entry-NoTrace m id entry live =
      second-keeps (is_stopped_status entry.status) id (m, ok tt) _ live
        (forget-NoTrace H G W A device_id (cleaned H G W A P device_id code entry.context m.host)
          id)

  -- In any state of the server, with whatever its own parts and the plugins have registered: once
  -- a plugin that was started, also in vain, is stopped, it has no route, no PUT handler, no delta filter
  -- and no resource provider in the tables, and this stays so over any starts, stops and requests of
  -- the others, until the plugin is started again or itself asks something of the context that it kept.
  pub run-NoTrace :
      (m : PluginManager H G W A P device_id) (id : String) (entry : PluginEntry P) (cs : List Call)
      → lookup id m.plugins ≡ some entry
      → is_stopped_status entry.status ≡ false
      → all_spare id cs ≡ true
      → NoTrace H G W A id (run (stop_plugin H G W A P device_id code m id).0 cs).host
  unfolding stop_plugin
  run-NoTrace m id entry cs found live spared =
      run-keeps (stop_plugin H G W A P device_id code m id).0 cs id spared (
        subst (λ o. NoTrace H G W A id (stop_entry H G W A P device_id code m id o).0.host)
          (sym found) (stop_entry-NoTrace m id entry live))
