-- ===== src/Server/Plugins/Lost.antt =====
-- What a start does to a plugin (crates/signalk-server/src/plugins/manager.rs).
use signalk_rs.Prelude.{
  ◌≡◌, refl, ap, ◌∙◌, ◌↔◌, Bool, true, false, Option, none, some, String, is_some, eq_refl, subst,
  eq_iff, ◌==◌, Bool-cases, inl, inr, List, [], ◌∷◌, if◌then◌else◌, sym,
}
use signalk_rs.Prelude.Assoc.{Map, lookup, insert, lookup-insert}
use signalk_rs.Types.Json.{Json}
use signalk_rs.Server.{Result, ok, err, PluginError, runtime}
use signalk_rs.Server.Plugins.{Host, RustPluginContext, Act}
use signalk_rs.Server.Plugins.Manager.{
  Slot, real, placeholder, PluginEntry, PluginCode, PluginManager, is_running_status, outcome,
  started, start_unless, start_entry, start_plugin, is_running, is_stopped_status, start_all,
  stop_entry, stop_plugin, stop_each, stop_all, halted, ask_context, ask_entry, ask,
}
use signalk_rs.Server.Plugins.Clean.{Call, starts, stops, starts_all, stops_all, asks, call, run}
use mathlib.Core.List as L

module _ (H G W A P : Type 0) (device_id : A → String) (code : PluginCode H G W A P device_id) where
  -- The plugin runs where the answer is positive; else its place is taken by the placeholder.
  abbrev Settles : PluginEntry P → Result Unit PluginError → Type 0
  Settles entry (ok u) = is_running_status entry.status ≡ true
  Settles entry (err e) =
      (is_running_status entry.status ≡ false)
      × ((name : String) × (entry.plugin ≡ placeholder name))

  outcome-Settles :
      (plugin_id : String) (p : P) (ctx : RustPluginContext) (answer : Result Unit PluginError)
      → Settles (outcome H G W A P device_id code plugin_id p ctx answer) answer
  unfolding outcome
  outcome-Settles plugin_id p ctx (ok u) = refl
  outcome-Settles plugin_id p ctx (err e) = (refl, (plugin_id, refl))

  started-Settles :
      (plugin_id : String) (slot : Slot P) (config : Json) (h : Host H G W A)
      → Settles
          (started H G W A P device_id code plugin_id slot config h).0.0
          (started H G W A P device_id code plugin_id slot config h).1
  unfolding started
  started-Settles plugin_id (placeholder name) config h = (refl, (plugin_id, refl))
  started-Settles plugin_id (real p) config h = outcome-Settles plugin_id _ _ _

  -- What a start leaves under the name, by its answer.
  abbrev SettlesAt : Option (PluginEntry P) → Result Unit PluginError → Type 0
  SettlesAt none (ok u) = ⊥
  SettlesAt none (err e) = Unit
  SettlesAt (some entry) answer = Settles entry answer

  start_unless-SettlesAt :
      (m : PluginManager H G W A P device_id) (plugin_id : String) (config : Json)
      (entry : PluginEntry P) (running : Bool)
      → is_running_status entry.status ≡ running
      → lookup plugin_id m.plugins ≡ some entry
      → SettlesAt
          (lookup plugin_id
            (start_unless H G W A P device_id code m plugin_id config entry running).0.plugins)
          (start_unless H G W A P device_id code m plugin_id config entry running).1
  unfolding start_unless
  start_unless-SettlesAt m plugin_id config entry true is found = rw found is
  start_unless-SettlesAt m plugin_id config entry false is found =
      let r = started H G W A P device_id code plugin_id entry.plugin config m.host in
      rw (lookup-insert plugin_id plugin_id r.0.0 m.plugins, eq_refl plugin_id)
        (started-Settles plugin_id entry.plugin config m.host)

  start_entry-SettlesAt :
      (m : PluginManager H G W A P device_id) (plugin_id : String) (config : Json)
      (o : Option (PluginEntry P))
      → lookup plugin_id m.plugins ≡ o
      → SettlesAt
          (lookup plugin_id (start_entry H G W A P device_id code m plugin_id config o).0.plugins)
          (start_entry H G W A P device_id code m plugin_id config o).1
  unfolding start_entry
  start_entry-SettlesAt m plugin_id config none found = rw found tt
  start_entry-SettlesAt m plugin_id config (some entry) found =
      start_unless-SettlesAt m plugin_id config entry (is_running_status entry.status) refl found

  running_iff :
      (o : Option (PluginEntry P)) (answer : Result Unit PluginError)
      → SettlesAt o answer
      → (answer ≡ ok tt)
        ↔ ((elim o [ none ↦ false | some entry ↦ is_running_status entry.status ]) ≡ true)
  running_iff none (ok u) s = absurd s
  running_iff none (err e) s = (λ q. cc, λ q. cc)
  running_iff (some entry) (ok u) s = (λ q. s, λ q. refl)
  running_iff (some entry) (err e) s = (λ q. cc, λ q. cc)

  -- A start of a plugin succeeds just when the plugin runs afterwards: also where it was running
  -- before, where it is not known, and where the plugin's own code fails or panics.
  pub start_plugin-is_running :
      (m : PluginManager H G W A P device_id) (plugin_id : String) (config : Json)
      → ((start_plugin H G W A P device_id code m plugin_id config).1 ≡ ok tt) ↔ (
          is_running H G W A P device_id code
            (start_plugin H G W A P device_id code m plugin_id config).0
            plugin_id
          ≡ true)
  unfolding start_plugin is_running
  start_plugin-is_running m plugin_id config =
      running_iff _ _ (start_entry-SettlesAt m plugin_id config (lookup plugin_id m.plugins) refl)

  -- Where the placeholder stands, a start fails.
  start_unless-placeholder :
      (m : PluginManager H G W A P device_id) (plugin_id name : String) (config : Json)
      (entry : PluginEntry P) (running : Bool)
      → entry.plugin ≡ placeholder name
      → running ≡ false
      → (start_unless H G W A P device_id code m plugin_id config entry running).1
        ≡ err (runtime "placeholder plugin cannot be started")
  unfolding start_unless started
  start_unless-placeholder m plugin_id name config entry true held off = absurd (cc)
  start_unless-placeholder m plugin_id name config entry false held off =
      ap (λ slot. (started H G W A P device_id code plugin_id slot config m.host).1) held

  -- The placeholder stands in the entry, and it does not run.
  abbrev IsLost : PluginEntry P → Type 0
  IsLost entry =
      ((name : String) × (entry.plugin ≡ placeholder name))
      × (is_running_status entry.status ≡ false)

  abbrev IsLostAt : Option (PluginEntry P) → Type 0
  IsLostAt none = ⊥
  IsLostAt (some entry) = IsLost entry

  start_entry-placeholder :
      (m : PluginManager H G W A P device_id) (plugin_id : String) (config : Json)
      (o : Option (PluginEntry P))
      → IsLostAt o
      → (start_entry H G W A P device_id code m plugin_id config o).1
        ≡ err (runtime "placeholder plugin cannot be started")
  unfolding start_entry
  start_entry-placeholder m plugin_id config none lost = absurd lost
  start_entry-placeholder m plugin_id config (some entry) lost =
      start_unless-placeholder m plugin_id lost.0.0 config entry (is_running_status entry.status)
        lost.0.1 lost.1

  settled-IsLostAt :
      (o : Option (PluginEntry P)) (e : PluginError)
      → SettlesAt o (err e)
      → is_some o ≡ true
      → IsLostAt o
  settled-IsLostAt none e s known = absurd (cc)
  settled-IsLostAt (some entry) e s known = (s.1, s.0)

  start_unless-known :
      (m : PluginManager H G W A P device_id) (plugin_id : String) (config : Json)
      (entry : PluginEntry P) (running : Bool)
      → lookup plugin_id m.plugins ≡ some entry
      → is_some (
          lookup plugin_id
            (start_unless H G W A P device_id code m plugin_id config entry running).0.plugins)
        ≡ true
  unfolding start_unless
  start_unless-known m plugin_id config entry true found = rw found refl
  start_unless-known m plugin_id config entry false found =
      rw (lookup-insert plugin_id plugin_id _ m.plugins, eq_refl plugin_id) refl

  -- An entry is set: it is lost, or stands under another name.
  insert-IsLostAt :
      (plugins : Map (PluginEntry P)) (id other : String) (entry : PluginEntry P)
      → ((other == id) ≡ true → IsLost entry)
      → IsLostAt (lookup id plugins)
      → IsLostAt (lookup id (insert other entry plugins))
  insert-IsLostAt plugins id other entry here lost = elim (Bool-cases (other == id)) [
    | inl e ↦ rw (lookup-insert other id entry plugins, e) (here e)
    | inr ne ↦ rw (lookup-insert other id entry plugins, ne) lost
  ]

  same-IsLost :
      (plugins : Map (PluginEntry P)) (id other : String) (entry : PluginEntry P)
      → lookup other plugins ≡ some entry
      → IsLostAt (lookup id plugins)
      → (other == id) ≡ true
      → IsLost entry
  same-IsLost plugins id other entry found lost e =
      subst IsLostAt (ap (λ i. lookup i plugins) (sym ((eq_iff other id).0 e)) ∙ found) lost

  started-IsLost :
      (plugin_id name : String) (slot : Slot P) (config : Json) (h : Host H G W A)
      → slot ≡ placeholder name
      → IsLost (started H G W A P device_id code plugin_id slot config h).0.0
  unfolding started
  started-IsLost plugin_id name (placeholder n) config h e = ((plugin_id, refl), refl)
  started-IsLost plugin_id name (real p) config h e = absurd (cc)

  start_unless-IsLostAt :
      (m : PluginManager H G W A P device_id) (id plugin_id : String) (config : Json)
      (entry : PluginEntry P) (running : Bool)
      → lookup plugin_id m.plugins ≡ some entry
      → IsLostAt (lookup id m.plugins)
      → IsLostAt (
          lookup id
            (start_unless H G W A P device_id code m plugin_id config entry running).0.plugins)
  unfolding start_unless
  start_unless-IsLostAt m id plugin_id config entry true found lost = lost
  start_unless-IsLostAt m id plugin_id config entry false found lost =
      insert-IsLostAt m.plugins id plugin_id
        (started H G W A P device_id code plugin_id entry.plugin config m.host).0.0
        (λ e.
          let here = same-IsLost m.plugins id plugin_id entry found lost e in
          started-IsLost plugin_id here.0.0 entry.plugin config m.host here.0.1)
        lost

  start_entry-IsLostAt :
      (m : PluginManager H G W A P device_id) (id plugin_id : String) (config : Json)
      (o : Option (PluginEntry P))
      → lookup plugin_id m.plugins ≡ o
      → IsLostAt (lookup id m.plugins)
      → IsLostAt (lookup id (start_entry H G W A P device_id code m plugin_id config o).0.plugins)
  unfolding start_entry
  start_entry-IsLostAt m id plugin_id config none found lost = lost
  start_entry-IsLostAt m id plugin_id config (some entry) found lost =
      start_unless-IsLostAt m id plugin_id config entry (is_running_status entry.status) found lost

  start_all-IsLostAt :
      (m : PluginManager H G W A P device_id) (id : String) (configs : Map Json)
      → IsLostAt (lookup id m.plugins)
      → IsLostAt (lookup id (start_all H G W A P device_id code m configs).plugins)
  unfolding start_all start_plugin
  start_all-IsLostAt m id [] lost = lost
  start_all-IsLostAt m id ((plugin_id, config) ∷ configs) lost =
      start_all-IsLostAt (start_plugin H G W A P device_id code m plugin_id config).0 id configs
        (start_entry-IsLostAt m id plugin_id config (lookup plugin_id m.plugins) refl lost)

  halted-placeholder :
      (slot : Slot P) (name : String)
      → slot ≡ placeholder name
      → halted H G W A P device_id code slot ≡ placeholder name
  unfolding halted
  halted-placeholder (placeholder n) name e = e
  halted-placeholder (real p) name e = absurd (cc)

  either-IsLostAt :
      (id : String) (b : Bool) (r r' : PluginManager H G W A P device_id × Result Unit PluginError)
      → IsLostAt (lookup id r.0.plugins)
      → IsLostAt (lookup id r'.0.plugins)
      → IsLostAt (lookup id (if b then r else r').0.plugins)
  either-IsLostAt id true r r' lost lost' = lost
  either-IsLostAt id false r r' lost lost' = lost'

  stop_entry-IsLostAt :
      (m : PluginManager H G W A P device_id) (id plugin_id : String) (o : Option (PluginEntry P))
      → lookup plugin_id m.plugins ≡ o
      → IsLostAt (lookup id m.plugins)
      → IsLostAt (lookup id (stop_entry H G W A P device_id code m plugin_id o).0.plugins)
  unfolding stop_entry
  stop_entry-IsLostAt m id plugin_id none found lost = lost
  stop_entry-IsLostAt m id plugin_id (some entry) found lost =
      either-IsLostAt id (is_stopped_status entry.status) (m, ok tt) _ lost
        (insert-IsLostAt m.plugins id plugin_id _
          (λ e.
            let here = same-IsLost m.plugins id plugin_id entry found lost e in
            ((here.0.0, halted-placeholder entry.plugin here.0.0 here.0.1), refl))
          lost)

  stop_each-IsLostAt :
      (m : PluginManager H G W A P device_id) (id : String) (ids : List String)
      → IsLostAt (lookup id m.plugins)
      → IsLostAt (lookup id (stop_each H G W A P device_id code m ids).plugins)
  unfolding stop_each stop_plugin
  stop_each-IsLostAt m id [] lost = lost
  stop_each-IsLostAt m id (plugin_id ∷ ids) lost =
      stop_each-IsLostAt (stop_plugin H G W A P device_id code m plugin_id).0 id ids
        (stop_entry-IsLostAt m id plugin_id (lookup plugin_id m.plugins) refl lost)

  ask_context-IsLostAt :
      (m : PluginManager H G W A P device_id) (id plugin_id : String) (entry : PluginEntry P)
      (o : Option RustPluginContext) (acts : List (Act H G W A device_id))
      → lookup plugin_id m.plugins ≡ some entry
      → IsLostAt (lookup id m.plugins)
      → IsLostAt (lookup id (ask_context H G W A P device_id code m plugin_id entry o acts).plugins)
  unfolding ask_context
  ask_context-IsLostAt m id plugin_id entry none acts found lost = lost
  ask_context-IsLostAt m id plugin_id entry (some ctx) acts found lost =
      insert-IsLostAt m.plugins id plugin_id _ (same-IsLost m.plugins id plugin_id entry found lost)
        lost

  ask_entry-IsLostAt :
      (m : PluginManager H G W A P device_id) (id plugin_id : String) (o : Option (PluginEntry P))
      (acts : List (Act H G W A device_id))
      → lookup plugin_id m.plugins ≡ o
      → IsLostAt (lookup id m.plugins)
      → IsLostAt (lookup id (ask_entry H G W A P device_id code m plugin_id o acts).plugins)
  unfolding ask_entry
  ask_entry-IsLostAt m id plugin_id none acts found lost = lost
  ask_entry-IsLostAt m id plugin_id (some entry) acts found lost =
      ask_context-IsLostAt m id plugin_id entry entry.context acts found lost

  call-IsLostAt :
      (m : PluginManager H G W A P device_id) (id : String) (c : Call H G W A P device_id code)
      → IsLostAt (lookup id m.plugins)
      → IsLostAt (lookup id (call H G W A P device_id code m c).plugins)
  unfolding call start_plugin stop_plugin stop_all ask
  call-IsLostAt m id (starts plugin_id config) lost =
      start_entry-IsLostAt m id plugin_id config (lookup plugin_id m.plugins) refl lost
  call-IsLostAt m id (stops plugin_id) lost =
      stop_entry-IsLostAt m id plugin_id (lookup plugin_id m.plugins) refl lost
  call-IsLostAt m id (starts_all configs) lost = start_all-IsLostAt m id configs lost
  call-IsLostAt m id stops_all lost = stop_each-IsLostAt m id (L.map (λ e. e.0) m.plugins) lost
  call-IsLostAt m id (asks plugin_id acts) lost =
      ask_entry-IsLostAt m id plugin_id (lookup plugin_id m.plugins) acts refl lost

  run-IsLostAt :
      (m : PluginManager H G W A P device_id) (id : String)
      (cs : List (Call H G W A P device_id code))
      → IsLostAt (lookup id m.plugins)
      → IsLostAt (lookup id (run H G W A P device_id code m cs).plugins)
  unfolding run
  run-IsLostAt m id [] lost = lost
  run-IsLostAt m id (c ∷ cs) lost =
      run-IsLostAt (call H G W A P device_id code m c) id cs (call-IsLostAt m id c lost)

  -- When the start of a registered plugin has failed once, its code is gone: after any starts, stops
  -- and requests of plugins, every later start of it fails, whatever its configuration, since the
  -- placeholder still stands in its entry. (Only a new registration would replace it.)
  pub start_plugin-lost :
      (m m' : PluginManager H G W A P device_id) (plugin_id : String) (config config' : Json)
      (entry : PluginEntry P) (e : PluginError) (cs : List (Call H G W A P device_id code))
      → lookup plugin_id m.plugins ≡ some entry
      → start_plugin H G W A P device_id code m plugin_id config ≡ (m', err e)
      → (start_plugin H G W A P device_id code
          (run H G W A P device_id code m' cs)
          plugin_id
          config').1
        ≡ err (runtime "placeholder plugin cannot be started")
  unfolding start_plugin start_entry
  start_plugin-lost m m' plugin_id config config' entry e cs found failed =
      let step =
        ap (start_entry H G W A P device_id code m plugin_id config) (sym found) ∙ failed in
      start_entry-placeholder (run H G W A P device_id code m' cs) plugin_id config'
        (lookup plugin_id (run H G W A P device_id code m' cs).plugins)
        (run-IsLostAt m' plugin_id cs (
          settled-IsLostAt (lookup plugin_id m'.plugins) e
            (subst (λ r. SettlesAt (lookup plugin_id r.0.plugins) r.1) failed
              (start_entry-SettlesAt m plugin_id config (lookup plugin_id m.plugins) refl))
            (ap (λ r. is_some (lookup plugin_id r.0.plugins)) (sym step)
              ∙ start_unless-known m plugin_id config entry (is_running_status entry.status)
                  found)))
