-- ===== src/Server/Autopilot.antt =====
-- crates/signalk-server/src/autopilot/manager.rs: the autopilot providers and the default among
-- them. `P` is the type of providers, and `device_id` the method of that name.
use signalk_rs.Prelude.{
  ◌≡◌, refl, sym, ◌∙◌, ◌⊎◌, inl, inr, Bool, true, false, Option, none, some, List, [], ◌∷◌, String,
  ◌==◌, ◌<>◌, if◌then◌else◌, is_some, or_else, ◌>>=◌, arith, eq_refl, Option-cases, Bool-cases,
}
use mathlib.Core.Option.{some-injective}
use mathlib.Core.List as L
use signalk_rs.Prelude.Assoc.{Map, lookup, insert, lookup-insert}
use signalk_rs.Server.{Result, ok, err, PluginError, not_found}

pub record ProviderEntry (P : Type 0) : Type 0 where
  pub provider : P
  pub plugin_name : String

pub record AutopilotManager (P : Type 0) : Type 0 where
  pub providers : Map (ProviderEntry P)
  pub default_id : Option String

abbrev is_empty {ℓ} : {A : Type ℓ} → List A → Bool
is_empty [] = true
is_empty (x ∷ xs) = false

module _ (P : Type 0) (device_id : P → String) where
  unfoldable pub new : AutopilotManager P
  new = record { providers = []; default_id = none }

  unfoldable pub register : AutopilotManager P → P → String → AutopilotManager P
  unfolding insert
  register m provider plugin_name = record {
    providers =
        insert (device_id provider) (record { provider = provider; plugin_name = plugin_name })
          m.providers;
    default_id = if is_empty m.providers then some (device_id provider) else m.default_id;
  }

  unfoldable pub get : AutopilotManager P → String → Option P
  unfolding lookup
  get m id = do e ← lookup id m.providers; some e.provider

  unfoldable get_default : AutopilotManager P → Option P
  unfolding get
  get_default m = do id ← m.default_id; get m id

  is_default : Option String → String → Bool
  is_default none id = false
  is_default (some d) id = d == id

  unfoldable pub list : AutopilotManager P → List (String × String × Bool)
  unfolding is_default
  list m = L.map (λ e. (e.0, e.1.plugin_name, is_default m.default_id e.0)) m.providers

  unfoldable pub set_default :
      AutopilotManager P → String → AutopilotManager P × Result Unit PluginError
  unfolding lookup
  set_default m id =
      if is_some (lookup id m.providers)
      then (record m { default_id = some id }, ok tt)
      else (m, err (not_found ("Autopilot device not found: " <> id)))

  unfoldable resolve_id : AutopilotManager P → String → Option String
  unfolding lookup
  resolve_id m id =
      if id == "_default"
      then m.default_id
      else if is_some (lookup id m.providers)
      then some id
      else none

  -- No provider and no default, or a default that is registered.
  abbrev pub IsUsable : AutopilotManager P → Type 0
  IsUsable m =
      ((m.providers ≡ []) × (m.default_id ≡ none))
      ⊎ ((id : String) × (p : P) × (m.default_id ≡ some id) × (get m id ≡ some p))

  pub data Call : Type 0 where
    registers : P → String → Call
    sets_default : String → Call

  abbrev pub call : AutopilotManager P → Call → AutopilotManager P
  call m (registers provider plugin_name) = register m provider plugin_name
  call m (sets_default id) = (set_default m id).0

  unfoldable pub run : AutopilotManager P → List Call → AutopilotManager P
  run m [] = m
  run m (c ∷ cs) = run (call m c) cs

  get-register :
      (m : AutopilotManager P) (provider : P) (plugin_name id : String)
      → get (register m provider plugin_name) id
        ≡ (if device_id provider == id then some provider else get m id)
  unfolding get register
  get-register m provider plugin_name id = ground (
    arith,
    lookup-insert (device_id provider) id
        (record { provider = provider; plugin_name = plugin_name }) m.providers,
  )

  -- The provider that is registered, and then the one that was there.
  get_some :
      (m : AutopilotManager P) (provider : P) (plugin_name id : String) (p : P)
      → get m id ≡ some p
      → (q : P) × (get (register m provider plugin_name) id ≡ some q)
  get_some m provider plugin_name id p e = elim (Bool-cases (device_id provider == id)) [
    | inl same ↦ (provider, get-register m provider plugin_name id ∙ rw same refl)
    | inr differ ↦ (p, get-register m provider plugin_name id ∙ rw differ e)
  ]

  register-IsUsable :
      (m : AutopilotManager P) (provider : P) (plugin_name : String)
      → IsUsable m
      → IsUsable (register m provider plugin_name)
  unfolding register get
  register-IsUsable m provider plugin_name (inl (no_providers, no_default)) = inr (
    device_id provider,
    provider,
    rw no_providers refl,
    get-register m provider plugin_name (device_id provider)
        ∙ rw (eq_refl (device_id provider)) refl,
  )
  register-IsUsable m provider plugin_name (inr (id, p, d, e)) =
      let (q, h) = get_some m provider plugin_name id p e in inr (id, q, ground (arith, d, e), h)

  set_default-IsUsable :
      (m : AutopilotManager P) (id : String) → IsUsable m → IsUsable (set_default m id).0
  unfolding set_default get
  set_default-IsUsable m id u = elim (Option-cases (lookup id m.providers)) [
    | inl gone ↦ rw gone u
    | inr (e, there) ↦ rw there (inr (id, e.provider, refl, rw there refl))
  ]

  run_keeps : (m : AutopilotManager P) (cs : List Call) → IsUsable m → IsUsable (run m cs)
  unfolding run
  run_keeps m [] u = u
  run_keeps m (registers provider plugin_name ∷ cs) u =
      run_keeps (register m provider plugin_name) cs (register-IsUsable m provider plugin_name u)
  run_keeps m (sets_default id ∷ cs) u =
      run_keeps (set_default m id).0 cs (set_default-IsUsable m id u)

  -- After any calls on a new manager there is either no provider and no default, or a default that
  -- names a registered provider.
  pub run-IsUsable : (cs : List Call) → IsUsable (run new cs)
  unfolding new
  run-IsUsable cs = run_keeps new cs (inl (refl, refl))

  -- With a usable default, an id that is resolved names a registered provider.
  get-resolve_id :
      (m : AutopilotManager P) (id target : String)
      → IsUsable m
      → resolve_id m id ≡ some target
      → (p : P) × (get m target ≡ some p)
  unfolding resolve_id get
  get-resolve_id m id target (inl (no_providers, no_default)) e =
      absurd (ground (arith, no_providers, no_default, e))
  get-resolve_id m id target (inr (d, p, default, there)) e = elim (Bool-cases (id == "_default")) [
    | inl by_default ↦
        let same : d ≡ target =
          some-injective d target (sym default ∙ ground (arith, by_default, e)) in
        (p, rw (sym same) there)
    | inr by_id ↦ elim (Option-cases (lookup id m.providers)) [
      | inl gone ↦ absurd (ground (arith, by_id, gone, e))
      | inr (x, found) ↦
          let same : id ≡ target = some-injective id target (ground (arith, by_id, found, e)) in
          (x.provider, rw (sym same) (rw found refl))
    ]
  ]

  -- Setting the default makes a registered provider the default, and an id that is not registered
  -- leaves the default as it was.
  get_default-set_default :
      (m : AutopilotManager P) (id : String)
      → get_default (set_default m id).0 ≡ or_else (get m id) (get_default m)
  unfolding get_default set_default get
  get_default-set_default m id = ground arith
