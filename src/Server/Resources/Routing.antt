-- ===== src/Server/Resources/Routing.antt =====
-- Where a request without a named provider goes: crates/signalk-server/src/resources/registry.rs.
use signalk_rs.Prelude.{
  ◌≡◌, refl, sym, ap, ◌∙◌, inl, inr, Bool, true, false, not, none, some, List, [], ◌∷◌, String,
  ◌==◌, if◌then◌else◌, is_some, retain, All, subst, arith, eq_iff, eq_refl, Bool-cases,
  Option-cases,
}
use mathlib.Core.Option.{map}
use signalk_rs.Prelude.Assoc.{Map, lookup, insert, remove, lookup-insert, lookup-remove}
use signalk_rs.Types.Json.{Json}
use signalk_rs.Server.{ok, err}
use signalk_rs.Server.Resources.{
  ResourceProvider, ResourceProviderRegistry, new, register, unregister, drop_plugin,
  set_default_provider, providers_of, get_active_provider_id, find_provider, missing, ask_found,
  default_provider, create,
}

module _ {P Q : String × String → Type 0} where
  All-retain :
      (f : String × String → Bool) (m : Map String)
      → ((x : String × String) → f x ≡ true → P x → Q x)
      → All P m
      → All Q (retain f m)
  All-retain f [] step h = tt
  All-retain f (x ∷ m) step h = elim (Bool-cases (f x)) [
    | inl e ↦ rw e (step x e h.0, All-retain f m step h.1)
    | inr n ↦ rw n (All-retain f m step h.1)
  ]

  All-remove :
      (k : String) (m : Map String)
      → ((x : String × String) → P x → Q x)
      → All P m
      → All Q (remove k m)
  unfolding remove
  All-remove k [] step h = tt
  All-remove k ((j, v) ∷ m) step h = elim (Bool-cases (j == k)) [
    | inl e ↦ rw e (All-remove k m step h.1)
    | inr n ↦ rw n (step (j, v) h.0, All-remove k m step h.1)
  ]

  All-step : (m : Map String) → ((x : String × String) → P x → Q x) → All P m → All Q m
  All-step [] step h = tt
  All-step (x ∷ m) step h = (step x h.0, All-step m step h.1)

module _ (P : String × String → Type 0) where
  All-insert : (k v : String) (m : Map String) → P (k, v) → All P m → All P (insert k v m)
  unfolding insert
  All-insert k v [] p h = (p, tt)
  All-insert k v ((j, w) ∷ m) p h = elim (Bool-cases (j == k)) [
    | inl e ↦ rw e (p, h.1)
    | inr n ↦ rw n (h.0, All-insert k v m p h.1)
  ]

  lookup-All : (k v : String) (m : Map String) → lookup k m ≡ some v → All P m → P (k, v)
  unfolding lookup
  lookup-All k v [] e h = absurd (cc)
  lookup-All k v ((j, w) ∷ m) e h = elim (Bool-cases (j == k)) [
    | inl same ↦
        let key : j ≡ k = (eq_iff j k).0 same in
        let value : w ≡ v = ground (arith, e, same) in
        subst (λ x. P (k, x)) value (subst (λ x. P (x, w)) key h.0)
    | inr differ ↦ lookup-All k v m (ground (arith, e, differ)) h.1
  ]

retain-differ :
    (id : String) (m : Map String)
    → All (λ x. (x.1 == id) ≡ false) (retain (λ x. not (x.1 == id)) m)
retain-differ id [] = tt
retain-differ id (x ∷ m) = elim (Bool-cases (x.1 == id)) [
  | inl same ↦ rw same (retain-differ id m)
  | inr differ ↦ rw differ (differ, retain-differ id m)
]

module _ (W : Type 0) where
  -- A default of a resource type is a plugin that provides the type, and not the file provider.
  abbrev IsProvided : ResourceProviderRegistry W → String × String → Type 0
  IsProvided r (resource_type, id) =
      ((id == "file-provider") ≡ false)
      × (is_some (lookup id (providers_of W r resource_type)) ≡ true)

  abbrev IsRouted : ResourceProviderRegistry W → Type 0
  IsRouted r = All (IsProvided r) r.default_create_provider

  providers_of-register :
      (r : ResourceProviderRegistry W) (t id : String) (p : ResourceProvider W) (t' : String)
      → providers_of W (register W r t id p) t'
        ≡ (if t == t' then insert id p (providers_of W r t) else providers_of W r t')
  unfolding register
  providers_of-register r t id p t' =
      ground (arith, lookup-insert t t' (insert id p (providers_of W r t)) r.providers)

  lookup-drop_plugin :
      (id t : String) (m : Map (Map (ResourceProvider W)))
      → lookup t (drop_plugin W id m) ≡ map (remove id) (lookup t m)
  unfolding drop_plugin lookup
  lookup-drop_plugin id t [] = refl
  lookup-drop_plugin id t ((k, list) ∷ m) = ground (arith, lookup-drop_plugin id t m)

  lookup-providers_of :
      (id t : String) (r : ResourceProviderRegistry W) (j : String)
      → lookup j (providers_of W (unregister W r id) t)
        ≡ (if id == j then none else lookup j (providers_of W r t))
  unfolding unregister lookup
  lookup-providers_of id t r j = elim (Option-cases (lookup t r.providers)) [
    | inl gone ↦ rw (lookup-drop_plugin id t r.providers, gone) (ground arith)
    | inr (list, there) ↦ rw (lookup-drop_plugin id t r.providers, there) (lookup-remove id j list)
  ]

  IsProvided-register :
      (r : ResourceProviderRegistry W) (t id : String) (p : ResourceProvider W)
      (x : String × String)
      → IsProvided r x
      → IsProvided (register W r t id p) x
  IsProvided-register r t id p (k, j) (plugin, there) = (
    plugin,
    ap (λ l. is_some (lookup j l)) (providers_of-register r t id p k) ∙ elim (Bool-cases (t == k)) [
      | inl same ↦
          let key : t ≡ k = (eq_iff t k).0 same in
          rw same (
            ground (
              arith,
              lookup-insert id j p (providers_of W r t),
              key,
              ap (providers_of W r) key,
              there,
            ))
      | inr differ ↦ rw differ there
    ],
  )

  unregister-IsRouted :
      (r : ResourceProviderRegistry W) (id : String) → IsRouted r → IsRouted (unregister W r id)
  unregister-IsRouted r id h =
      unfold unregister in
      All-retain {P = IsProvided r} (λ e. not (e.1 == id)) r.default_create_provider
        (λ x other given. (
          given.0,
          ground (
            arith,
            lookup-providers_of id x.0 r x.1,
            eq_iff id x.1,
            eq_iff x.1 id,
            other,
            given.1,
          ),
        ))
        h

  set_default_provider-IsRouted :
      (r : ResourceProviderRegistry W) (t id : String)
      → IsRouted r
      → IsRouted (set_default_provider W r t id).0
  unfolding set_default_provider
  set_default_provider-IsRouted r t id h = elim (Bool-cases (id == "file-provider")) [
    | inl file ↦ rw file (All-remove {P = IsProvided r} t r.default_create_provider (λ x p. p) h)
    | inr plugin ↦ elim (Bool-cases (is_some (lookup id (providers_of W r t)))) [
      | inl there ↦
          rw (plugin, there)
            (All-insert (IsProvided r) t id r.default_create_provider (plugin, there) h)
      | inr gone ↦ rw (plugin, gone) h
    ]
  ]

  pub data Call : Type 0 where
    registers : String → String → ResourceProvider W → Call
    unregisters : String → Call
    sets_default : String → String → Call

  abbrev pub call : ResourceProviderRegistry W → Call → ResourceProviderRegistry W
  call r (registers t id p) = register W r t id p
  call r (unregisters id) = unregister W r id
  call r (sets_default t id) = (set_default_provider W r t id).0

  unfoldable pub run : ResourceProviderRegistry W → List Call → ResourceProviderRegistry W
  run r [] = r
  run r (c ∷ cs) = run (call r c) cs

  run_keeps : (r : ResourceProviderRegistry W) (cs : List Call) → IsRouted r → IsRouted (run r cs)
  unfolding run
  run_keeps r [] h = h
  run_keeps r (registers t id p ∷ cs) h = run_keeps (register W r t id p) cs (
      unfold register in
      All-step {P = IsProvided r} r.default_create_provider (IsProvided-register r t id p) h)
  run_keeps r (unregisters id ∷ cs) h =
      run_keeps (unregister W r id) cs (unregister-IsRouted r id h)
  run_keeps r (sets_default t id ∷ cs) h =
      run_keeps (set_default_provider W r t id).0 cs (set_default_provider-IsRouted r t id h)

  create-IsRouted :
      (r : ResourceProviderRegistry W) (t : String) (value : Json) (w : W)
      → IsRouted r
      → create W r t value none w ≡ create W r t value (some (get_active_provider_id W r t)) w
  unfolding create get_active_provider_id find_provider ask_found
  create-IsRouted r t value w h = elim (Option-cases (lookup t r.default_create_provider)) [
    | inl none_set ↦
        let chosen : default_provider W r t ≡ r.file_provider =
          unfold default_provider in rw none_set refl in
        ap (λ p. p.create t value w) chosen ∙ rw none_set refl
    | inr (id, set) ↦
        let (plugin, there) = lookup-All (IsProvided r) t id r.default_create_provider set h in
        elim (Option-cases (lookup id (providers_of W r t))) [
          | inl gone ↦ absurd (ground (arith, gone, there))
          | inr (p, here) ↦
              let chosen : default_provider W r t ≡ p =
                unfold default_provider in rw (set, here) refl in
              let active : get_active_provider_id W r t ≡ id = rw set refl in
              let found : find_provider W r t id ≡ ok p = rw (plugin, here) refl in
              ap (λ q. q.create t value w) chosen
              ∙ sym (
                  ap (λ f. ask_found W f (λ q. q.create t value) w)
                    (ap (find_provider W r t) active ∙ found))
        ]
  ]

  -- After any registrations, removals and settings of a default, a resource that is created without
  -- naming a provider goes to the provider that is reported as the active one.
  pub create-run :
      (file_provider : ResourceProvider W) (cs : List Call) (t : String) (value : Json) (w : W)
      → let r = run (new W file_provider) cs in
        create W r t value none w ≡ create W r t value (some (get_active_provider_id W r t)) w
  create-run file_provider cs t value w =
      create-IsRouted (run (new W file_provider) cs) t value w
        (run_keeps (new W file_provider) cs (unfold new in tt))

  -- A plugin that was removed is found for no resource type and is the active provider of none,
  -- unless it has the file provider's name.
  pub unregister-find_provider :
      (r : ResourceProviderRegistry W) (t id : String)
      → (id == "file-provider") ≡ false
      → (find_provider W (unregister W r id) t id ≡ err (missing t id))
        × ((get_active_provider_id W (unregister W r id) t == id) ≡ false)
  unfolding find_provider get_active_provider_id
  unregister-find_provider r t id plugin = (
    rw plugin (rw (lookup-providers_of id t r id, eq_refl id) refl),
    elim (Option-cases (lookup t (unregister W r id).default_create_provider)) [
      | inl none_set ↦
          rw none_set (ground (arith, eq_iff id "file-provider", eq_iff "file-provider" id, plugin))
      | inr (j, set) ↦ rw set (
          lookup-All (λ x. (x.1 == id) ≡ false) t j (unregister W r id).default_create_provider set
            (unfold unregister in retain-differ id r.default_create_provider))
    ],
  )
