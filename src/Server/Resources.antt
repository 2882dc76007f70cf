-- ===== src/Server/Resources.antt =====
-- crates/signalk-server/src/resources/registry.rs: which provider a request for a resource goes to.
-- A provider acts on a world `W` that all of them share (files, databases, the network).
pub mod Routing
pub mod Polling
pub mod Merge
use signalk_rs.Prelude.{
  ℕ, ◌-◌, Bool, true, false, not, Option, none, some, List, [], ◌∷◌, ◌++◌, String, ◌==◌, ◌<>◌,
  if◌then◌else◌, is_some, unwrap_or, ltb, length, retain, skip, ◌>>=◌,
}
use mathlib.Core.List as L
use signalk_rs.Prelude.Assoc.{Map, lookup, insert, remove}
use signalk_rs.Types.Json.{Json, F64, Fields, end, field, get_field, set_field}
use signalk_rs.Server.{Result, ok, err, PluginError, not_found, is_not_found}

-- `ResourceQueryParams` of crates/signalk-types/src/v2.rs.
pub record ResourceQueryParams : Type 0 where
  pub distance : Option F64
  pub limit : Option ℕ
  pub bbox : Option String
  pub provider : Option String

-- The trait of crates/signalk-plugin-api/src/resources.rs.
pub record ResourceProvider (W : Type 0) : Type 0 where
  pub list : String → ResourceQueryParams → W → W × Result Json PluginError
  pub get : String → String → W → W × Result (Option Json) PluginError
  pub create : String → Json → W → W × Result String PluginError
  pub update : String → String → Json → W → W × Result Unit PluginError
  pub delete : String → String → W → W × Result Unit PluginError

-- A list of providers is a map by plugin: `register` keeps one entry for each.
pub record ResourceProviderRegistry (W : Type 0) : Type 0 where
  pub providers : Map (Map (ResourceProvider W))
  pub default_create_provider : Map String
  pub file_provider : ResourceProvider W

-- `merged.entry(k).or_insert(v)` for every entry of a map.
unfoldable pub add_missing : Fields → Fields → Fields
unfolding get_field set_field
add_missing merged end = merged
add_missing merged (field k v fs) =
    add_missing (if is_some (get_field k merged) then merged else set_field k v merged) fs

unfoldable remove_field : String → Fields → Fields
remove_field k end = end
remove_field k (field j v fs) =
    let rest = remove_field k fs in if j == k then rest else field j v rest

unfoldable remove_fields : List String → Fields → Fields
unfolding remove_field
remove_fields [] fs = fs
remove_fields (k ∷ ks) fs = remove_fields ks (remove_field k fs)

unfoldable pub missing : String → String → PluginError
missing resource_type plugin_id =
    not_found ("Provider '" <> plugin_id <> "' not registered for '" <> resource_type <> "'")

-- For `get`: a resource, or an error other than not found.
unfoldable pub is_found : Result (Option Json) PluginError → Bool
unfolding is_not_found
is_found (ok none) = false
is_found (ok (some v)) = true
is_found (err e) = not (is_not_found e)

-- For `update` and `delete`: success, or an error other than not found.
unfoldable pub is_done : Result Unit PluginError → Bool
unfolding is_not_found
is_done (ok u) = true
is_done (err e) = not (is_not_found e)

-- The entries that a listing adds; what is no object, or an error, adds nothing.
unfoldable pub merge_answer : Fields → Result Json PluginError → Fields
unfolding add_missing
merge_answer merged (ok (Json.object map)) = add_missing merged map
merge_answer merged _ = merged

module _ (W : Type 0) where
  unfoldable pub new : ResourceProvider W → ResourceProviderRegistry W
  new file_provider = record {
    providers = [];
    default_create_provider = [];
    file_provider = file_provider;
  }

  -- The providers of a resource type.
  abbrev pub providers_of : ResourceProviderRegistry W → String → Map (ResourceProvider W)
  providers_of r resource_type = unwrap_or (lookup resource_type r.providers) []

  unfoldable pub register :
      ResourceProviderRegistry W → String → String → ResourceProvider W → ResourceProviderRegistry W
  unfolding lookup insert
  register r resource_type plugin_id provider = record r {
    providers =
        insert resource_type (insert plugin_id provider (providers_of r resource_type)) r.providers;
  }

  unfoldable pub drop_plugin :
      String → Map (Map (ResourceProvider W)) → Map (Map (ResourceProvider W))
  unfolding remove
  drop_plugin plugin_id [] = []
  drop_plugin plugin_id ((resource_type, list) ∷ m) =
      (resource_type, remove plugin_id list) ∷ drop_plugin plugin_id m

  unfoldable pub unregister : ResourceProviderRegistry W → String → ResourceProviderRegistry W
  unfolding drop_plugin
  unregister r plugin_id = record r {
    providers = drop_plugin plugin_id r.providers;
    default_create_provider = retain (λ e. not (e.1 == plugin_id)) r.default_create_provider;
  }

  unfoldable pub set_default_provider :
      ResourceProviderRegistry W
      → String
      → String
      → ResourceProviderRegistry W × Result Unit PluginError
  unfolding lookup insert remove missing
  set_default_provider r resource_type plugin_id =
      if plugin_id == "file-provider"
      then (
        record r { default_create_provider = remove resource_type r.default_create_provider },
        ok tt,
      )
      else if is_some (lookup plugin_id (providers_of r resource_type))
      then (
        record r {
          default_create_provider = insert resource_type plugin_id r.default_create_provider;
        },
        ok tt,
      )
      else (r, err (missing resource_type plugin_id))

  unfoldable list_provider_ids : ResourceProviderRegistry W → String → List String
  unfolding lookup
  list_provider_ids r resource_type =
      L.map (λ e. e.0) (providers_of r resource_type) ++ "file-provider" ∷ []

  unfoldable pub get_active_provider_id : ResourceProviderRegistry W → String → String
  unfolding lookup
  get_active_provider_id r resource_type =
      unwrap_or (lookup resource_type r.default_create_provider) "file-provider"

  unfoldable pub find_provider :
      ResourceProviderRegistry W → String → String → Result (ResourceProvider W) PluginError
  unfolding lookup missing
  find_provider r resource_type plugin_id =
      if plugin_id == "file-provider"
      then ok r.file_provider
      else elim (lookup plugin_id (providers_of r resource_type)) [
        | some p ↦ ok p
        | none ↦ err (missing resource_type plugin_id)
      ]

  -- A request to one provider, where it was found.
  unfoldable pub ask_found :
      {A : Type 0}
      → Result (ResourceProvider W) PluginError
      → (ResourceProvider W → W → W × Result A PluginError)
      → W
      → W × Result A PluginError
  ask_found (ok p) ask w = ask p w
  ask_found (err e) ask w = (w, err e)

  -- The loop over the providers: the first answer that settles the request, or the last resort's.
  unfoldable pub poll :
      {A : Type 0}
      → (Result A PluginError → Bool)
      → (ResourceProvider W → W → W × Result A PluginError)
      → Map (ResourceProvider W)
      → ResourceProvider W
      → W
      → W × Result A PluginError
  poll settles ask [] file_provider w = ask file_provider w
  poll settles ask ((id, p) ∷ ps) file_provider w =
      let (w', answer) = ask p w in
      let rest = poll settles ask ps file_provider w' in
      if settles answer then (w', answer) else rest

  unfoldable pub get :
      ResourceProviderRegistry W
      → String
      → String
      → Option String
      → W
      → W × Result (Option Json) PluginError
  unfolding ask_found find_provider poll is_found lookup
  get r resource_type id (some target) w =
      ask_found (find_provider r resource_type target) (λ p. p.get resource_type id) w
  get r resource_type id none w =
      poll is_found (λ p. p.get resource_type id) (providers_of r resource_type) r.file_provider w

  -- The configured default provider, or the file provider.
  unfoldable pub default_provider : ResourceProviderRegistry W → String → ResourceProvider W
  unfolding lookup
  default_provider r resource_type =
      unwrap_or
        (lookup resource_type r.default_create_provider >>= λ default_id.
          lookup default_id (providers_of r resource_type))
        r.file_provider

  unfoldable pub create :
      ResourceProviderRegistry W → String → Json → Option String → W → W × Result String PluginError
  unfolding ask_found find_provider default_provider
  create r resource_type value (some target) w =
      ask_found (find_provider r resource_type target) (λ p. p.create resource_type value) w
  create r resource_type value none w =
      (default_provider r resource_type).create resource_type value w

  unfoldable pub update :
      ResourceProviderRegistry W
      → String
      → String
      → Json
      → Option String
      → W
      → W × Result Unit PluginError
  unfolding ask_found find_provider poll is_done lookup
  update r resource_type id value (some target) w =
      ask_found (find_provider r resource_type target) (λ p. p.update resource_type id value) w
  update r resource_type id value none w =
      poll is_done (λ p. p.update resource_type id value) (providers_of r resource_type)
        r.file_provider w

  unfoldable pub delete :
      ResourceProviderRegistry W → String → String → Option String → W → W × Result Unit PluginError
  unfolding ask_found find_provider poll is_done lookup
  delete r resource_type id (some target) w =
      ask_found (find_provider r resource_type target) (λ p. p.delete resource_type id) w
  delete r resource_type id none w =
      poll is_done (λ p. p.delete resource_type id) (providers_of r resource_type) r.file_provider w

  unfoldable pub list_all :
      String
      → ResourceQueryParams
      → Map (ResourceProvider W)
      → ResourceProvider W
      → Fields
      → W
      → W × Fields
  unfolding merge_answer
  list_all resource_type query [] file_provider merged w =
      let (w', answer) = file_provider.list resource_type query w in
      (w', merge_answer merged answer)
  list_all resource_type query ((id, p) ∷ ps) file_provider merged w =
      let (w', answer) = p.list resource_type query w in
      list_all resource_type query ps file_provider (merge_answer merged answer) w'

  -- `keys` gives the keys of a map in the order of its iteration.
  module _ (keys : Fields → List String) where
    unfoldable pub limited : Option ℕ → Fields → Fields
    unfolding remove_fields
    limited none merged = merged
    limited (some limit) merged =
        if ltb limit (length (keys merged))
        then remove_fields (skip limit (keys merged)) merged
        else merged

    unfoldable pub list_from :
        ResourceProviderRegistry W
        → String
        → ResourceQueryParams
        → Option String
        → W
        → W × Result Json PluginError
    unfolding ask_found find_provider list_all limited lookup
    list_from r resource_type query (some target) w =
        ask_found (find_provider r resource_type target) (λ p. p.list resource_type query) w
    list_from r resource_type query none w =
        let (w', merged) =
          list_all resource_type query (providers_of r resource_type) r.file_provider end w in
        (w', ok (Json.object (limited query.limit merged)))

    unfoldable pub list :
        ResourceProviderRegistry W → String → ResourceQueryParams → W → W × Result Json PluginError
    unfolding list_from
    list r resource_type query w = list_from r resource_type query query.provider w
