-- ===== src/Server/Resources/Polling.antt =====
-- The providers asked one after the other: `get`, `update` and `delete` of
-- crates/signalk-server/src/resources/registry.rs.
use signalk_rs.Prelude.{◌≡◌, refl, ap, Bool, true, false, none, [], ◌∷◌, ◌++◌, String}
use signalk_rs.Prelude.Assoc.{Map}
use signalk_rs.Types.Json.{Json}
use signalk_rs.Server.{Result, PluginError}
use signalk_rs.Server.Resources.{
  ResourceProvider, ResourceProviderRegistry, providers_of, poll, is_found, is_done, get, update,
  delete,
}

module _ (W : Type 0) where
  -- Every provider of the list leaves the request to the next one, from a world to another.
  abbrev Passed :
      {A : Type 0}
      → (Result A PluginError → Bool)
      → (ResourceProvider W → W → W × Result A PluginError)
      → Map (ResourceProvider W)
      → W
      → W
      → Type 0
  Passed settles ask [] w w' = w ≡ w'
  Passed settles ask ((id, p) ∷ ps) w w' =
      (settles (ask p w).1 ≡ false) × Passed settles ask ps (ask p w).0 w'

  poll-first :
      {A : Type 0} (settles : Result A PluginError → Bool)
      (ask : ResourceProvider W → W → W × Result A PluginError)
      (before after : Map (ResourceProvider W)) (id : String) (p file_provider : ResourceProvider W)
      (w w' : W)
      → Passed settles ask before w w'
      → settles (ask p w').1 ≡ true
      → poll W settles ask (before ++ (id, p) ∷ after) file_provider w ≡ ask p w'
  unfolding poll
  poll-first settles ask [] after id p file_provider w w' passed here = rw passed (rw here refl)
  poll-first settles ask ((j, q) ∷ before) after id p file_provider w w' (left, passed) here =
      rw left (poll-first settles ask before after id p file_provider (ask q w).0 w' passed here)

  poll-fallback :
      {A : Type 0} (settles : Result A PluginError → Bool)
      (ask : ResourceProvider W → W → W × Result A PluginError) (ps : Map (ResourceProvider W))
      (file_provider : ResourceProvider W) (w w' : W)
      → Passed settles ask ps w w'
      → poll W settles ask ps file_provider w ≡ ask file_provider w'
  unfolding poll
  poll-fallback settles ask [] file_provider w w' passed = ap (ask file_provider) passed
  poll-fallback settles ask ((j, q) ∷ ps) file_provider w w' (left, passed) =
      rw left (poll-fallback settles ask ps file_provider (ask q w).0 w' passed)

  -- A resource is read from the first provider of its type that has it or fails, where all before it
  -- answer that they have none or that it is not found. The providers behind are not asked.
  get-first :
      (r : ResourceProviderRegistry W) (t id : String) (before after : Map (ResourceProvider W))
      (plugin_id : String) (p : ResourceProvider W) (w w' : W)
      → providers_of W r t ≡ before ++ (plugin_id, p) ∷ after
      → Passed (is_found) (λ q. q.get t id) before w w'
      → is_found (p.get t id w').1 ≡ true
      → get W r t id none w ≡ p.get t id w'
  unfolding get
  get-first r t id before after plugin_id p w w' shape passed here = rw shape (
      poll-first (is_found) (λ q. q.get t id) before after plugin_id p r.file_provider w w' passed
        here)

  -- An update is made by the first provider of the type that does not answer that the resource is
  -- not found; the providers behind are not asked.
  update-first :
      (r : ResourceProviderRegistry W) (t id : String) (value : Json)
      (before after : Map (ResourceProvider W)) (plugin_id : String) (p : ResourceProvider W)
      (w w' : W)
      → providers_of W r t ≡ before ++ (plugin_id, p) ∷ after
      → Passed (is_done) (λ q. q.update t id value) before w w'
      → is_done (p.update t id value w').1 ≡ true
      → update W r t id value none w ≡ p.update t id value w'
  unfolding update
  update-first r t id value before after plugin_id p w w' shape passed here = rw shape (
      poll-first (is_done) (λ q. q.update t id value) before after plugin_id p r.file_provider w w'
        passed here)

  -- Where every provider of the type answers that the resource is not found, the file provider is
  -- asked to delete it, and its answer is the result.
  delete-fallback :
      (r : ResourceProviderRegistry W) (t id : String) (w w' : W)
      → Passed (is_done) (λ q. q.delete t id) (providers_of W r t) w w'
      → delete W r t id none w ≡ r.file_provider.delete t id w'
  unfolding delete
  delete-fallback r t id w w' passed =
      poll-fallback (is_done) (λ q. q.delete t id) (providers_of W r t) r.file_provider w w' passed
