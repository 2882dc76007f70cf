-- ===== src/Server/Resources/Merge.antt =====
-- The listing of all providers: `list` of crates/signalk-server/src/resources/registry.rs.
use signalk_rs.Prelude.{
  ◌≡◌, refl, ap, ◌∙◌, Option, none, some, List, [], ◌∷◌, String, ◌==◌, if◌then◌else◌, is_some,
  or_else, arith, eq_iff,
}
use signalk_rs.Prelude.Assoc.{Map}
use signalk_rs.Types.Json.{Json, Fields, end, field, get_field, set_field}
use signalk_rs.Server.{Result, ok, err, PluginError}
use signalk_rs.Server.Resources.{
  ResourceProvider, ResourceProviderRegistry, ResourceQueryParams, providers_of, add_missing,
  merge_answer, list_all, limited, list_from, list,
}

get_field-set_field :
    (j k : String) (v : Json) (fs : Fields)
    → get_field k (set_field j v fs) ≡ (if j == k then some v else get_field k fs)
unfolding get_field set_field
get_field-set_field j k v end = refl
get_field-set_field j k v (field i w fs) =
    ground (arith, get_field-set_field j k v fs, eq_iff i j, eq_iff i k, eq_iff j k)

get_field-add_missing :
    (k : String) (merged fs : Fields)
    → get_field k (add_missing merged fs) ≡ or_else (get_field k merged) (get_field k fs)
unfolding add_missing get_field
get_field-add_missing k merged end = ground arith
get_field-add_missing k merged (field j v fs) = ground (
  arith,
  get_field-add_missing k (if is_some (get_field j merged) then merged else set_field j v merged)
      fs,
  get_field-set_field j k v merged,
  eq_iff j k,
)

-- The entries of an answer.
unfoldable entries_of : Result Json PluginError → Fields
entries_of (ok (Json.object entries)) = entries
entries_of _ = end

-- The entry of a key in the first answer that has one.
unfoldable first_found : String → List (Result Json PluginError) → Option Json
unfolding get_field entries_of
first_found k [] = none
first_found k (answer ∷ answers) = or_else (get_field k (entries_of answer)) (first_found k answers)

get_field-merge_answer :
    (k : String) (merged : Fields) (answer : Result Json PluginError)
    → get_field k (merge_answer merged answer)
      ≡ or_else (get_field k merged) (get_field k (entries_of answer))
unfolding merge_answer entries_of get_field
get_field-merge_answer k merged (ok (Json.object added)) = get_field-add_missing k merged added
get_field-merge_answer k merged (ok Json.null) = ground arith
get_field-merge_answer k merged (ok (Json.bool b)) = ground arith
get_field-merge_answer k merged (ok (Json.number n)) = ground arith
get_field-merge_answer k merged (ok (Json.string s)) = ground arith
get_field-merge_answer k merged (ok (Json.array xs)) = ground arith
get_field-merge_answer k merged (err e) = ground arith

module _ (W : Type 0) where
  -- What the providers answer, one after the other, and then the file provider.
  unfoldable answers :
      String
      → ResourceQueryParams
      → Map (ResourceProvider W)
      → ResourceProvider W
      → W
      → List (Result Json PluginError)
  answers t query [] file_provider w = (file_provider.list t query w).1 ∷ []
  answers t query ((id, p) ∷ ps) file_provider w =
      (p.list t query w).1 ∷ answers t query ps file_provider (p.list t query w).0

  get_field-list_all :
      (k t : String) (query : ResourceQueryParams) (ps : Map (ResourceProvider W))
      (file_provider : ResourceProvider W) (merged : Fields) (w : W)
      → get_field k (list_all W t query ps file_provider merged w).1
        ≡ or_else (get_field k merged) (first_found k (answers t query ps file_provider w))
  unfolding list_all answers first_found
  get_field-list_all k t query [] file_provider merged w =
      ground (arith, get_field-merge_answer k merged (file_provider.list t query w).1)
  get_field-list_all k t query ((id, p) ∷ ps) file_provider merged w = ground (
    arith,
    get_field-list_all k t query ps file_provider (merge_answer merged (p.list t query w).1)
        (p.list t query w).0,
    get_field-merge_answer k merged (p.list t query w).1,
  )

  -- A listing that names no provider and has no limit holds, for every id, what the first provider
  -- that lists this id gives for it, the file provider being the last. A provider that fails or
  -- answers no object takes nothing from the others.
  list-first :
      (keys : Fields → List String) (r : ResourceProviderRegistry W) (t : String)
      (query : ResourceQueryParams) (w : W) (k : String)
      → query.provider ≡ none
      → query.limit ≡ none
      → get_field k (entries_of (list W keys r t query w).1)
        ≡ first_found k (answers t query (providers_of W r t) r.file_provider w)
  unfolding list list_from limited entries_of get_field
  list-first keys r t query w k no_target no_limit =
      let merged = (list_all W t query (providers_of W r t) r.file_provider end w).1 in
      ap (λ o. get_field k (entries_of (list_from W keys r t query o w).1)) no_target
      ∙ (ap (λ o. get_field k (limited W keys o merged)) no_limit
          ∙ get_field-list_all k t query (providers_of W r t) r.file_provider end w)
