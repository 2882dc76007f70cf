-- ===== src/Store/Query.antt =====
-- The queries of crates/signalk-store/src/store.rs: the metadata in effect, the values by source, the
-- full model.
use Prim.Native.Char.{code}
use Prim.Native.String as S
use signalk_rs.Prelude.{
  ℕ, Option, none, some, [], ◌∷◌, String, ◌==◌, ltb, leb, if◌then◌else◌, ◌>>=◌, or_else, unwrap_or,
  length, starts_with, retain, ◌<>◌, eqb,
}
use signalk_rs.Prelude.Assoc.{Map, lookup, insert}
use signalk_rs.Types.Json.{Json, Fields, get_field, set_field}
use signalk_rs.Types.Delta.{Source}
use signalk_rs.Types.Meta.{Metadata, default_metadata}
use signalk_rs.Types.Path.{matches_pattern}
use signalk_rs.Types.Full.{SignalKValue, SourceValue, VesselData, FullModel}
use signalk_rs.Store.{SignalKStore}

unfoldable set_metadata : SignalKStore → String → Metadata → SignalKStore
unfolding insert
set_metadata s path meta = record s { metadata = insert path meta s.metadata }

unfoldable get_metadata : SignalKStore → String → Option Metadata
unfolding lookup
get_metadata s path = lookup path s.metadata

-- Explicit metadata first, then the defaults.
unfoldable pub effective_metadata : SignalKStore → String → Option Metadata
unfolding lookup
effective_metadata s path = or_else (lookup path s.metadata) (default_metadata path)

unfoldable source_value_of : SignalKValue → SourceValue
source_value_of v = record { value = v.value; timestamp = v.timestamp }

-- `.map(|(r, v)| (r, SourceValue { .. })).collect()`.
unfoldable to_source_values : Map SignalKValue → Map SourceValue
unfolding source_value_of
to_source_values [] = []
to_source_values ((r, v) ∷ m) = (r, source_value_of v) ∷ to_source_values m

-- The values of all sources of a path, where there are two or more.
unfoldable pub get_self_path_multi_values : SignalKStore → String → Option (Map SourceValue)
unfolding lookup to_source_values
get_self_path_multi_values s path = do
  source_map ← lookup path s.multi_source
  if leb (length source_map) 1 then none else some (to_source_values source_map)

unfoldable get_self_path_sources : SignalKStore → String → Option (Map SignalKValue)
unfolding lookup
get_self_path_sources s path = do
  sources ← lookup path s.multi_source
  elim sources [ [] ↦ none | e ∷ es ↦ some (e ∷ es) ]

unfoldable self_values : SignalKStore → Map SignalKValue
unfolding lookup
self_values s = elim (lookup s.self_uri s.vessels) [ none ↦ [] | some v ↦ v.values ]

unfoldable get_self_matching : SignalKStore → String → Map SignalKValue
unfolding self_values
get_self_matching s pattern = retain (λ e. matches_pattern pattern e.0) (self_values s)

unfoldable pub notifications : SignalKStore → Map SignalKValue
unfolding self_values
notifications s = retain (λ e. starts_with e.0 "notifications.") (self_values s)

unfoldable self_path_count : SignalKStore → ℕ
unfolding lookup
self_path_count s = unwrap_or (do v ← lookup s.self_uri s.vessels; some (length v.values)) 0

-- One leaf of the self vessel in the full model: metadata, and the values of all sources where
-- there are two or more.
unfoldable pub enrich_leaf : SignalKStore → String → SignalKValue → SignalKValue
unfolding lookup to_source_values
enrich_leaf s path sv =
    let described = record sv {
      meta = or_else (lookup path s.metadata) (or_else (default_metadata path) sv.meta);
    } in
    elim (lookup path s.multi_source) [
      | none ↦ described
      | some source_map ↦
          if ltb 1 (length source_map)
          then record described { values = some (to_source_values source_map) }
          else described
    ]

unfoldable pub enrich_leaves : SignalKStore → Map SignalKValue → Map SignalKValue
unfolding enrich_leaf
enrich_leaves s [] = []
enrich_leaves s ((path, sv) ∷ m) = (path, enrich_leaf s path sv) ∷ enrich_leaves s m

-- The loop over the vessels: only the self vessel is enriched.
unfoldable pub model_vessels : SignalKStore → Map VesselData → Map VesselData
unfolding enrich_leaves
model_vessels s [] = []
model_vessels s ((uri, vessel) ∷ m) =
    (
      uri,
      if uri == s.self_uri
          then record vessel { values = enrich_leaves s vessel.values }
          else vessel,
    )
    ∷ model_vessels s m

-- The text in front of the first dot and the text behind it.
split_dot : String → Option (String × String)
split_dot S.[] = none
split_dot (S.◌∷◌ c t) =
    let rest = split_dot t in
    if eqb (code c) b'.' then some ("", t) else do (l, r) ← rest; some (S.◌∷◌ c l, r)

-- An entry with a suffix goes below its label, where that is free or an object.
nest : String → String → Json → Fields → Fields
unfolding get_field set_field
nest label suffix json root = elim (get_field label root) [
  | none ↦ set_field label (Json.object (Fields.field suffix json Fields.end)) root
  | some (Json.object m) ↦ set_field label (Json.object (set_field suffix json m)) root
  | some _ ↦ root
]

-- `to_value` is `serde_json::to_value` of a source.
hierarchy : (Source → Json) → Map Source → Fields → Fields
unfolding split_dot nest set_field
hierarchy to_value [] root = root
hierarchy to_value ((ref, source) ∷ m) root = hierarchy to_value m (elim (split_dot ref) [
  | none ↦ set_field ref (to_value source) root
  | some (label, suffix) ↦ nest label suffix (to_value source) root
])

unfoldable build_sources_hierarchy : (Source → Json) → Map Source → Json
unfolding hierarchy
build_sources_hierarchy to_value sources = Json.object (hierarchy to_value sources Fields.end)

unfoldable pub full_model : (Source → Json) → SignalKStore → FullModel
unfolding model_vessels build_sources_hierarchy
full_model to_value s = record {
  version = "1.7.0";
  self_uri = "vessels." <> s.self_uri;
  vessels = model_vessels s s.vessels;
  sources = build_sources_hierarchy to_value s.sources;
}
