-- ===== src/Store/Model.antt =====
-- The full model against the store's own queries (crates/signalk-store/src/store.rs).
use signalk_rs.Prelude.{
  ◌≡◌, refl, ap, false, [], ◌∷◌, String, ◌==◌, if◌then◌else◌, or_else, arith, eq_iff, eq_refl, inl,
  inr, Option-cases,
}
use mathlib.Core.Option.{map}
use mathlib.Core.Path.{fun_ext}
use signalk_rs.Prelude.Assoc.{Map, lookup}
use signalk_rs.Types.Json.{Json}
use signalk_rs.Types.Delta.{Source}
use signalk_rs.Types.Full.{SignalKValue, VesselData}
use signalk_rs.Store.{SignalKStore, get_self_path, value_at}
use signalk_rs.Store.Query.{
  effective_metadata, get_self_path_multi_values, enrich_leaf, enrich_leaves, model_vessels,
  full_model,
}

-- The leaf as the other queries describe it.
abbrev pub described : SignalKStore → String → SignalKValue → SignalKValue
described s path sv = record sv {
  meta = or_else (effective_metadata s path) sv.meta;
  values = or_else (get_self_path_multi_values s path) sv.values;
}

enrich_leaf-described :
    (s : SignalKStore) (path : String) (sv : SignalKValue)
    → enrich_leaf s path sv ≡ described s path sv
unfolding enrich_leaf effective_metadata get_self_path_multi_values
enrich_leaf-described s path sv = ground arith

lookup-enrich_leaves :
    (s : SignalKStore) (path : String) (m : Map SignalKValue)
    → lookup path (enrich_leaves s m) ≡ map (enrich_leaf s path) (lookup path m)
unfolding lookup enrich_leaves
lookup-enrich_leaves s path [] = refl
lookup-enrich_leaves s path ((p, sv) ∷ m) =
    ground (arith, eq_iff p path, lookup-enrich_leaves s path m)

lookup-model_vessels :
    (s : SignalKStore) (uri : String) (m : Map VesselData)
    → lookup uri (model_vessels s m)
      ≡ map
          (λ v. if uri == s.self_uri then record v { values = enrich_leaves s v.values } else v)
          (lookup uri m)
unfolding lookup model_vessels
lookup-model_vessels s uri [] = refl
lookup-model_vessels s uri ((u, v) ∷ m) = ground (arith, eq_iff u uri, lookup-model_vessels s uri m)

-- In the full model, a leaf of the self vessel is the active value with the metadata in effect for
-- the path and, where two or more sources gave a value, the values of all of them.
full_model_self :
    (to_value : Source → Json) (s : SignalKStore) (path : String)
    → value_at s.self_uri path (full_model to_value s).vessels
      ≡ map (described s path) (get_self_path s path)
unfolding full_model value_at
full_model_self to_value s path =
    let listed = lookup-model_vessels s s.self_uri s.vessels in
    elim (Option-cases (lookup s.self_uri s.vessels)) [
      | inl e ↦ ground (arith, listed)
      | inr (v, e) ↦ ground (
        arith,
        listed,
        eq_refl s.self_uri,
        lookup-enrich_leaves s path v.values,
        ap (λ f. map f (lookup path v.values)) (fun_ext (enrich_leaf-described s path)),
      )
    ]

-- Another vessel stands in the full model as it is stored.
full_model-other :
    (to_value : Source → Json) (s : SignalKStore) (uri : String)
    → (uri == s.self_uri) ≡ false
    → lookup uri (full_model to_value s).vessels ≡ lookup uri s.vessels
unfolding full_model
full_model-other to_value s uri ne = ground (arith, lookup-model_vessels s uri s.vessels)
