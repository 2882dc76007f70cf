-- ===== src/Store/Values/Stale.antt =====
-- A source that reports again after its own value has gone stale (crates/signalk-store/src/store.rs).
use signalk_rs.Prelude.{
  ℕ, ◌≡◌, ap, ◌∙◌, true, Option, none, some, [], ◌∷◌, String, eq_refl, arith, strip_prefix,
}
use signalk_rs.Types.Json.{Json}
use signalk_rs.Types.Delta.{Source, Timestamp, PathValue, Delta}
use signalk_rs.Types.Full.{SignalKValue, sk_value}
use signalk_rs.Store.{
  SignalKStore, apply_value, apply_values, apply_updates, apply_delta, make_source_ref,
  register_source, resolve_context, get_vessel_path, get_self_path, get_self_path_by_source,
  is_stale, evict_stale,
}
use signalk_rs.Store.Values.Winner.{
  arbitrate, winner_values, winner, apply_delta-winner, with_vessel,
}
use signalk_rs.Store.Values.Frame.{value_at-or_insert}
use signalk_rs.Store.Values.Sources.{
  source_value, source_value-evict_source, apply_value-multi_source, fan_out-multi_source, retained,
}

-- A delta that brings one value.
abbrev pub one_value : Option String → Source → Timestamp → PathValue → Delta
one_value context source timestamp pv = record {
  context = context;
  updates = record { source = source; timestamp = timestamp; values = pv ∷ [] } ∷ [];
}

module _ (s : SignalKStore) (ref : String) (timestamp now : Timestamp) (pv : PathValue)
    (current : SignalKValue) where
  apply_value-stale_self :
      get_self_path s pv.path ≡ some current
      → current.source ≡ ref
      → is_stale s.source_ttls now current ≡ true
      → source_value pv.path ref (apply_value s s.self_uri ref timestamp now pv).0.multi_source
        ≡ none
  unfolding evict_stale
  apply_value-stale_self active own stale =
      ap (source_value pv.path ref) (apply_value-multi_source s ref timestamp now pv)
      ∙ ground (
        arith,
        active,
        source_value-evict_source pv.path ref (retained s ref timestamp now pv) pv.path ref,
        eq_refl pv.path,
        eq_refl ref,
      )

-- When a source reports again after its own value, the active one at the path of the self vessel,
-- has outlived the source's TTL, the new value becomes the active one, but what is kept for that
-- source is removed right after it was written: the query by source finds nothing. The delta brings
-- this one value, and `clock 0 0` is the time of the check.
pub stale_refresh_forgotten :
    (display : Json → String) (s : SignalKStore) (clock : ℕ → ℕ → Timestamp)
    (context : Option String) (source : Source) (timestamp : Timestamp) (pv : PathValue)
    (current : SignalKValue)
    → strip_prefix (resolve_context s context) "vessels." ≡ some s.self_uri
    → get_self_path s pv.path ≡ some current
    → current.source ≡ make_source_ref display source
    → is_stale s.source_ttls (clock 0 0) current ≡ true
    → let t = apply_delta display s clock (one_value context source timestamp pv) in
      let ref = make_source_ref display source in
      (get_vessel_path t s.self_uri pv.path ≡ some (sk_value pv.value ref timestamp))
      × (get_self_path_by_source t pv.path ref ≡ none)
unfolding apply_delta get_self_path_by_source source_value winner winner_values arbitrate
    apply_updates apply_values register_source with_vessel
stale_refresh_forgotten display s clock context source timestamp pv current e active own stale =
    let ref = make_source_ref display source in
    let opened = with_vessel s s.self_uri in
    (
      apply_delta-winner display s clock (one_value context source timestamp pv) s.self_uri pv.path
            e
          ∙ ground (arith, eq_refl pv.path, active, stale),
      rw (e, apply_delta)
          (ap (source_value pv.path ref) (fan_out-multi_source _ context _)
            ∙ apply_value-stale_self (register_source opened ref source) ref timestamp (clock 0 0)
                pv current (value_at-or_insert s.vessels s.self_uri s.self_uri pv.path ∙ active) own
                stale),
    )
