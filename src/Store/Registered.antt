-- ===== src/Store/Registered.antt =====
-- The registry `sources` of crates/signalk-store/src/store.rs against the active values.
use signalk_rs.Prelude.{
  ℕ, ◌+◌, ◌≡◌, sym, ◌∙◌, true, Option, some, List, [], ◌∷◌, inl, inr, String, eq_refl, is_some,
  arith, strip_prefix, Option-cases,
}
use signalk_rs.Prelude.Assoc.{lookup, or_insert, insert, lookup-or_insert}
use signalk_rs.Types.Json.{Json}
use signalk_rs.Types.Delta.{Source, Timestamp, PathValue, Update, Delta}
use signalk_rs.Types.Full.{SignalKValue, sk_value, empty_vessel}
use signalk_rs.Store.{
  SignalKStore, new, apply_value, apply_values, apply_updates, apply_delta, make_source_ref,
  register_source, resolve_context, value_at, get_vessel_path, apply_vessel_delta, fan_out,
  set_self_path,
}
use signalk_rs.Store.Value.{
  HasVessel, apply_value-SameConfig, apply_value-HasVessel, apply_value-arbitrates,
  value_at-write_value,
}
use signalk_rs.Store.Values.Frame.{
  value_at-or_insert, register_source-vessels, update_step, update_step-HasVessel,
}
use signalk_rs.Store.Values.Winner.{with_vessel, with_vessel-HasVessel}

abbrev IsKnown : SignalKStore → String → Type 0
IsKnown s ref = is_some (lookup ref s.sources) ≡ true

abbrev IsRegistered : SignalKStore → Type 0
IsRegistered s =
    (uri path : String) (v : SignalKValue)
    → get_vessel_path s uri path ≡ some v
    → is_some (lookup v.source s.sources) ≡ true

apply_value-IsRegistered :
    (s : SignalKStore) (uri ref : String) (timestamp now : Timestamp) (pv : PathValue)
    → HasVessel s uri
    → IsKnown s ref
    → IsRegistered s
    → IsRegistered (apply_value s uri ref timestamp now pv).0
unfolding sk_value
apply_value-IsRegistered s uri ref timestamp now pv h known reg u p v e = ground (
  arith,
  apply_value-arbitrates s uri ref timestamp now pv u p h,
  apply_value-SameConfig s uri ref timestamp now pv,
  reg u p v,
)

apply_values-IsRegistered :
    (s : SignalKStore) (uri ref : String) (timestamp : Timestamp) (clock : ℕ → Timestamp)
    (pvs : List PathValue)
    → HasVessel s uri
    → IsKnown s ref
    → IsRegistered s
    → IsRegistered (apply_values s uri ref timestamp clock pvs).0
unfolding apply_values
apply_values-IsRegistered s uri ref timestamp clock [] h known reg = reg
apply_values-IsRegistered s uri ref timestamp clock (pv ∷ pvs) h known reg =
    apply_values-IsRegistered (apply_value s uri ref timestamp (clock 0) pv).0 uri ref timestamp
      (λ i. clock (i + 1)) pvs (apply_value-HasVessel s uri ref timestamp (clock 0) pv uri h)
      (rw (apply_value-SameConfig s uri ref timestamp (clock 0) pv).sources known)
      (apply_value-IsRegistered s uri ref timestamp (clock 0) pv h known reg)

register_source-IsRegistered :
    (s : SignalKStore) (ref : String) (source : Source)
    → IsRegistered s
    → IsRegistered (register_source s ref source)
unfolding register_source
register_source-IsRegistered s ref source reg u p v e =
    ground (arith, lookup-or_insert ref v.source source s.sources, reg u p v e)

register_source-IsKnown :
    (s : SignalKStore) (ref : String) (source : Source) → IsKnown (register_source s ref source) ref
unfolding register_source
register_source-IsKnown s ref source =
    ground (arith, lookup-or_insert ref ref source s.sources, eq_refl ref)

apply_updates-IsRegistered :
    (display : Json → String) (s : SignalKStore) (uri : String) (clock : ℕ → ℕ → Timestamp)
    (us : List Update)
    → HasVessel s uri
    → IsRegistered s
    → IsRegistered (apply_updates display s uri clock us).0
unfolding apply_updates update_step
apply_updates-IsRegistered display s uri clock [] h reg = reg
apply_updates-IsRegistered display s uri clock (u ∷ us) h reg =
    let ref = make_source_ref display u.source in
    apply_updates-IsRegistered display (update_step display uri s (clock 0) u) uri
      (λ i. clock (i + 1)) us (update_step-HasVessel display uri s (clock 0) u uri h)
      (apply_values-IsRegistered (register_source s ref u.source) uri ref u.timestamp (clock 0)
        u.values (rw (register_source-vessels s ref u.source) h)
        (register_source-IsKnown s ref u.source) (register_source-IsRegistered s ref u.source reg))

fan_out-IsRegistered :
    (s : SignalKStore) (context : Option String) (us : List Update)
    → IsRegistered s
    → IsRegistered (fan_out s context us)
unfolding fan_out
fan_out-IsRegistered s context [] reg = reg
fan_out-IsRegistered s context (u ∷ us) reg = reg

apply_vessel_delta-IsRegistered :
    (display : Json → String) (s : SignalKStore) (clock : ℕ → ℕ → Timestamp) (d : Delta)
    (uri : String)
    → IsRegistered s
    → IsRegistered (apply_vessel_delta display s uri clock d)
unfolding apply_vessel_delta with_vessel
apply_vessel_delta-IsRegistered display s clock d uri reg = fan_out-IsRegistered _ d.context _ (
    apply_updates-IsRegistered display (with_vessel s uri) uri clock d.updates
      (with_vessel-HasVessel s uri)
      (λ u p v e. reg u p v (sym (value_at-or_insert s.vessels uri u p) ∙ e)))

-- Every delta, for a vessel or not, keeps the registry complete: if the source of each active value
-- of each vessel is in `sources` before, it is after.
apply_delta-IsRegistered :
    (display : Json → String) (s : SignalKStore) (clock : ℕ → ℕ → Timestamp) (d : Delta)
    → IsRegistered s
    → IsRegistered (apply_delta display s clock d)
unfolding apply_delta
apply_delta-IsRegistered display s clock d reg =
    elim (Option-cases (strip_prefix (resolve_context s d.context) "vessels.")) [
      | inl e ↦ rw (e, apply_delta) reg
      | inr (uri, e) ↦
          rw (e, apply_delta) (apply_vessel_delta-IsRegistered display s clock d uri reg)
    ]

-- A new store has no active value.
new-IsRegistered : (self_uri : String) → IsRegistered (new self_uri)
unfolding new value_at lookup insert
new-IsRegistered self_uri u p v e = ground arith

-- So does a value that is set directly.
set_self_path-IsRegistered :
    (display : Json → String) (s : SignalKStore) (path : String) (value : Json) (source : Source)
    (now : Timestamp)
    → IsRegistered s
    → IsRegistered (set_self_path display s path value source now)
unfolding set_self_path sk_value with_vessel
set_self_path-IsRegistered display s path value source now reg u p v e =
    let ref = make_source_ref display source in
    ground (
      arith,
      value_at-write_value (or_insert s.self_uri empty_vessel s.vessels) s.self_uri path
          (sk_value value ref now) u p (with_vessel-HasVessel s s.self_uri),
      value_at-or_insert s.vessels s.self_uri u p,
      lookup-or_insert ref v.source source s.sources,
      lookup-or_insert ref ref source s.sources,
      eq_refl ref,
      reg u p v,
    )
