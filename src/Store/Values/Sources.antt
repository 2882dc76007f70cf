-- ===== src/Store/Values/Sources.antt =====
-- The values kept for each source of the self vessel: `multi_source` of
-- crates/signalk-store/src/store.rs.
use signalk_rs.Prelude.{
  ℕ, ◌+◌, ◌≡◌, refl, ap, ◌∙◌, inl, inr, ◌&&◌, Option, none, some, List, [], ◌∷◌, String, ◌==◌,
  eq_iff, eq_refl, if◌then◌else◌, unwrap_or, arith, strip_prefix, ◌>>=◌, subst, Option-cases,
}
use signalk_rs.Prelude.Assoc.{
  Map, lookup, insert, remove, lookup-insert, lookup-update, lookup-remove,
}
use signalk_rs.Types.Json.{Json}
use signalk_rs.Types.Delta.{Source, Timestamp, PathValue, Update, Delta}
use signalk_rs.Types.Full.{SignalKValue, sk_value}
use signalk_rs.Store.{
  SignalKStore, apply_value, apply_values, apply_updates, apply_delta, make_source_ref,
  register_source, resolve_context, get_vessel_path, get_self_path_by_source, fan_out,
  retain_source, evict_source, evict_stale, should_update, is_stale,
}
use signalk_rs.Store.Value.{apply_value-SameConfig}
use signalk_rs.Store.Values.Frame.{update_step, update_step-Kept, register_source-Kept}
use signalk_rs.Store.Values.Winner.{with_vessel}

-- `multi_source.get(path)?.get(ref)`.
unfoldable pub source_value : String → String → Map (Map SignalKValue) → Option SignalKValue
unfolding lookup
source_value path ref m = do sources ← lookup path m; lookup ref sources

source_value-retain_source :
    (path ref : String) (value : SignalKValue) (m : Map (Map SignalKValue)) (p r : String)
    → source_value p r (retain_source path ref value m)
      ≡ (if path == p && ref == r then some value else source_value p r m)
unfolding source_value retain_source
source_value-retain_source path ref value m p r = ground (
  arith,
  eq_iff path p,
  lookup-insert path p (insert ref value (unwrap_or (lookup path m) [])) m,
  lookup-insert ref r value (unwrap_or (lookup path m) []),
)

pub source_value-evict_source :
    (path evicted : String) (m : Map (Map SignalKValue)) (p r : String)
    → source_value p r (evict_source path (some evicted) m)
      ≡ (if path == p && evicted == r then none else source_value p r m)
unfolding source_value evict_source
source_value-evict_source path evicted m p r = elim (Option-cases (lookup p m)) [
  | inl e ↦ ground (arith, lookup-update path p (remove evicted) m)
  | inr (sources, e) ↦
      ground (arith, lookup-update path p (remove evicted) m, lookup-remove evicted r sources)
]

evict_stale-no_ttls :
    (now : Timestamp) (current : Option SignalKValue) → evict_stale [] now current ≡ none
unfolding evict_stale is_stale lookup
evict_stale-no_ttls now none = refl
evict_stale-no_ttls now (some current) = refl

-- `evict_source` does nothing where nothing is evicted, so it stands for both branches.
evict_source-should_update :
    (priorities ttls : Map ℕ) (ref path : String) (now : Timestamp) (current : Option SignalKValue)
    (m : Map (Map SignalKValue))
    → (if should_update priorities ref (evict_stale ttls now current) current
        then evict_source path (evict_stale ttls now current) m
        else m)
      ≡ evict_source path (evict_stale ttls now current) m
unfolding should_update evict_stale evict_source
evict_source-should_update priorities ttls ref path now none m = refl
evict_source-should_update priorities ttls ref path now (some current) m = ground arith

module _ (s : SignalKStore) (ref : String) (timestamp now : Timestamp) (pv : PathValue) where
  abbrev pub retained : Map (Map SignalKValue)
  retained = retain_source pv.path ref (sk_value pv.value ref timestamp) s.multi_source

  abbrev pub evicted : Option String
  evicted = evict_stale s.source_ttls now (get_vessel_path s s.self_uri pv.path)

  pub apply_value-multi_source :
      (apply_value s s.self_uri ref timestamp now pv).0.multi_source
      ≡ evict_source pv.path evicted retained
  unfolding apply_value
  apply_value-multi_source = ground (
    arith,
    eq_refl s.self_uri,
    evict_source-should_update s.source_priorities s.source_ttls ref pv.path now
        (get_vessel_path s s.self_uri pv.path) retained,
  )

  apply_value-source_value :
      (p r : String)
      → s.source_ttls ≡ []
      → source_value p r (apply_value s s.self_uri ref timestamp now pv).0.multi_source ≡ (
          if pv.path == p && ref == r
          then some (sk_value pv.value ref timestamp)
          else source_value p r s.multi_source)
  unfolding evict_source
  apply_value-source_value p r t =
      ap (source_value p r) (
        apply_value-multi_source
        ∙ ap (λ e. evict_source pv.path e retained)
            (ap (λ m. evict_stale m now (get_vessel_path s s.self_uri pv.path)) t
              ∙ evict_stale-no_ttls now (get_vessel_path s s.self_uri pv.path)))
      ∙ source_value-retain_source pv.path ref (sk_value pv.value ref timestamp) s.multi_source p r

-- The last value of one source for a path, or what was kept for it.
kept_values :
    String
    → String
    → String
    → Timestamp
    → List PathValue
    → Option SignalKValue
    → Option SignalKValue
kept_values path r ref timestamp [] kept = kept
kept_values path r ref timestamp (pv ∷ pvs) kept =
    kept_values path r ref timestamp pvs
      (if pv.path == path && ref == r then some (sk_value pv.value ref timestamp) else kept)

unfoldable kept_value :
    (Json → String) → String → String → List Update → Option SignalKValue → Option SignalKValue
unfolding kept_values
kept_value display path r [] kept = kept
kept_value display path r (u ∷ us) kept =
    kept_value display path r us
      (kept_values path r (make_source_ref display u.source) u.timestamp u.values kept)

apply_values-kept :
    (s : SignalKStore) (uri ref : String) (timestamp : Timestamp) (clock : ℕ → Timestamp)
    (pvs : List PathValue) (path r : String)
    → s.self_uri ≡ uri
    → s.source_ttls ≡ []
    → source_value path r (apply_values s uri ref timestamp clock pvs).0.multi_source
      ≡ kept_values path r ref timestamp pvs (source_value path r s.multi_source)
unfolding apply_values kept_values
apply_values-kept s uri ref timestamp clock [] path r own t = refl
apply_values-kept s uri ref timestamp clock (pv ∷ pvs) path r own t =
    let same = apply_value-SameConfig s uri ref timestamp (clock 0) pv in
    apply_values-kept (apply_value s uri ref timestamp (clock 0) pv).0 uri ref timestamp
      (λ i. clock (i + 1)) pvs path r (same.self_uri ∙ own) (same.ttls ∙ t)
    ∙ ap (kept_values path r ref timestamp pvs) (
        subst
          (λ v. source_value path r (apply_value s v ref timestamp (clock 0) pv).0.multi_source ≡ (
            if pv.path == path && ref == r
            then some (sk_value pv.value ref timestamp)
            else source_value path r s.multi_source))
          own (apply_value-source_value s ref timestamp (clock 0) pv path r t))

register_source-multi_source :
    (s : SignalKStore) (ref : String) (source : Source)
    → (register_source s ref source).multi_source ≡ s.multi_source
unfolding register_source
register_source-multi_source s ref source = refl

apply_updates-kept :
    (display : Json → String) (s : SignalKStore) (uri : String) (clock : ℕ → ℕ → Timestamp)
    (us : List Update) (path r : String)
    → s.self_uri ≡ uri
    → s.source_ttls ≡ []
    → source_value path r (apply_updates display s uri clock us).0.multi_source
      ≡ kept_value display path r us (source_value path r s.multi_source)
unfolding apply_updates kept_value update_step
apply_updates-kept display s uri clock [] path r own t = refl
apply_updates-kept display s uri clock (u ∷ us) path r own t =
    let ref = make_source_ref display u.source in
    let registered = register_source s ref u.source in
    let kept = update_step-Kept display uri s (clock 0) u in
    let same = register_source-Kept s ref u.source in
    apply_updates-kept display (update_step display uri s (clock 0) u) uri (λ i. clock (i + 1)) us
      path r (kept.self_uri ∙ own) (kept.ttls ∙ t)
    ∙ ap (kept_value display path r us) (
        apply_values-kept registered uri ref u.timestamp (clock 0) u.values path r
          (same.self_uri ∙ own) (same.ttls ∙ t)
        ∙ ap (λ m. kept_values path r ref u.timestamp u.values (source_value path r m))
            (register_source-multi_source s ref u.source))

pub fan_out-multi_source :
    (s : SignalKStore) (context : Option String) (us : List Update)
    → (fan_out s context us).multi_source ≡ s.multi_source
unfolding fan_out
fan_out-multi_source s context [] = refl
fan_out-multi_source s context (u ∷ us) = refl

-- With no TTLs configured no source's value is lost: after a delta for the self vessel, what is
-- kept for a source at a path is the last value that the delta brings from it, whether or not that
-- value became the active one, and what was kept where it brings none.
apply_delta-retains :
    (display : Json → String) (s : SignalKStore) (clock : ℕ → ℕ → Timestamp) (d : Delta)
    (path r : String)
    → strip_prefix (resolve_context s d.context) "vessels." ≡ some s.self_uri
    → s.source_ttls ≡ []
    → get_self_path_by_source (apply_delta display s clock d) path r
      ≡ kept_value display path r d.updates (get_self_path_by_source s path r)
unfolding apply_delta with_vessel get_self_path_by_source source_value
apply_delta-retains display s clock d path r e t =
    rw (e, apply_delta)
      (ap (source_value path r) (fan_out-multi_source _ d.context _)
        ∙ apply_updates-kept display (with_vessel s s.self_uri) s.self_uri clock d.updates path r
            refl t)
