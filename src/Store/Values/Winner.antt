-- ===== src/Store/Values/Winner.antt =====
-- The active values after a delta: at each path, arbitration over the values for that path in the
-- order of their arrival.
use signalk_rs.Prelude.{
  ℕ, ◌+◌, ◌≡◌, refl, ap, ◌∙◌, false, ◌||◌, Option, none, some, List, [], ◌∷◌, String, ◌==◌, eq_iff,
  eq_refl, leb, if◌then◌else◌, arith, strip_prefix,
}
use signalk_rs.Prelude.Assoc.{Map, or_insert, lookup-or_insert}
use signalk_rs.Types.Json.{Json}
use signalk_rs.Types.Delta.{Timestamp, PathValue, Update, Delta}
use signalk_rs.Types.Full.{SignalKValue, sk_value, empty_vessel}
use signalk_rs.Store.{
  SignalKStore, apply_value, apply_values, register_source, apply_updates, apply_delta,
  make_source_ref, fan_out, resolve_context, value_at, get_vessel_path, evict_stale, should_update,
  is_stale, priority,
}
use signalk_rs.Store.Values.Frame.{
  value_at-or_insert, register_source-Kept, register_source-vessels, update_step, update_step-Kept,
  update_step-HasVessel, apply_updates-other,
}
use signalk_rs.Store.Value.{
  HasVessel, takes, apply_value-SameConfig, apply_value-HasVessel, apply_value-arbitrates,
}

module _ (priorities ttls : Map ℕ) where
  -- Two values for one path: the newcomer wins over nothing, over a stale value, and over a value
  -- whose source has no better priority.
  unfoldable pub arbitrate : String → Timestamp → SignalKValue → Option SignalKValue → SignalKValue
  arbitrate ref now new none = new
  arbitrate ref now new (some current) =
      if is_stale ttls now current
        || leb (priority priorities ref) (priority priorities current.source)
      then new
      else current

  unfoldable pub winner_values :
      String
      → String
      → Timestamp
      → (ℕ → Timestamp)
      → List PathValue
      → Option SignalKValue
      → Option SignalKValue
  unfolding arbitrate
  winner_values path ref timestamp clock [] current = current
  winner_values path ref timestamp clock (pv ∷ pvs) current =
      winner_values path ref timestamp (λ i. clock (i + 1)) pvs
        (if pv.path == path
          then some (arbitrate ref (clock 0) (sk_value pv.value ref timestamp) current)
          else current)

  unfoldable pub winner :
      (Json → String)
      → String
      → (ℕ → ℕ → Timestamp)
      → List Update
      → Option SignalKValue
      → Option SignalKValue
  unfolding winner_values
  winner display path clock [] current = current
  winner display path clock (u ∷ us) current =
      winner display path (λ i. clock (i + 1)) us
        (winner_values path (make_source_ref display u.source) u.timestamp (clock 0) u.values
          current)

  apply_value-winner :
      (s : SignalKStore) (uri ref : String) (timestamp now : Timestamp) (pv : PathValue)
      (path : String)
      → HasVessel s uri
      → s.source_priorities ≡ priorities
      → s.source_ttls ≡ ttls
      → get_vessel_path (apply_value s uri ref timestamp now pv).0 uri path ≡ (
          if pv.path == path
          then some
              (arbitrate ref now (sk_value pv.value ref timestamp) (get_vessel_path s uri path))
          else get_vessel_path s uri path)
  unfolding arbitrate takes should_update evict_stale
  apply_value-winner s uri ref timestamp now pv path h p t = ground (
    arith,
    apply_value-arbitrates s uri ref timestamp now pv uri path h,
    eq_iff pv.path path,
    eq_refl uri,
  )

  apply_values-winner :
      (s : SignalKStore) (uri ref : String) (timestamp : Timestamp) (clock : ℕ → Timestamp)
      (pvs : List PathValue) (path : String)
      → HasVessel s uri
      → s.source_priorities ≡ priorities
      → s.source_ttls ≡ ttls
      → get_vessel_path (apply_values s uri ref timestamp clock pvs).0 uri path
        ≡ winner_values path ref timestamp clock pvs (get_vessel_path s uri path)
  unfolding apply_values winner_values
  apply_values-winner s uri ref timestamp clock [] path h p t = refl
  apply_values-winner s uri ref timestamp clock (pv ∷ pvs) path h p t =
      let s' = (apply_value s uri ref timestamp (clock 0) pv).0 in
      let same = apply_value-SameConfig s uri ref timestamp (clock 0) pv in
      apply_values-winner s' uri ref timestamp (λ i. clock (i + 1)) pvs path
        (apply_value-HasVessel s uri ref timestamp (clock 0) pv uri h) (same.priorities ∙ p)
        (same.ttls ∙ t)
      ∙ ap (winner_values path ref timestamp (λ i. clock (i + 1)) pvs)
          (apply_value-winner s uri ref timestamp (clock 0) pv path h p t)

  apply_updates-winner :
      (display : Json → String) (s : SignalKStore) (uri : String) (clock : ℕ → ℕ → Timestamp)
      (us : List Update) (path : String)
      → HasVessel s uri
      → s.source_priorities ≡ priorities
      → s.source_ttls ≡ ttls
      → get_vessel_path (apply_updates display s uri clock us).0 uri path
        ≡ winner display path clock us (get_vessel_path s uri path)
  unfolding apply_updates winner update_step
  apply_updates-winner display s uri clock [] path h p t = refl
  apply_updates-winner display s uri clock (u ∷ us) path h p t =
      let ref = make_source_ref display u.source in
      let kept = update_step-Kept display uri s (clock 0) u in
      apply_updates-winner display (update_step display uri s (clock 0) u) uri (λ i. clock (i + 1))
        us path (update_step-HasVessel display uri s (clock 0) u uri h) (kept.priorities ∙ p)
        (kept.ttls ∙ t)
      ∙ ap (winner display path (λ i. clock (i + 1)) us) (
          apply_values-winner (register_source s ref u.source) uri ref u.timestamp (clock 0)
            u.values path (rw (register_source-vessels s ref u.source) h)
            ((register_source-Kept s ref u.source).priorities ∙ p)
            ((register_source-Kept s ref u.source).ttls ∙ t)
          ∙ ap (winner_values path ref u.timestamp (clock 0) u.values)
              (ap (value_at uri path) (register_source-vessels s ref u.source)))

-- `entry(uri).or_default()`.
unfoldable pub with_vessel : SignalKStore → String → SignalKStore
with_vessel s uri = record s { vessels = or_insert uri empty_vessel s.vessels }

pub with_vessel-HasVessel : (s : SignalKStore) (uri : String) → HasVessel (with_vessel s uri) uri
unfolding with_vessel
with_vessel-HasVessel s uri = simp (lookup-or_insert, eq_refl)

fan_out-vessels :
    (s : SignalKStore) (context : Option String) (us : List Update)
    → (fan_out s context us).vessels ≡ s.vessels
unfolding fan_out
fan_out-vessels s context [] = refl
fan_out-vessels s context (u ∷ us) = refl

-- A delta for a vessel, as the loops and the broadcast.
apply_delta-vessels :
    (display : Json → String) (s : SignalKStore) (clock : ℕ → ℕ → Timestamp) (d : Delta)
    (uri : String)
    → strip_prefix (resolve_context s d.context) "vessels." ≡ some uri
    → (apply_delta display s clock d).vessels
      ≡ (apply_updates display (with_vessel s uri) uri clock d.updates).0.vessels
unfolding apply_delta with_vessel
apply_delta-vessels display s clock d uri e = rw (e, apply_delta) (fan_out-vessels _ _ _)

-- After a delta for a vessel, the active value at each of its paths is the winner of the values
-- that the delta brings for that path, in their order, against the value that was active, under the
-- configured priorities and TTLs.
pub apply_delta-winner :
    (display : Json → String) (s : SignalKStore) (clock : ℕ → ℕ → Timestamp) (d : Delta)
    (uri path : String)
    → strip_prefix (resolve_context s d.context) "vessels." ≡ some uri
    → get_vessel_path (apply_delta display s clock d) uri path
      ≡ winner s.source_priorities s.source_ttls display path clock d.updates
          (get_vessel_path s uri path)
unfolding with_vessel
apply_delta-winner display s clock d uri path e =
    ap (value_at uri path) (apply_delta-vessels display s clock d uri e)
    ∙ (apply_updates-winner s.source_priorities s.source_ttls display (with_vessel s uri) uri clock
          d.updates path (with_vessel-HasVessel s uri) refl refl
        ∙ ap (winner s.source_priorities s.source_ttls display path clock d.updates)
            (value_at-or_insert s.vessels uri uri path))

-- The values of every other vessel stay as they were.
apply_delta-other_vessel :
    (display : Json → String) (s : SignalKStore) (clock : ℕ → ℕ → Timestamp) (d : Delta)
    (uri other path : String)
    → strip_prefix (resolve_context s d.context) "vessels." ≡ some uri
    → (uri == other) ≡ false
    → get_vessel_path (apply_delta display s clock d) other path ≡ get_vessel_path s other path
unfolding with_vessel
apply_delta-other_vessel display s clock d uri other path e ne =
    ap (value_at other path) (apply_delta-vessels display s clock d uri e)
    ∙ (apply_updates-other display uri (with_vessel s uri) clock d.updates other path
          (with_vessel-HasVessel s uri) ne
        ∙ value_at-or_insert s.vessels uri other path)
