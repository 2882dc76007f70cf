-- ===== src/Store/Values/Broadcast.antt =====
-- What `apply_delta` of crates/signalk-store/src/store.rs hands to the broadcast channel.
use signalk_rs.Prelude.{
  ℕ, ◌+◌, ◌%◌, ◌^◌, ◌≡◌, refl, sym, ap, ◌∙◌, ◌⊎◌, inl, inr, Option, some, List, [], ◌∷◌, String,
  eq_refl, arith, strip_prefix,
}
use signalk_rs.Types.Json.{Json}
use signalk_rs.Types.Delta.{Timestamp, PathValue, Update, Delta}
use signalk_rs.Types.Full.{SignalKValue}
use signalk_rs.Store.{
  SignalKStore, apply_value, apply_values, apply_updates, apply_delta, make_source_ref,
  register_source, resolve_context, value_at, get_vessel_path, fan_out, push_update,
}
use signalk_rs.Store.Value.{
  HasVessel, apply_value_applied, apply_value-HasVessel, apply_value-arbitrates,
}
use signalk_rs.Store.Values.Frame.{
  value_at-or_insert, register_source-vessels, update_step, update_step-HasVessel,
  apply_updates-Kept,
}
use signalk_rs.Store.Values.Winner.{with_vessel, with_vessel-HasVessel}
use signalk_rs.Store.Values.Policy.{last_values, last_value}

-- The values that were applied, replayed with last-write-wins, give the active values.
applied_values-mirror :
    (s : SignalKStore) (uri ref : String) (timestamp : Timestamp) (clock : ℕ → Timestamp)
    (pvs : List PathValue) (path : String)
    → HasVessel s uri
    → get_vessel_path (apply_values s uri ref timestamp clock pvs).0 uri path
      ≡ last_values path ref timestamp
          (apply_values s uri ref timestamp clock pvs).1
          (get_vessel_path s uri path)
unfolding apply_values last_values
applied_values-mirror s uri ref timestamp clock [] path h = refl
applied_values-mirror s uri ref timestamp clock (pv ∷ pvs) path h =
    let s' = (apply_value s uri ref timestamp (clock 0) pv).0 in
    let ih =
      applied_values-mirror s' uri ref timestamp (λ i. clock (i + 1)) pvs path
        (apply_value-HasVessel s uri ref timestamp (clock 0) pv uri h) in
    let step = apply_value-arbitrates s uri ref timestamp (clock 0) pv uri path h in
    let flag = apply_value_applied s uri ref timestamp (clock 0) pv in
    ground (arith, ih, step, flag, eq_refl uri)

last_value-push_update :
    (display : Json → String) (path : String) (u : Update) (pvs : List PathValue) (us : List Update)
    (current : Option SignalKValue)
    → last_value display path (push_update u pvs us) current
      ≡ last_value display path us
          (last_values path (make_source_ref display u.source) u.timestamp pvs current)
unfolding push_update last_value last_values
last_value-push_update display path u [] us current = refl
last_value-push_update display path u (pv ∷ pvs) us current = refl

applied_updates-mirror :
    (display : Json → String) (s : SignalKStore) (uri : String) (clock : ℕ → ℕ → Timestamp)
    (us : List Update) (path : String)
    → HasVessel s uri
    → get_vessel_path (apply_updates display s uri clock us).0 uri path
      ≡ last_value display path
          (apply_updates display s uri clock us).1
          (get_vessel_path s uri path)
unfolding apply_updates update_step
applied_updates-mirror display s uri clock [] path h = unfold last_value in refl
applied_updates-mirror display s uri clock (u ∷ us) path h =
    let ref = make_source_ref display u.source in
    let registered = register_source s ref u.source in
    let s' = update_step display uri s (clock 0) u in
    let rest = (apply_updates display s' uri (λ i. clock (i + 1)) us).1 in
    let applied = (apply_values registered uri ref u.timestamp (clock 0) u.values).1 in
    applied_updates-mirror display s' uri (λ i. clock (i + 1)) us path
      (update_step-HasVessel display uri s (clock 0) u uri h)
    ∙ (ap (last_value display path rest) (
          applied_values-mirror registered uri ref u.timestamp (clock 0) u.values path
            (rw (register_source-vessels s ref u.source) h)
          ∙ ap (last_values path ref u.timestamp applied)
              (ap (value_at uri path) (register_source-vessels s ref u.source)))
        ∙ sym (last_value-push_update display path u applied rest _))

-- What a delta for the vessel did to the broadcast log, and that it tells all: either nothing was
-- sent and no active value changed, or one delta was sent and counted.
abbrev pub Mirrored :
    (Json → String) → String → Option String → SignalKStore → SignalKStore → Type 0
Mirrored display uri context s t =
    ((t.sent ≡ s.sent)
      × (t.delta_count ≡ s.delta_count)
      × ((path : String) → get_vessel_path t uri path ≡ get_vessel_path s uri path))
    ⊎ ((us : List Update) × (t.sent ≡ record { context = context; updates = us } ∷ s.sent)
        × (t.delta_count ≡ (s.delta_count + 1) % 2 ^ 64)
        × ((path : String)
            → get_vessel_path t uri path ≡ last_value display path us (get_vessel_path s uri path)))

fan_out-Mirrored :
    (display : Json → String) (uri : String) (context : Option String) (s t : SignalKStore)
    (us : List Update)
    → t.sent ≡ s.sent
    → t.delta_count ≡ s.delta_count
    → ((path : String)
        → get_vessel_path t uri path ≡ last_value display path us (get_vessel_path s uri path))
    → Mirrored display uri context s (fan_out t context us)
unfolding fan_out last_value
fan_out-Mirrored display uri context s t [] sent count mirror = inl (sent, count, mirror)
fan_out-Mirrored display uri context s t (u ∷ us) sent count mirror =
    inr (u ∷ us, ground arith, ground arith, mirror)

-- After a delta for a vessel, either nothing was sent, the count of deltas stayed and no active value
-- of the vessel changed; or one delta was sent, under the context of the incoming one, the count
-- went up by one (modulo 2^64), and replaying what was sent, the last write winning, turns the old
-- active values of the vessel into the new ones.
pub apply_delta-Mirrored :
    (display : Json → String) (s : SignalKStore) (clock : ℕ → ℕ → Timestamp) (d : Delta)
    (uri : String)
    → strip_prefix (resolve_context s d.context) "vessels." ≡ some uri
    → Mirrored display uri d.context s (apply_delta display s clock d)
unfolding apply_delta with_vessel
apply_delta-Mirrored display s clock d uri e =
    let kept = apply_updates-Kept display uri (with_vessel s uri) clock d.updates in
    rw (e, apply_delta)
      (fan_out-Mirrored display uri d.context s
        (apply_updates display (with_vessel s uri) uri clock d.updates).0
        (apply_updates display (with_vessel s uri) uri clock d.updates).1 kept.sent kept.delta_count
        λ path.
          applied_updates-mirror display (with_vessel s uri) uri clock d.updates path
            (with_vessel-HasVessel s uri)
          ∙ ap (last_value display path _) (value_at-or_insert s.vessels uri uri path))
