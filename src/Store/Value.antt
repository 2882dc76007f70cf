-- ===== src/Store/Value.antt =====
-- One value of an update: `apply_value`, the body of the inner loop of `apply_delta` in
-- crates/signalk-store/src/store.rs.
use signalk_rs.Prelude.{
  ◌≡◌, ap, ◌∙◌, inl, inr, Bool, true, ◌&&◌, some, String, ◌==◌, eq_iff, if◌then◌else◌, is_some,
  Option-cases, arith,
}
use signalk_rs.Prelude.Assoc.{Map, lookup, lookup-insert, lookup-update}
use signalk_rs.Types.Delta.{Timestamp, PathValue}
use signalk_rs.Types.Full.{SignalKValue, sk_value, VesselData}
use signalk_rs.Store.{
  SignalKStore, apply_value, value_at, get_vessel_path, write_value, put_value, evict_stale,
  should_update,
}

-- What no value changes.
pub record SameConfig (s t : SignalKStore) : Type 0 where
  pub self_uri : t.self_uri ≡ s.self_uri
  pub priorities : t.source_priorities ≡ s.source_priorities
  pub ttls : t.source_ttls ≡ s.source_ttls
  pub sources : t.sources ≡ s.sources
  pub metadata : t.metadata ≡ s.metadata
  pub sent : t.sent ≡ s.sent
  pub delta_count : t.delta_count ≡ s.delta_count

-- The vessel's record exists, as after `entry(uri).or_default()`.
abbrev pub HasVessel : SignalKStore → String → Type 0
HasVessel s uri = is_some (lookup uri s.vessels) ≡ true

-- The incoming value takes the path: nothing is there, or what is there is stale or of no better priority.
unfoldable pub takes : SignalKStore → String → String → Timestamp → String → Bool
unfolding evict_stale should_update
takes s uri ref now path =
    let current = get_vessel_path s uri path in
    should_update s.source_priorities ref (evict_stale s.source_ttls now current) current

pub value_at-write_value :
    (vessels : Map VesselData) (uri path : String) (value : SignalKValue) (u p : String)
    → is_some (lookup uri vessels) ≡ true
    → value_at u p (write_value uri path value vessels)
      ≡ (if uri == u && path == p then some value else value_at u p vessels)
unfolding value_at write_value
value_at-write_value vessels uri path value u p h =
    let updated = lookup-update uri u (put_value path value) vessels in
    elim (Option-cases (lookup u vessels)) [
      | inl e ↦ ground (arith, eq_iff uri u, updated)
      | inr (v, e) ↦ ground (arith, eq_iff uri u, updated, lookup-insert path p value v.values)
    ]

pub SameConfig-refl : (s : SignalKStore) → SameConfig s s
SameConfig-refl s = ground arith

pub SameConfig-trans : {s t u : SignalKStore} → SameConfig s t → SameConfig t u → SameConfig s u
SameConfig-trans a b = record {
  self_uri = b.self_uri ∙ a.self_uri;
  priorities = b.priorities ∙ a.priorities;
  ttls = b.ttls ∙ a.ttls;
  sources = b.sources ∙ a.sources;
  metadata = b.metadata ∙ a.metadata;
  sent = b.sent ∙ a.sent;
  delta_count = b.delta_count ∙ a.delta_count;
}

module _ (s : SignalKStore) (uri ref : String) (timestamp now : Timestamp) (pv : PathValue) where
  pub apply_value-SameConfig : SameConfig s (apply_value s uri ref timestamp now pv).0
  unfolding apply_value
  apply_value-SameConfig = ground arith

  pub apply_value_applied : (apply_value s uri ref timestamp now pv).1 ≡ takes s uri ref now pv.path
  unfolding apply_value takes
  apply_value_applied = ground arith

  apply_value-vessels : (apply_value s uri ref timestamp now pv).0.vessels ≡ (
      if takes s uri ref now pv.path
      then write_value uri pv.path (sk_value pv.value ref timestamp) s.vessels
      else s.vessels)
  unfolding apply_value takes
  apply_value-vessels = ground arith

  -- The active value afterwards, at every vessel and path: arbitration, and the frame.
  pub apply_value-arbitrates :
      (u p : String)
      → HasVessel s uri
      → get_vessel_path (apply_value s uri ref timestamp now pv).0 u p ≡ (
          if uri == u && pv.path == p && takes s uri ref now pv.path
          then some (sk_value pv.value ref timestamp)
          else get_vessel_path s u p)
  apply_value-arbitrates u p h =
      ap (value_at u p) apply_value-vessels
      ∙ ground (
        arith,
        value_at-write_value s.vessels uri pv.path (sk_value pv.value ref timestamp) u p h,
      )

  pub apply_value-HasVessel :
      (u : String) → HasVessel s u → HasVessel (apply_value s uri ref timestamp now pv).0 u
  unfolding apply_value write_value
  apply_value-HasVessel u h =
      ground
        (arith, lookup-update uri u (put_value pv.path (sk_value pv.value ref timestamp)) s.vessels)
