-- ===== src/Store/Values/Frame.antt =====
-- The parts of the store that the loops of `apply_delta` in crates/signalk-store/src/store.rs do not
-- write.
use signalk_rs.Prelude.{
  ℕ, ◌+◌, ◌≡◌, refl, ap, ◌∙◌, false, List, [], ◌∷◌, String, ◌==◌, eq_iff, Option-cases, arith,
}
use signalk_rs.Prelude.Assoc.{Map, lookup, or_insert, lookup-or_insert}
use signalk_rs.Types.Json.{Json}
use signalk_rs.Types.Delta.{Source, Timestamp, PathValue, Update}
use signalk_rs.Types.Full.{VesselData, empty_vessel}
use signalk_rs.Store.{
  SignalKStore, apply_value, apply_values, register_source, apply_updates, make_source_ref,
  value_at, get_vessel_path,
}
use signalk_rs.Store.Value.{
  SameConfig, SameConfig-refl, SameConfig-trans, HasVessel, apply_value-SameConfig,
  apply_value-HasVessel, apply_value-arbitrates,
}

-- The configuration and the log of broadcasts stay through the loops.
pub record Kept (s t : SignalKStore) : Type 0 where
  pub self_uri : t.self_uri ≡ s.self_uri
  pub priorities : t.source_priorities ≡ s.source_priorities
  pub ttls : t.source_ttls ≡ s.source_ttls
  pub metadata : t.metadata ≡ s.metadata
  pub sent : t.sent ≡ s.sent
  pub delta_count : t.delta_count ≡ s.delta_count

Kept-trans : {s t u : SignalKStore} → Kept s t → Kept t u → Kept s u
Kept-trans a b = record {
  self_uri = b.self_uri ∙ a.self_uri;
  priorities = b.priorities ∙ a.priorities;
  ttls = b.ttls ∙ a.ttls;
  metadata = b.metadata ∙ a.metadata;
  sent = b.sent ∙ a.sent;
  delta_count = b.delta_count ∙ a.delta_count;
}

SameConfig-Kept : {s t : SignalKStore} → SameConfig s t → Kept s t
SameConfig-Kept a = record {
  self_uri = a.self_uri;
  priorities = a.priorities;
  ttls = a.ttls;
  metadata = a.metadata;
  sent = a.sent;
  delta_count = a.delta_count;
}

-- A vessel that is made on the way has no values yet.
pub value_at-or_insert :
    (vessels : Map VesselData) (uri u path : String)
    → value_at u path (or_insert uri empty_vessel vessels) ≡ value_at u path vessels
unfolding value_at lookup
value_at-or_insert vessels uri u path = ground (
  arith,
  eq_iff uri u,
  lookup-or_insert uri u empty_vessel vessels,
  Option-cases (lookup uri vessels),
)

pub register_source-Kept :
    (s : SignalKStore) (ref : String) (source : Source) → Kept s (register_source s ref source)
unfolding register_source
register_source-Kept s ref source = ground arith

pub register_source-vessels :
    (s : SignalKStore) (ref : String) (source : Source)
    → (register_source s ref source).vessels ≡ s.vessels
unfolding register_source
register_source-vessels s ref source = refl

module _ (uri ref : String) (timestamp : Timestamp) where
  apply_values-SameConfig :
      (s : SignalKStore) (clock : ℕ → Timestamp) (pvs : List PathValue)
      → SameConfig s (apply_values s uri ref timestamp clock pvs).0
  unfolding apply_values
  apply_values-SameConfig s clock [] = SameConfig-refl s
  apply_values-SameConfig s clock (pv ∷ pvs) =
      SameConfig-trans (apply_value-SameConfig s uri ref timestamp (clock 0) pv) (
        apply_values-SameConfig (apply_value s uri ref timestamp (clock 0) pv).0
          (λ i. clock (i + 1)) pvs)

  apply_values-HasVessel :
      (s : SignalKStore) (clock : ℕ → Timestamp) (pvs : List PathValue) (u : String)
      → HasVessel s u
      → HasVessel (apply_values s uri ref timestamp clock pvs).0 u
  unfolding apply_values
  apply_values-HasVessel s clock [] u h = h
  apply_values-HasVessel s clock (pv ∷ pvs) u h =
      apply_values-HasVessel (apply_value s uri ref timestamp (clock 0) pv).0 (λ i. clock (i + 1))
        pvs u (apply_value-HasVessel s uri ref timestamp (clock 0) pv u h)

  -- Another vessel's values stay.
  apply_values-other :
      (s : SignalKStore) (clock : ℕ → Timestamp) (pvs : List PathValue) (u path : String)
      → HasVessel s uri
      → (uri == u) ≡ false
      → get_vessel_path (apply_values s uri ref timestamp clock pvs).0 u path
        ≡ get_vessel_path s u path
  unfolding apply_values
  apply_values-other s clock [] u path h ne = refl
  apply_values-other s clock (pv ∷ pvs) u path h ne =
      apply_values-other (apply_value s uri ref timestamp (clock 0) pv).0 (λ i. clock (i + 1)) pvs u
        path (apply_value-HasVessel s uri ref timestamp (clock 0) pv uri h) ne
      ∙ ground (arith, apply_value-arbitrates s uri ref timestamp (clock 0) pv u path h)

module _ (display : Json → String) (uri : String) where
  -- One update: its source is registered, then its values are applied.
  unfoldable pub update_step : SignalKStore → (ℕ → Timestamp) → Update → SignalKStore
  update_step s clock u =
      let ref = make_source_ref display u.source in
      (apply_values (register_source s ref u.source) uri ref u.timestamp clock u.values).0

  pub update_step-Kept :
      (s : SignalKStore) (clock : ℕ → Timestamp) (u : Update) → Kept s (update_step s clock u)
  unfolding update_step
  update_step-Kept s clock u =
      let ref = make_source_ref display u.source in
      Kept-trans (register_source-Kept s ref u.source) (
        SameConfig-Kept (
          apply_values-SameConfig uri ref u.timestamp (register_source s ref u.source) clock
            u.values))

  pub update_step-HasVessel :
      (s : SignalKStore) (clock : ℕ → Timestamp) (u : Update) (v : String)
      → HasVessel s v
      → HasVessel (update_step s clock u) v
  unfolding update_step
  update_step-HasVessel s clock u v h =
      let ref = make_source_ref display u.source in
      apply_values-HasVessel uri ref u.timestamp (register_source s ref u.source) clock u.values v
        (rw (register_source-vessels s ref u.source) h)

  apply_updates-step :
      (s : SignalKStore) (clock : ℕ → ℕ → Timestamp) (u : Update) (us : List Update)
      → (apply_updates display s uri clock (u ∷ us)).0
        ≡ (apply_updates display (update_step s (clock 0) u) uri (λ i. clock (i + 1)) us).0
  unfolding update_step apply_updates
  apply_updates-step s clock u us = refl

  pub apply_updates-Kept :
      (s : SignalKStore) (clock : ℕ → ℕ → Timestamp) (us : List Update)
      → Kept s (apply_updates display s uri clock us).0
  unfolding apply_updates update_step
  apply_updates-Kept s clock [] = SameConfig-Kept (SameConfig-refl s)
  apply_updates-Kept s clock (u ∷ us) =
      Kept-trans (update_step-Kept s (clock 0) u)
        (apply_updates-Kept (update_step s (clock 0) u) (λ i. clock (i + 1)) us)

  pub apply_updates-other :
      (s : SignalKStore) (clock : ℕ → ℕ → Timestamp) (us : List Update) (v path : String)
      → HasVessel s uri
      → (uri == v) ≡ false
      → get_vessel_path (apply_updates display s uri clock us).0 v path ≡ get_vessel_path s v path
  unfolding apply_updates update_step
  apply_updates-other s clock [] v path h ne = refl
  apply_updates-other s clock (u ∷ us) v path h ne =
      let ref = make_source_ref display u.source in
      apply_updates-other (update_step s (clock 0) u) (λ i. clock (i + 1)) us v path
        (update_step-HasVessel s (clock 0) u uri h) ne
      ∙ (apply_values-other uri ref u.timestamp (register_source s ref u.source) (clock 0) u.values
            v path (rw (register_source-vessels s ref u.source) h) ne
          ∙ ap (value_at v path) (register_source-vessels s ref u.source))
