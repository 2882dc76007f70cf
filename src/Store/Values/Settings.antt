-- ===== src/Store/Values/Settings.antt =====
-- What a delta leaves of the store's settings: crates/signalk-store/src/store.rs.
use signalk_rs.Prelude.{ℕ, ◌≡◌, refl, ◌∙◌, Option, none, some, List, [], ◌∷◌, String, strip_prefix}
use signalk_rs.Types.Json.{Json}
use signalk_rs.Types.Delta.{Timestamp, Update, Delta}
use signalk_rs.Types.Full.{empty_vessel}
use signalk_rs.Prelude.Assoc.{or_insert}
use signalk_rs.Store.{
  SignalKStore, apply_delta, apply_vessel_delta, apply_updates, fan_out, resolve_context,
}
use signalk_rs.Store.Values.Frame.{apply_updates-Kept}

-- The own vessel and the priorities are the same.
pub record Settled (s t : SignalKStore) : Type 0 where
  pub self_uri : t.self_uri ≡ s.self_uri
  pub priorities : t.source_priorities ≡ s.source_priorities

fan_out-Settled :
    (s : SignalKStore) (context : Option String) (us : List Update)
    → Settled s (fan_out s context us)
unfolding fan_out
fan_out-Settled s context [] = record { self_uri = refl; priorities = refl }
fan_out-Settled s context (u ∷ us) = record { self_uri = refl; priorities = refl }

module _ (display : Json → String) where
  apply_vessel_delta-Settled :
      (s : SignalKStore) (uri : String) (clock : ℕ → ℕ → Timestamp) (d : Delta)
      → Settled s (apply_vessel_delta display s uri clock d)
  unfolding apply_vessel_delta
  apply_vessel_delta-Settled s uri clock d =
      let s' : SignalKStore = record s { vessels = or_insert uri empty_vessel s.vessels } in
      let r = apply_updates display s' uri clock d.updates in
      let kept = apply_updates-Kept display uri s' clock d.updates in
      let sent = fan_out-Settled r.0 d.context r.1 in
      record {
        self_uri = sent.self_uri ∙ kept.self_uri;
        priorities = sent.priorities ∙ kept.priorities;
      }

  context-Settled :
      (s : SignalKStore) (clock : ℕ → ℕ → Timestamp) (d : Delta) (o : Option String)
      → Settled s (elim o as (λ x. SignalKStore) [
        | none ↦ record s { sent = d ∷ s.sent }
        | some uri ↦ apply_vessel_delta display s uri clock d
      ])
  context-Settled s clock d none = record { self_uri = refl; priorities = refl }
  context-Settled s clock d (some uri) = apply_vessel_delta-Settled s uri clock d

  -- A delta changes neither the own vessel's name nor the priorities.
  pub apply_delta-Settled :
      (s : SignalKStore) (clock : ℕ → ℕ → Timestamp) (d : Delta)
      → Settled s (apply_delta display s clock d)
  unfolding apply_delta
  apply_delta-Settled s clock d =
      context-Settled s clock d (strip_prefix (resolve_context s d.context) "vessels.")
