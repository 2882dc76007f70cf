-- ===== src/Store/Values/Policy.antt =====
-- Arbitration in crates/signalk-store/src/store.rs where no priorities, or no TTLs, are configured.
use Prim.Native.Nat.{min}
use signalk_rs.Prelude.{
  ℕ, ◌+◌, ◌≡◌, refl, ap, ◌∙◌, Option, none, some, List, [], ◌∷◌, String, ◌==◌, if◌then◌else◌, arith,
  strip_prefix,
}
use mathlib.Core.Option.{map}
use signalk_rs.Prelude.Assoc.{Map, lookup}
use signalk_rs.Types.Json.{Json}
use signalk_rs.Types.Delta.{Timestamp, PathValue, Update, Delta}
use signalk_rs.Types.Full.{SignalKValue, sk_value}
use signalk_rs.Store.{
  SignalKStore, apply_delta, make_source_ref, resolve_context, get_vessel_path, is_stale, priority,
}
use signalk_rs.Store.Values.Winner.{arbitrate, winner_values, winner, apply_delta-winner}

-- The last value for a path, or what was there.
unfoldable pub last_values :
    String → String → Timestamp → List PathValue → Option SignalKValue → Option SignalKValue
last_values path ref timestamp [] current = current
last_values path ref timestamp (pv ∷ pvs) current =
    last_values path ref timestamp pvs
      (if pv.path == path then some (sk_value pv.value ref timestamp) else current)

unfoldable pub last_value :
    (Json → String) → String → List Update → Option SignalKValue → Option SignalKValue
unfolding last_values
last_value display path [] current = current
last_value display path (u ∷ us) current =
    last_value display path us
      (last_values path (make_source_ref display u.source) u.timestamp u.values current)

module _ (ttls : Map ℕ) where
  arbitrate-no_priorities :
      (ref : String) (now : Timestamp) (new : SignalKValue) (current : Option SignalKValue)
      → arbitrate [] ttls ref now new current ≡ new
  unfolding arbitrate priority lookup
  arbitrate-no_priorities ref now new current = ground arith

  winner_values-no_priorities :
      (path ref : String) (timestamp : Timestamp) (clock : ℕ → Timestamp) (pvs : List PathValue)
      (current : Option SignalKValue)
      → winner_values [] ttls path ref timestamp clock pvs current
        ≡ last_values path ref timestamp pvs current
  unfolding winner_values last_values
  winner_values-no_priorities path ref timestamp clock [] current = refl
  winner_values-no_priorities path ref timestamp clock (pv ∷ pvs) current =
      rw (arbitrate-no_priorities ref (clock 0) (sk_value pv.value ref timestamp) current)
        (winner_values-no_priorities path ref timestamp (λ i. clock (i + 1)) pvs _)

  pub winner-no_priorities :
      (display : Json → String) (path : String) (clock : ℕ → ℕ → Timestamp) (us : List Update)
      (current : Option SignalKValue)
      → winner [] ttls display path clock us current ≡ last_value display path us current
  unfolding winner last_value
  winner-no_priorities display path clock [] current = refl
  winner-no_priorities display path clock (u ∷ us) current =
      rw
        (winner_values-no_priorities path (make_source_ref display u.source) u.timestamp (clock 0)
          u.values current)
        (winner-no_priorities display path (λ i. clock (i + 1)) us _)

-- With no priorities configured the last write wins: after a delta for a vessel, the active value at
-- a path is the last one that the delta brings for it, and what was there where it brings none.
-- This holds whatever TTLs are configured.
pub last_write_wins :
    (display : Json → String) (s : SignalKStore) (clock : ℕ → ℕ → Timestamp) (d : Delta)
    (uri path : String)
    → strip_prefix (resolve_context s d.context) "vessels." ≡ some uri
    → s.source_priorities ≡ []
    → get_vessel_path (apply_delta display s clock d) uri path
      ≡ last_value display path d.updates (get_vessel_path s uri path)
last_write_wins display s clock d uri path e none_set =
    apply_delta-winner display s clock d uri path e
    ∙ (ap (λ m. winner m s.source_ttls display path clock d.updates (get_vessel_path s uri path))
          none_set
        ∙ winner-no_priorities s.source_ttls display path clock d.updates _)

-- The better of two priorities, where there may be none yet.
abbrev better : Option ℕ → ℕ → Option ℕ
better none n = some n
better (some m) n = some (min m n)

module _ (priorities : Map ℕ) where
  abbrev rank : SignalKValue → ℕ
  rank v = priority priorities v.source

  -- The best priority among the values for a path and the one that was active.
  best_values : String → ℕ → List PathValue → Option ℕ → Option ℕ
  best_values path p [] best = best
  best_values path p (pv ∷ pvs) best =
      best_values path p pvs (if pv.path == path then better best p else best)

  unfoldable pub best_priority : (Json → String) → String → List Update → Option ℕ → Option ℕ
  unfolding best_values priority
  best_priority display path [] best = best
  best_priority display path (u ∷ us) best =
      best_priority display path us
        (best_values path (priority priorities (make_source_ref display u.source)) u.values best)

  rank-arbitrate :
      (ref : String) (timestamp now : Timestamp) (value : Json) (current : Option SignalKValue)
      → some (rank (arbitrate priorities [] ref now (sk_value value ref timestamp) current))
        ≡ better (map rank current) (priority priorities ref)
  unfolding arbitrate sk_value is_stale lookup
  rank-arbitrate ref timestamp now value none = refl
  rank-arbitrate ref timestamp now value (some current) = ground arith

  rank-winner_values :
      (path ref : String) (timestamp : Timestamp) (clock : ℕ → Timestamp) (pvs : List PathValue)
      (current : Option SignalKValue)
      → map rank (winner_values priorities [] path ref timestamp clock pvs current)
        ≡ best_values path (priority priorities ref) pvs (map rank current)
  unfolding winner_values best_values
  rank-winner_values path ref timestamp clock [] current = refl
  rank-winner_values path ref timestamp clock (pv ∷ pvs) current =
      rank-winner_values path ref timestamp (λ i. clock (i + 1)) pvs _
      ∙ ap (best_values path (priority priorities ref) pvs)
          (ground (arith, rank-arbitrate ref timestamp (clock 0) pv.value current))

  rank-winner :
      (display : Json → String) (path : String) (clock : ℕ → ℕ → Timestamp) (us : List Update)
      (current : Option SignalKValue)
      → map rank (winner priorities [] display path clock us current)
        ≡ best_priority display path us (map rank current)
  unfolding winner best_priority
  rank-winner display path clock [] current = refl
  rank-winner display path clock (u ∷ us) current =
      rank-winner display path (λ i. clock (i + 1)) us _
      ∙ ap (best_priority display path us) (
          rank-winner_values path (make_source_ref display u.source) u.timestamp (clock 0) u.values
            current)

-- With no TTLs configured the active value at a path has the best priority (the lowest number) of
-- the value that was active and of all that the delta brings for the path; a worse source never
-- takes over.
pub best_priority_wins :
    (display : Json → String) (s : SignalKStore) (clock : ℕ → ℕ → Timestamp) (d : Delta)
    (uri path : String)
    → strip_prefix (resolve_context s d.context) "vessels." ≡ some uri
    → s.source_ttls ≡ []
    → map
        (λ v. priority s.source_priorities v.source)
        (get_vessel_path (apply_delta display s clock d) uri path)
      ≡ best_priority s.source_priorities display path d.updates
          (map (λ v. priority s.source_priorities v.source) (get_vessel_path s uri path))
best_priority_wins display s clock d uri path e none_set =
    ap (map (λ v. priority s.source_priorities v.source)) (
      apply_delta-winner display s clock d uri path e
      ∙ ap
          (λ m.
            winner s.source_priorities m display path clock d.updates (get_vessel_path s uri path))
          none_set)
    ∙ rank-winner s.source_priorities display path clock d.updates _
