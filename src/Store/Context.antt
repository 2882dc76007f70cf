-- ===== src/Store/Context.antt =====
-- The names of the self vessel in a delta's context (crates/signalk-store/src/store.rs).
use signalk_rs.Prelude.{
  ℕ, ◌≡◌, ap, ◌∙◌, ◌⊎◌, inl, inr, Option, none, some, String, eq_refl, arith, strip_prefix,
  strip_prefix-append, ◌<>◌,
}
use signalk_rs.Types.Json.{Json}
use signalk_rs.Types.Delta.{Timestamp, Delta}
use signalk_rs.Store.{SignalKStore, resolve_context, apply_delta, get_self_path, get_vessel_path}
use signalk_rs.Store.Values.Winner.{winner, apply_delta-winner}

-- No context, "vessels.self", or the vessel's own URI.
abbrev NamesSelf : SignalKStore → Option String → Type 0
NamesSelf s c = (c ≡ none) ⊎ ((c ≡ some "vessels.self") ⊎ (c ≡ some ("vessels." <> s.self_uri)))

resolve_context-NamesSelf :
    (s : SignalKStore) (c : Option String)
    → NamesSelf s c
    → resolve_context s c ≡ "vessels." <> s.self_uri
unfolding resolve_context
resolve_context-NamesSelf s c (inl e) = rw e (ground arith)
resolve_context-NamesSelf s c (inr (inl e)) = rw e (ground (arith, eq_refl "vessels.self"))
resolve_context-NamesSelf s c (inr (inr e)) = rw e (ground arith)

strip_prefix-NamesSelf :
    (s : SignalKStore) (c : Option String)
    → NamesSelf s c
    → strip_prefix (resolve_context s c) "vessels." ≡ some s.self_uri
strip_prefix-NamesSelf s c h =
    ap (λ t. strip_prefix t "vessels.") (resolve_context-NamesSelf s c h)
    ∙ strip_prefix-append "vessels." s.self_uri

-- A delta under any name of the self vessel (no context, "vessels.self", "vessels." and its URI)
-- is arbitrated against the self vessel's active values, with one result for the three.
pub apply_delta-NamesSelf :
    (display : Json → String) (s : SignalKStore) (clock : ℕ → ℕ → Timestamp) (d : Delta)
    (path : String)
    → NamesSelf s d.context
    → get_vessel_path (apply_delta display s clock d) s.self_uri path
      ≡ winner s.source_priorities s.source_ttls display path clock d.updates (get_self_path s path)
apply_delta-NamesSelf display s clock d path h =
    apply_delta-winner display s clock d s.self_uri path (strip_prefix-NamesSelf s d.context h)
