-- ===== src/Ais/Own.antt =====
-- The own vessel among the targets: `update_target` of crates/plugins/ais-status/src/tracker.rs.
use Prim.Native.String as S
use Prim.Native.String.append
use text.Mathlib.TextLemmas.{append_assoc}
use text.Mathlib.TextEquality.{starts_with_iff}
use mathlib.Core.Option.{some-injective}
use signalk_rs.Prelude.{
  ◌≡◌, refl, sym, ap, ◌∙◌, inl, inr, true, ◌||◌, Option, none, some, List, [], ◌∷◌, String, ◌==◌,
  ◌<>◌, starts_with, strip_prefix, strip_prefix-append, ends_with, eq_iff, eq_refl, arith,
  Bool-cases, Option-cases,
}
use signalk_rs.Prelude.Assoc.{lookup, lookup-insert, lookup-update}
use signalk_rs.Types.Json.{Json, F64}
use signalk_rs.Subscription.{Instant}
use signalk_rs.Ais.{TrackerConfig, AisTracker, with_config, parse_mmsi}
use signalk_rs.Ais.Tracker.{get_target, update_mmsi, update_target, update_target_cpa, tick}
use signalk_rs.Ais.Tick.{get_target-tick}
use signalk_rs.Ais.Keys.{IsConsistent}
use signalk_rs.Ais.Runs.{
  Call, hears, ticks, computes, call, run, call-IsConsistent, run-IsConsistent,
}

ends_with_refl : (t : String) → ends_with t t ≡ true
unfolding ends_with
ends_with_refl S.[] = refl
ends_with_refl (S.◌∷◌ c t) = rw (eq_refl (S.◌∷◌ c t)) refl

ends_with-append : (p t : String) → ends_with (p <> t) t ≡ true
unfolding ends_with
ends_with-append S.[] t = ap (λ s. ends_with s t) (append.nil t) ∙ ends_with_refl t
ends_with-append (S.◌∷◌ c p) t =
    ap (λ s. ends_with s t) (append.cons c p t) ∙ ground (arith, ends_with-append p t)

strip_prefix_sound : (s p t : String) → strip_prefix s p ≡ some t → s ≡ p <> t
strip_prefix_sound s p t e = elim (Bool-cases (starts_with s p)) [
  | inl starts ↦
      let (u, front) = (starts_with_iff s p).0 starts in
      let same : t ≡ u =
        some-injective t u
          (sym e ∙ (ap (λ x. strip_prefix x p) (sym front) ∙ strip_prefix-append p u)) in
      sym front ∙ ap (λ x. p <> x) (sym same)
  | inr other ↦ absurd (unfold strip_prefix in ground (arith, other, e))
]

-- The tracker's own URI is that of the MMSI, and the MMSI is not among the targets.
abbrev LacksOwn : String → AisTracker → Type 0
LacksOwn own t = (t.self_uri ≡ "urn:mrn:imo:mmsi:" <> own) × (lookup own t.targets ≡ none)

-- A context of the own MMSI ends with the own URI.
own_context :
    (t : AisTracker) (own context : String)
    → t.self_uri ≡ "urn:mrn:imo:mmsi:" <> own
    → parse_mmsi context ≡ some own
    → ends_with context t.self_uri ≡ true
unfolding parse_mmsi
own_context t own context uri parsed =
    ap (λ c. ends_with c t.self_uri)
      (strip_prefix_sound context "vessels.urn:mrn:imo:mmsi:" own parsed
        ∙ (append_assoc "vessels." "urn:mrn:imo:mmsi:" own ∙ ap (λ u. "vessels." <> u) (sym uri)))
    ∙ ends_with-append "vessels." t.self_uri

update_target-LacksOwn :
    (as_f64 : Json → Option F64) (t : AisTracker) (own context : String)
    (values : List (String × Json)) (now : Instant)
    → LacksOwn own t
    → LacksOwn own (update_target as_f64 t context values now).0
unfolding update_target update_mmsi
update_target-LacksOwn as_f64 t own context values now (uri, lacks) =
    elim (Bool-cases (ends_with context t.self_uri || context == "vessels.self")) [
      | inl skipped ↦ rw skipped (uri, lacks)
      | inr heard ↦ elim (Option-cases (parse_mmsi context)) [
        | inl e ↦ rw (heard, e) (uri, lacks)
        | inr (mmsi, e) ↦ elim (Bool-cases (mmsi == own)) [
          | inl same ↦
              let ends = own_context t own context uri (e ∙ ap some ((eq_iff mmsi own).0 same)) in
              absurd (ground (arith, ends, heard))
          | inr differ ↦ rw (heard, e) (uri, lookup-insert mmsi own _ t.targets ∙ rw differ lacks)
        ]
      ]
    ]

call-LacksOwn :
    (as_f64 : Json → Option F64) (t : AisTracker) (own : String) (c : Call)
    → IsConsistent t
    → LacksOwn own t
    → LacksOwn own (call as_f64 t c)
call-LacksOwn as_f64 t own (hears context values now) ok h =
    update_target-LacksOwn as_f64 t own context values now h
call-LacksOwn as_f64 t own (ticks now) ok (uri, lacks) =
    (unfold tick in uri, unfold get_target in (get_target-tick t now own ok.1 ∙ rw lacks refl))
call-LacksOwn as_f64 t own (computes mmsi cpa_m tcpa_s alarm_active) ok (uri, lacks) =
    unfold update_target_cpa in (uri, lookup-update mmsi own _ t.targets ∙ ground (arith, lacks))

run_from-LacksOwn :
    (as_f64 : Json → Option F64) (t : AisTracker) (own : String) (calls : List Call)
    → IsConsistent t
    → LacksOwn own t
    → LacksOwn own (run as_f64 t calls)
unfolding run
run_from-LacksOwn as_f64 t own [] ok h = h
run_from-LacksOwn as_f64 t own (c ∷ calls) ok h =
    run_from-LacksOwn as_f64 (call as_f64 t c) own calls (call-IsConsistent as_f64 t c ok)
      (call-LacksOwn as_f64 t own c ok h)

-- A tracker made with the URI of the own vessel's MMSI never has that MMSI among its targets,
-- whatever is heard, also under the vessel's full context.
pub get_target-own :
    (as_f64 : Json → Option F64) (own : String) (config : TrackerConfig) (calls : List Call)
    → get_target (run as_f64 (with_config ("urn:mrn:imo:mmsi:" <> own) config) calls) own ≡ none
unfolding get_target with_config run
get_target-own as_f64 own config calls =
    let t = with_config ("urn:mrn:imo:mmsi:" <> own) config in
    (run_from-LacksOwn as_f64 t own calls
      (run-IsConsistent as_f64 ("urn:mrn:imo:mmsi:" <> own) config [])
      (refl, unfold lookup in refl)).1
