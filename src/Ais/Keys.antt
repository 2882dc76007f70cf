-- ===== src/Ais/Keys.antt =====
-- What every target has in common with its key: the map `targets` of
-- crates/plugins/ais-status/src/tracker.rs.
use signalk_rs.Prelude.{
  ◌≡◌, refl, sym, ◌∙◌, Bool, Option, none, some, List, [], ◌∷◌, String, ◌==◌, subst, ◌>>=◌, ◌||◌,
  ends_with, inl, inr, arith, Bool-cases, Option-cases, eq_iff,
}
use mathlib.Core.Option.{map, some-injective}
use signalk_rs.Prelude.Assoc.{
  Map, lookup, insert, remove, lookup-insert, lookup-update, IsUnique, insert-IsUnique,
  remove-IsUnique, update-IsUnique,
}
use signalk_rs.Types.Json.{Json, F64}
use signalk_rs.Subscription.{Instant}
use signalk_rs.Ais.{
  TrackedTarget, AisTracker, TrackerConfig, new_target, for_class_with_overrides, record_message,
  update_from_values, update_from_value, overrides_for, classify_mmsi, parse_mmsi,
}
use signalk_rs.Ais.Tick.{lookup-sweep, aged, survivor, get_target-tick}
use signalk_rs.Ais.Tracker.{
  get_target, target_or_new, update_mmsi, update_target, update_target_cpa, tick, sweep, remove_all,
  fate,
}

-- The target's MMSI, the class of it and that class's thresholds.
abbrev IsKept : TrackerConfig → String → TrackedTarget → Type 0
IsKept config mmsi t =
    (t.mmsi ≡ mmsi)
    × (t.class ≡ classify_mmsi mmsi)
    × (t.thresholds
        ≡ for_class_with_overrides (classify_mmsi mmsi) (overrides_for config (classify_mmsi mmsi)))

-- Every target is kept under its MMSI, and no MMSI stands twice.
abbrev pub IsConsistent : AisTracker → Type 0
IsConsistent t =
    ((mmsi : String) (x : TrackedTarget) → lookup mmsi t.targets ≡ some x → IsKept t.config mmsi x)
    × IsUnique t.targets

-- What the messages leave alone.
abbrev SameTarget : TrackedTarget → TrackedTarget → Type 0
SameTarget t u = (t.mmsi ≡ u.mmsi) × (t.class ≡ u.class) × (t.thresholds ≡ u.thresholds)

record_message-SameTarget :
    (t : TrackedTarget) (now : Instant) → SameTarget (record_message t now).0 t
unfolding record_message
record_message-SameTarget t now = ground arith

update_from_value-SameTarget :
    (as_f64 : Json → Option F64) (t : TrackedTarget) (path : String) (value : Json)
    → SameTarget (update_from_value as_f64 t path value) t
unfolding update_from_value
update_from_value-SameTarget as_f64 t path value = ground arith

update_from_values-SameTarget :
    (as_f64 : Json → Option F64) (t : TrackedTarget) (values : List (String × Json))
    → SameTarget (update_from_values as_f64 t values) t
unfolding update_from_values
update_from_values-SameTarget as_f64 t [] = (refl, refl, refl)
update_from_values-SameTarget as_f64 t ((path, value) ∷ values) =
    let t' = update_from_value as_f64 t path value in
    let (a, b, c) = update_from_values-SameTarget as_f64 t' values in
    let (x, y, z) = update_from_value-SameTarget as_f64 t path value in (a ∙ x, b ∙ y, c ∙ z)

keep :
    (config : TrackerConfig) (mmsi : String) (x y : TrackedTarget)
    → SameTarget x y
    → IsKept config mmsi y
    → IsKept config mmsi x
keep config mmsi x y (a, b, c) (p, q, r) = (a ∙ p, b ∙ q, c ∙ r)

new_target-IsKept :
    (config : TrackerConfig) (mmsi context : String) (now : Instant)
    → IsKept config mmsi (new_target mmsi context now (overrides_for config (classify_mmsi mmsi)))
unfolding new_target
new_target-IsKept config mmsi context now = (refl, refl, refl)

target_or_new-IsKept :
    (t : AisTracker) (mmsi context : String) (now : Instant)
    → IsConsistent t
    → IsKept t.config mmsi (target_or_new t mmsi context now)
target_or_new-IsKept t mmsi context now (kept, u) = elim (Option-cases (lookup mmsi t.targets)) [
  | inl e ↦ rw e (new_target-IsKept t.config mmsi context now)
  | inr (x, e) ↦ rw e (kept mmsi x e)
]

insert-IsConsistent :
    (t : AisTracker) (mmsi : String) (x : TrackedTarget)
    → IsKept t.config mmsi x
    → IsConsistent t
    → IsConsistent (record t { targets = insert mmsi x t.targets })
insert-IsConsistent t mmsi x h (kept, u) = (
  λ j y e. elim (Bool-cases (mmsi == j)) [
    | inl same ↦
        let held : x ≡ y =
          some-injective x y (sym (lookup-insert mmsi j x t.targets ∙ rw same refl) ∙ e) in
        let h' : IsKept t.config mmsi y = subst (λ z. IsKept t.config mmsi z) held h in
        subst (λ k. IsKept t.config k y) ((eq_iff mmsi j).0 same) h'
    | inr other ↦ kept j y (sym (lookup-insert mmsi j x t.targets ∙ rw other refl) ∙ e)
  ],
  insert-IsUnique mmsi x t.targets u,
)

update_mmsi-IsConsistent :
    (as_f64 : Json → Option F64) (t : AisTracker) (mmsi context : String)
    (values : List (String × Json)) (now : Instant)
    → IsConsistent t
    → IsConsistent (update_mmsi as_f64 t mmsi context values now).0
unfolding update_mmsi
update_mmsi-IsConsistent as_f64 t mmsi context values now ok =
    let x = target_or_new t mmsi context now in
    let y = update_from_values as_f64 x values in
    insert-IsConsistent t mmsi (record_message y now).0
      (keep t.config mmsi (record_message y now).0 y (record_message-SameTarget y now) (
        keep t.config mmsi y x (update_from_values-SameTarget as_f64 x values)
          (target_or_new-IsKept t mmsi context now ok)))
      ok

pub update_target-IsConsistent :
    (as_f64 : Json → Option F64) (t : AisTracker) (context : String) (values : List (String × Json))
    (now : Instant)
    → IsConsistent t
    → IsConsistent (update_target as_f64 t context values now).0
unfolding update_target
update_target-IsConsistent as_f64 t context values now ok =
    elim (Bool-cases (ends_with context t.self_uri || context == "vessels.self")) [
      | inl own ↦ rw own ok
      | inr other ↦ elim (Option-cases (parse_mmsi context)) [
        | inl e ↦ rw (other, e) ok
        | inr (mmsi, e) ↦
            rw (other, e) (update_mmsi-IsConsistent as_f64 t mmsi context values now ok)
      ]
    ]

survivor-IsKept :
    (config : TrackerConfig) (now : Instant) (mmsi : String) (o : Option TrackedTarget)
    (y : TrackedTarget)
    → ((x : TrackedTarget) → o ≡ some x → IsKept config mmsi x)
    → (o >>= survivor now) ≡ some y
    → IsKept config mmsi y
survivor-IsKept config now mmsi none y kept e = absurd (cc)
survivor-IsKept config now mmsi (some x) y kept e =
    keep config mmsi y x (ground (arith, e)) (kept x refl)

sweep-cons :
    (now : Instant) (mmsi : String) (x : TrackedTarget) (m : Map TrackedTarget)
    → (sweep now ((mmsi, x) ∷ m)).0 ≡ (mmsi, aged (fate x now) x) ∷ (sweep now m).0
unfolding sweep aged
sweep-cons now mmsi x m = ground arith

sweep-IsUnique : (now : Instant) (m : Map TrackedTarget) → IsUnique m → IsUnique (sweep now m).0
unfolding sweep lookup
sweep-IsUnique now [] u = tt
sweep-IsUnique now ((mmsi, x) ∷ m) u =
    let rest = sweep-IsUnique now m u.1 in
    let absent : lookup mmsi (sweep now m).0 ≡ none = lookup-sweep now mmsi m ∙ rw u.0 refl in
    subst IsUnique (sym (sweep-cons now mmsi x m)) (absent, rest)

remove_all-IsUnique :
    (ks : List String) (m : Map TrackedTarget) → IsUnique m → IsUnique (remove_all ks m)
unfolding remove_all
remove_all-IsUnique [] m u = u
remove_all-IsUnique (k ∷ ks) m u = remove_all-IsUnique ks (remove k m) (remove-IsUnique k m u)

pub tick-IsConsistent :
    (t : AisTracker) (now : Instant) → IsConsistent t → IsConsistent (tick t now).0
unfolding tick get_target
tick-IsConsistent t now (kept, u) = (
  λ mmsi y e.
      survivor-IsKept t.config now mmsi (lookup mmsi t.targets) y (kept mmsi)
        (sym (get_target-tick t now mmsi u) ∙ e),
  remove_all-IsUnique (sweep now t.targets).2 (sweep now t.targets).0
      (sweep-IsUnique now t.targets u),
)

with_cpa : F64 → F64 → Bool → TrackedTarget → TrackedTarget
with_cpa cpa_m tcpa_s alarm_active x = record x {
  last_cpa_m = some cpa_m;
  last_tcpa_s = some tcpa_s;
  cpa_alarm_active = alarm_active;
}

mapped-IsKept :
    (config : TrackerConfig) (mmsi : String) (f : TrackedTarget → TrackedTarget)
    (o : Option TrackedTarget) (y : TrackedTarget)
    → ((x : TrackedTarget) → SameTarget (f x) x)
    → ((x : TrackedTarget) → o ≡ some x → IsKept config mmsi x)
    → map f o ≡ some y
    → IsKept config mmsi y
mapped-IsKept config mmsi f none y same kept e = absurd (cc)
mapped-IsKept config mmsi f (some x) y same kept e =
    subst (λ z. IsKept config mmsi z) (some-injective _ _ e)
      (keep config mmsi (f x) x (same x) (kept x refl))

pub update_target_cpa-IsConsistent :
    (t : AisTracker) (mmsi : String) (cpa_m tcpa_s : F64) (alarm_active : Bool)
    → IsConsistent t
    → IsConsistent (update_target_cpa t mmsi cpa_m tcpa_s alarm_active)
unfolding update_target_cpa with_cpa
update_target_cpa-IsConsistent t mmsi cpa_m tcpa_s alarm_active (kept, u) =
    let f = with_cpa cpa_m tcpa_s alarm_active in
    (
      λ j y e. elim (Bool-cases (mmsi == j)) [
        | inl same ↦
            mapped-IsKept t.config j f (lookup j t.targets) y (λ x. (refl, refl, refl)) (kept j)
              (sym (lookup-update mmsi j f t.targets ∙ rw same refl) ∙ e)
        | inr other ↦ kept j y (sym (lookup-update mmsi j f t.targets ∙ rw other refl) ∙ e)
      ],
      update-IsUnique mmsi f t.targets u,
    )
