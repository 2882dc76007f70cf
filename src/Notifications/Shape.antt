-- ===== src/Notifications/Shape.antt =====
-- The deltas that `enrich_delta` of crates/signalk-server/src/notifications/manager.rs returns.
use signalk_rs.Prelude.{
  ℕ, ◌≡◌, refl, Bool, true, false, Option, some, List, [], ◌∷◌, String, ◌==◌, starts_with, arith,
  inl, inr, ◌⊎◌, is_some, Bool-cases, Option-cases,
}
use signalk_rs.Types.Json.{Json}
use signalk_rs.Types.Delta.{PathValue, Update, Delta}
use signalk_rs.Types.Notification.{Notification, is_normal}
use signalk_rs.Notifications.{
  NotificationManager, enrich, enrich_value, enrich_values, enrich_updates, enrich_delta,
}

module _ (uuid : ℕ → String) (parse : Json → Option Notification)
    (print : Notification → Option Json) where
  -- The path stays. The value stays too, unless the path is a notification's and the value parses
  -- as one; then it is a printed notification with an id and a status.
  abbrev Enriched : PathValue → PathValue → Type 0
  Enriched pv out =
      (out.path ≡ pv.path)
      × ((out.value ≡ pv.value)
          ⊎ ((n n' : Notification) × (starts_with pv.path "notifications." ≡ true)
              × (parse pv.value ≡ some n)
              × (print n' ≡ some out.value)
              × (n'.state ≡ n.state)
              × (n'.message ≡ n.message)
              × (n'.method ≡ n.method)
              × (is_some n'.status ≡ true)
              × (is_normal n.state ≡ false → is_some n'.id ≡ true)))

  abbrev AllEnriched : List PathValue → List PathValue → Type 0
  AllEnriched [] [] = Unit
  AllEnriched [] (q ∷ qs) = ⊥
  AllEnriched (p ∷ ps) [] = ⊥
  AllEnriched (p ∷ ps) (q ∷ qs) = Enriched p q × AllEnriched ps qs

  abbrev UpdatesEnriched : List Update → List Update → Type 0
  UpdatesEnriched [] [] = Unit
  UpdatesEnriched [] (v ∷ vs) = ⊥
  UpdatesEnriched (u ∷ us) [] = ⊥
  UpdatesEnriched (u ∷ us) (v ∷ vs) =
      ((v.source ≡ u.source) × (v.timestamp ≡ u.timestamp) × AllEnriched u.values v.values)
      × UpdatesEnriched us vs

  abbrev Kept : Notification → Notification → Type 0
  Kept n n' =
      (n'.state ≡ n.state)
      × (n'.message ≡ n.message)
      × (n'.method ≡ n.method)
      × (is_some n'.status ≡ true)
      × (is_normal n.state ≡ false → is_some n'.id ≡ true)

  enrich-Kept :
      (m : NotificationManager) (path : String) (is_plugin : Bool) (n : Notification)
      → Kept n (enrich uuid m path is_plugin n).1
  unfolding enrich
  enrich-Kept m path is_plugin n = ground arith

  enrich_value-Enriched :
      (m : NotificationManager) (is_plugin : Bool) (pv : PathValue)
      → Enriched pv (enrich_value uuid parse print m is_plugin pv).1
  unfolding enrich_value
  enrich_value-Enriched m is_plugin pv = elim (Bool-cases (starts_with pv.path "notifications.")) [
    | inr other ↦ rw other (refl, inl refl)
    | inl here ↦ elim (Option-cases (parse pv.value)) [
      | inl bad ↦ ground arith
      | inr (n, good) ↦ printed n here good
    ]
  ]
    where
      printed :
          (n : Notification)
          → starts_with pv.path "notifications." ≡ true
          → parse pv.value ≡ some n
          → Enriched pv (enrich_value uuid parse print m is_plugin pv).1
      printed n here good =
          let n' = (enrich uuid m pv.path is_plugin n).1 in
          let (state, message, method, status, id) = enrich-Kept m pv.path is_plugin n in
          elim (Option-cases (print n')) [
            | inl e ↦ rw (here, good, e) (refl, inl refl)
            | inr (v, e) ↦
                rw (here, good, e)
                  (refl, inr (n, n', refl, refl, e, state, message, method, status, id))
          ]

  enrich_values-AllEnriched :
      (m : NotificationManager) (is_plugin : Bool) (pvs : List PathValue)
      → AllEnriched pvs (enrich_values uuid parse print m is_plugin pvs).1
  unfolding enrich_values
  enrich_values-AllEnriched m is_plugin [] = tt
  enrich_values-AllEnriched m is_plugin (pv ∷ pvs) = (
    enrich_value-Enriched m is_plugin pv,
    enrich_values-AllEnriched (enrich_value uuid parse print m is_plugin pv).0 is_plugin pvs,
  )

  enrich_updates-UpdatesEnriched :
      (m : NotificationManager) (us : List Update)
      → UpdatesEnriched us (enrich_updates uuid parse print m us).1
  unfolding enrich_updates
  enrich_updates-UpdatesEnriched m [] = tt
  enrich_updates-UpdatesEnriched m (u ∷ us) = (
    (refl, refl, enrich_values-AllEnriched m (u.source.type_ == "Plugin") u.values),
    enrich_updates-UpdatesEnriched
        (enrich_values uuid parse print m (u.source.type_ == "Plugin") u.values).0 us,
  )

  -- Enriching a delta keeps its context and, in order, its updates with their sources, timestamps
  -- and paths. A value changes only where the path is a notification's and the value parses as a
  -- notification: then it is the same notification (state, message, method) printed with a status
  -- and, unless it is a clear, with an id.
  enrich_delta-UpdatesEnriched :
      (m : NotificationManager) (d : Delta)
      → ((enrich_delta uuid parse print m d).1.context ≡ d.context)
        × UpdatesEnriched d.updates (enrich_delta uuid parse print m d).1.updates
  unfolding enrich_delta
  enrich_delta-UpdatesEnriched m d = (refl, enrich_updates-UpdatesEnriched m d.updates)
