-- ===== src/Notifications/Ids.antt =====
-- The ids that crates/signalk-server/src/notifications/manager.rs gives.
use signalk_rs.Prelude.{
  ℕ, ◌<◌, ◌≤◌, ◌≡◌, ◌≢◌, refl, sym, ◌∙◌, inl, inr, Bool, false, none, some, List, [], ◌∷◌, String,
  ◌==◌, eq_iff, eq_refl, arith, Bool-cases, Option-cases, ◌⊎◌, subst,
}
use signalk_rs.Prelude.Assoc.{lookup}
use signalk_rs.Types.Notification.{Notification, is_normal}
use signalk_rs.Notifications.{
  NotificationEntry, NotificationManager, new, enrich, silence, acknowledge,
}
use signalk_rs.Notifications.Life.{
  Call, enriches, silences, acknowledges, step, run, lookup-enrich, lookup-silence,
  lookup-acknowledge, enrich-drawn,
}

module _ (uuid : ℕ → String) where
  -- Every live id is a UUID that was drawn, and two paths never share one.
  pub record IsDistinct (m : NotificationManager) : Type 0 where
    pub known :
        (p : String) (e : NotificationEntry)
        → lookup p m.entries ≡ some e
        → (k : ℕ) × (k < m.drawn) × (e.id ≡ uuid k)
    pub distinct :
        (p q : String) (e f : NotificationEntry)
        → lookup p m.entries ≡ some e
        → lookup q m.entries ≡ some f
        → e.id ≡ f.id
        → p ≡ q

  new-IsDistinct : IsDistinct new
  unfolding new lookup
  new-IsDistinct = record { known = λ p e h. absurd (cc); distinct = λ p q e f h k i. absurd (cc) }

  path_of : Call → String
  path_of (enriches path is_plugin n) = path
  path_of (silences path) = path
  path_of (acknowledges path) = path

  -- An entry after a call was there before under its id, or its id was drawn by the call.
  abbrev Origin : NotificationManager → Call → String → NotificationEntry → Type 0
  Origin m c p e =
      ((e' : NotificationEntry) × (lookup p m.entries ≡ some e') × (e.id ≡ e'.id))
      ⊎ ((p ≡ path_of c) × (e.id ≡ uuid m.drawn) × (m.drawn < (step uuid m c).drawn))

  raise-Origin :
      (m : NotificationManager) (path : String) (is_plugin : Bool) (n : Notification)
      (e : NotificationEntry)
      → lookup path (enrich uuid m path is_plugin n).0.entries ≡ some e
      → Origin m (enriches path is_plugin n) path e
  unfolding step path_of
  raise-Origin m path is_plugin n e h = elim (Option-cases (lookup path m.entries)) [
    | inl absent ↦ inr (
      refl,
      ground (arith, lookup-enrich uuid m path is_plugin n path, eq_refl path),
      ground (
        arith,
        lookup-enrich uuid m path is_plugin n path,
        eq_refl path,
        enrich-drawn uuid m path is_plugin n,
      ),
    )
    | inr (e', there) ↦
        inl (e', there, ground (arith, lookup-enrich uuid m path is_plugin n path, eq_refl path))
  ]

  step-Origin :
      (m : NotificationManager) (c : Call) (p : String) (e : NotificationEntry)
      → lookup p (step uuid m c).entries ≡ some e
      → Origin m c p e
  unfolding step path_of
  step-Origin m (enriches path is_plugin n) p e h = elim (Bool-cases (path == p)) [
    | inl same ↦
        let q = (eq_iff path p).0 same in
        subst (λ r. Origin m (enriches path is_plugin n) r e) q
          (raise-Origin m path is_plugin n e
            (subst (λ r. lookup r (enrich uuid m path is_plugin n).0.entries ≡ some e) (sym q) h))
    | inr other ↦ inl (e, ground (arith, lookup-enrich uuid m path is_plugin n p), refl)
  ]
  step-Origin m (silences path) p e h = elim (Option-cases (lookup p m.entries)) [
    | inl absent ↦ absurd (ground (arith, lookup-silence uuid m path p))
    | inr (e', there) ↦ inl (e', there, ground (arith, lookup-silence uuid m path p))
  ]
  step-Origin m (acknowledges path) p e h = elim (Option-cases (lookup p m.entries)) [
    | inl absent ↦ absurd (ground (arith, lookup-acknowledge uuid m path p))
    | inr (e', there) ↦ inl (e', there, ground (arith, lookup-acknowledge uuid m path p))
  ]

  drawn-le-step : (m : NotificationManager) (c : Call) → m.drawn ≤ (step uuid m c).drawn
  unfolding step silence acknowledge
  drawn-le-step m (enriches path is_plugin n) = ground (arith, enrich-drawn uuid m path is_plugin n)
  drawn-le-step m (silences path) = omega arith
  drawn-le-step m (acknowledges path) = omega arith

  drawn-le-run : (m : NotificationManager) (cs : List Call) → m.drawn ≤ (run uuid m cs).drawn
  unfolding run
  drawn-le-run m [] = omega arith
  drawn-le-run m (c ∷ cs) = omega (arith, drawn-le-step m c, drawn-le-run (step uuid m c) cs)

  module _ (uuid_injective : (i j : ℕ) → uuid i ≡ uuid j → i ≡ j) where
    known_ne :
        (m : NotificationManager) (e : NotificationEntry) (p : String)
        → IsDistinct m
        → lookup p m.entries ≡ some e
        → e.id ≢ uuid m.drawn
    known_ne m e p d h i =
        let (k, lt, eq) = d.known p e h in
        absurd (omega (arith, uuid_injective k m.drawn (sym eq ∙ i)))

    step-IsDistinct :
        (m : NotificationManager) (c : Call) → IsDistinct m → IsDistinct (step uuid m c)
    step-IsDistinct m c d = record {
      known = λ p e h. elim (step-Origin m c p e h) [
        | inl (e', there, i) ↦
            let (k, lt, eq) = d.known p e' there in (k, omega (arith, drawn-le-step m c), i ∙ eq)
        | inr (_, i, grew) ↦ (m.drawn, grew, i)
      ];
      distinct = λ p q e f h k i. elim (step-Origin m c p e h) [
        | inl (e', there, ie) ↦ elim (step-Origin m c q f k) [
          | inl (f', too, jf) ↦ d.distinct p q e' f' there too (sym ie ∙ (i ∙ jf))
          | inr (_, jf, _) ↦ absurd (known_ne m e' p d there (sym ie ∙ (i ∙ jf)))
        ]
        | inr (pe, ie, _) ↦ elim (step-Origin m c q f k) [
          | inl (f', too, jf) ↦ absurd (known_ne m f' q d too (sym jf ∙ (sym i ∙ ie)))
          | inr (qe, _, _) ↦ pe ∙ sym qe
        ]
      ];
    }

    run_from-IsDistinct :
        (m : NotificationManager) (cs : List Call) → IsDistinct m → IsDistinct (run uuid m cs)
    unfolding run
    run_from-IsDistinct m [] d = d
    run_from-IsDistinct m (c ∷ cs) d =
        run_from-IsDistinct (step uuid m c) cs (step-IsDistinct m c d)

    -- If no UUID is drawn twice, then after any calls on a new manager every live notification has
    -- an id that was drawn, and no two paths have the same id.
    pub run-IsDistinct : (cs : List Call) → IsDistinct (run uuid new cs)
    run-IsDistinct cs = run_from-IsDistinct new cs new-IsDistinct

    -- If no UUID is drawn twice and the live notifications have distinct drawn ids: whatever calls
    -- follow, raising at a path that then has no live notification gives an id that differs from the
    -- id of every notification that was live before the calls, at that path or another.
    pub raise-new_id :
        (m : NotificationManager) (cs : List Call) (p q : String) (e : NotificationEntry)
        (is_plugin : Bool) (n : Notification)
        → IsDistinct m
        → lookup p m.entries ≡ some e
        → lookup q (run uuid m cs).entries ≡ none
        → is_normal n.state ≡ false
        → (i : String) × ((enrich uuid (run uuid m cs) q is_plugin n).1.id ≡ some i) × (i ≢ e.id)
    unfolding enrich
    raise-new_id m cs p q e is_plugin n d h gone active = (
      uuid (run uuid m cs).drawn,
      ground (arith, gone),
      λ same.
          let (k, lt, eq) = d.known p e h in
          omega (arith, drawn-le-run m cs, uuid_injective (run uuid m cs).drawn k (same ∙ eq)),
    )
