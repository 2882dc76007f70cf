-- ===== src/Notifications/Life.antt =====
-- The life of a notification in crates/signalk-server/src/notifications/manager.rs under a
-- sequence of calls.
use signalk_rs.Prelude.{
  ℕ, suc, ◌≡◌, refl, ◌∙◌, inl, inr, Bool, true, false, none, some, List, [], ◌∷◌, String, ◌==◌,
  eq_iff, if◌then◌else◌, unwrap_or, arith, Bool-cases, All,
}
use mathlib.Core.Option.{map}
use signalk_rs.Prelude.Assoc.{lookup, lookup-insert, lookup-remove, lookup-update}
use signalk_rs.Types.Notification.{Notification, is_normal}
use signalk_rs.Notifications.{
  NotificationEntry, NotificationManager, new_entry, enrich, silence, acknowledge, set_silenced,
  set_acknowledged,
}

-- The calls that change the manager.
pub data Call : Type 0 where
  enriches : String → Bool → Notification → Call
  silences acknowledges : String → Call

-- The call is no clear of the path.
abbrev pub Keeps : String → Call → Type 0
Keeps p (enriches path is_plugin n) = (path ≡ p) → is_normal n.state ≡ false
Keeps p (silences path) = Unit
Keeps p (acknowledges path) = Unit

-- The later entry is the same notification, and a flag that was set stays set.
pub record Continues (e f : NotificationEntry) : Type 0 where
  pub id : f.id ≡ e.id
  pub plugin_originated : f.plugin_originated ≡ e.plugin_originated
  pub silenced : e.silenced ≡ true → f.silenced ≡ true
  pub acknowledged : e.acknowledged ≡ true → f.acknowledged ≡ true

Continues-trans : {e f g : NotificationEntry} → Continues e f → Continues f g → Continues e g
Continues-trans a b = record {
  id = b.id ∙ a.id;
  plugin_originated = b.plugin_originated ∙ a.plugin_originated;
  silenced = λ h. b.silenced (a.silenced h);
  acknowledged = λ h. b.acknowledged (a.acknowledged h);
}

module _ (uuid : ℕ → String) where
  unfoldable pub step : NotificationManager → Call → NotificationManager
  step m (enriches path is_plugin n) = (enrich uuid m path is_plugin n).0
  step m (silences path) = silence m path
  step m (acknowledges path) = acknowledge m path

  unfoldable pub run : NotificationManager → List Call → NotificationManager
  run m [] = m
  run m (c ∷ cs) = run (step m c) cs

  pub lookup-enrich :
      (m : NotificationManager) (path : String) (is_plugin : Bool) (n : Notification) (p : String)
      → lookup p (enrich uuid m path is_plugin n).0.entries ≡ (
          if path == p
          then if is_normal n.state
            then none
            else some (unwrap_or (lookup path m.entries) (new_entry uuid m is_plugin))
          else lookup p m.entries)
  unfolding enrich
  lookup-enrich m path is_plugin n p = ground (
    arith,
    lookup-insert path p (new_entry uuid m is_plugin) m.entries,
    lookup-remove path p m.entries,
    eq_iff path p,
  )

  pub enrich-drawn :
      (m : NotificationManager) (path : String) (is_plugin : Bool) (n : Notification)
      → (enrich uuid m path is_plugin n).0.drawn ≡ (
          if is_normal n.state
          then m.drawn
          else elim (lookup path m.entries) [ none ↦ suc m.drawn | some _ ↦ m.drawn ])
  unfolding enrich
  enrich-drawn m path is_plugin n = ground arith

  pub lookup-silence :
      (m : NotificationManager) (path p : String)
      → lookup p (silence m path).entries
        ≡ (if path == p then map set_silenced (lookup p m.entries) else lookup p m.entries)
  unfolding silence
  lookup-silence m path p = lookup-update path p set_silenced m.entries

  pub lookup-acknowledge :
      (m : NotificationManager) (path p : String)
      → lookup p (acknowledge m path).entries
        ≡ (if path == p then map set_acknowledged (lookup p m.entries) else lookup p m.entries)
  unfolding acknowledge
  lookup-acknowledge m path p = lookup-update path p set_acknowledged m.entries

  step-Continues :
      (m : NotificationManager) (c : Call) (p : String) (e : NotificationEntry)
      → Keeps p c
      → lookup p m.entries ≡ some e
      → (f : NotificationEntry) × (lookup p (step m c).entries ≡ some f) × Continues e f
  unfolding step
  step-Continues m (enriches path is_plugin n) p e k h = (
    e,
    lookup-enrich m path is_plugin n p ∙ elim (Bool-cases (path == p)) [
      | inl same ↦ let q = (eq_iff path p).0 same in rw (same, k q, q, h) refl
      | inr other ↦ rw other h
    ],
    ground arith,
  )
  step-Continues m (silences path) p e k h = (
    if path == p then set_silenced e else e,
    lookup-silence m path p ∙ ground arith,
    ground arith,
  )
  step-Continues m (acknowledges path) p e k h = (
    if path == p then set_acknowledged e else e,
    lookup-acknowledge m path p ∙ ground arith,
    ground arith,
  )

  -- A live notification stays the same through any calls that do not clear it: it keeps its id and
  -- its origin, and once it was silenced or acknowledged it stays so, however often it is raised.
  pub run-Continues :
      (m : NotificationManager) (cs : List Call) (p : String) (e : NotificationEntry)
      → All (Keeps p) cs
      → lookup p m.entries ≡ some e
      → (f : NotificationEntry) × (lookup p (run m cs).entries ≡ some f) × Continues e f
  unfolding run
  run-Continues m [] p e k h = (e, h, ground arith)
  run-Continues m (c ∷ cs) p e k h =
      let (f, hf, first) = step-Continues m c p e k.0 h in
      let (g, hg, rest) = run-Continues (step m c) cs p f k.1 hf in
      (g, hg, Continues-trans first rest)
