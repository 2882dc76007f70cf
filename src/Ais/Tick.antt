-- ===== src/Ais/Tick.antt =====
-- What `tick` of crates/plugins/ais-status/src/tracker.rs makes of every target.
use signalk_rs.Prelude.{
  ℕ, ◌+◌, ◌-◌, ◌≡◌, refl, ap, ◌∙◌, Bool, true, false, Option, none, some, List, [], ◌∷◌, String,
  ◌==◌, ltb, subst, if◌then◌else◌, any, inl, inr, arith, Bool-cases, eq_iff, ◌>>=◌,
}
use signalk_rs.Prelude.Assoc.{Map, lookup, remove, lookup-remove, IsUnique}
use signalk_rs.Subscription.{Instant}
use mathlib.Core.Option.{map}
use signalk_rs.Ais.{
  TargetStatus, acquiring, tracking, lost, ClassThresholds, TrackedTarget, AisTracker,
}
use signalk_rs.Ais.Tracker.{
  get_target, tick, sweep, remove_all, fate_of, fate, Fate, to_lose, to_remove,
}

-- The status after a silence of some length, where the target stays.
abbrev after_silence : TargetStatus → ClassThresholds → ℕ → Option TargetStatus
after_silence acquiring h silence = if ltb h.confirm_window silence then none else some acquiring
after_silence tracking h silence = if ltb h.lost_after silence then some lost else some tracking
after_silence lost h silence =
    if ltb (h.lost_after + h.remove_after) silence then none else some lost

-- The target after a tick, where it stays.
abbrev pub survivor : Instant → TrackedTarget → Option TrackedTarget
survivor now x =
    map (λ status. record x { status = status })
      (after_silence x.status x.thresholds (now - x.last_seen))

unfoldable pub aged : Fate → TrackedTarget → TrackedTarget
aged to_lose x = record x { status = lost }
aged _ x = x

is_to_remove : Fate → Bool
is_to_remove to_remove = true
is_to_remove _ = false

goes : Instant → Option TrackedTarget → Bool
unfolding is_to_remove
goes now none = false
goes now (some x) = is_to_remove (fate x now)

pub lookup-sweep :
    (now : Instant) (k : String) (m : Map TrackedTarget)
    → lookup k (sweep now m).0 ≡ map (λ x. aged (fate x now) x) (lookup k m)
unfolding sweep lookup aged
lookup-sweep now k [] = refl
lookup-sweep now k ((j, x) ∷ m) = ground (arith, lookup-sweep now k m)

any-to_go :
    (now : Instant) (k : String) (m : Map TrackedTarget)
    → IsUnique m
    → any (λ j. j == k) (sweep now m).2 ≡ goes now (lookup k m)
unfolding sweep lookup goes is_to_remove
any-to_go now k [] u = refl
any-to_go now k ((j, x) ∷ m) u = elim (Bool-cases (j == k)) [
  | inl e ↦
      let ih : any (λ j. j == k) (sweep now m).2 ≡ false =
        any-to_go now k m u.1
        ∙ ap (goes now) (subst (λ i. lookup i m ≡ none) ((eq_iff j k).0 e) u.0) in
      ground (arith, ih, e)
  | inr n ↦ ground (arith, any-to_go now k m u.1, n)
]

lookup-remove_all :
    (ks : List String) (k : String) (m : Map TrackedTarget)
    → lookup k (remove_all ks m) ≡ (if any (λ j. j == k) ks then none else lookup k m)
unfolding remove_all
lookup-remove_all [] k m = refl
lookup-remove_all (j ∷ ks) k m =
    ground (arith, lookup-remove_all ks k (remove j m), lookup-remove j k m)

outcome :
    (s : TargetStatus) (x : TrackedTarget) (now : Instant)
    → x.status ≡ s
    → (if is_to_remove (fate_of s x now) then none else some (aged (fate_of s x now) x))
      ≡ map
          (λ status. record x { status = status })
          (after_silence s x.thresholds (now - x.last_seen))
unfolding fate_of is_to_remove aged
outcome acquiring x now e = ground (arith, e)
outcome tracking x now e = ground (arith, e)
outcome lost x now e = ground (arith, e)

outcome_at :
    (o : Option TrackedTarget) (now : Instant)
    → (if goes now o then none else map (λ x. aged (fate x now) x) o) ≡ (o >>= survivor now)
unfolding goes
outcome_at none now = refl
outcome_at (some x) now = outcome x.status x now refl

-- A tick keeps a target, marks it lost or drops it by its status and the time since it was last
-- heard, and touches no other field of it, where no MMSI stands twice.
pub get_target-tick :
    (t : AisTracker) (now : Instant) (mmsi : String)
    → IsUnique t.targets
    → get_target (tick t now).0 mmsi ≡ (get_target t mmsi >>= survivor now)
unfolding get_target tick
get_target-tick t now mmsi u =
    lookup-remove_all (sweep now t.targets).2 mmsi (sweep now t.targets).0
    ∙ rw (any-to_go now mmsi t.targets u, lookup-sweep now mmsi t.targets)
        (outcome_at (lookup mmsi t.targets) now)

-- The status is tracking and the silence is longer than its class allows.
abbrev is_newly_lost : TargetStatus → ClassThresholds → ℕ → Bool
is_newly_lost tracking h silence = ltb h.lost_after silence
is_newly_lost _ h silence = false

abbrev falls_silent : Instant → Option TrackedTarget → Bool
falls_silent now none = false
falls_silent now (some x) = is_newly_lost x.status x.thresholds (now - x.last_seen)

is_to_lose : Fate → Bool
is_to_lose to_lose = true
is_to_lose _ = false

is_to_lose-fate_of :
    (s : TargetStatus) (x : TrackedTarget) (now : Instant)
    → is_to_lose (fate_of s x now) ≡ is_newly_lost s x.thresholds (now - x.last_seen)
unfolding is_to_lose fate_of
is_to_lose-fate_of acquiring x now = ground arith
is_to_lose-fate_of tracking x now = ground arith
is_to_lose-fate_of lost x now = ground arith

any-transitions :
    (now : Instant) (k : String) (m : Map TrackedTarget)
    → IsUnique m
    → any (λ tr. tr.mmsi == k) (sweep now m).1 ≡ falls_silent now (lookup k m)
unfolding sweep lookup is_to_lose
any-transitions now k [] u = refl
any-transitions now k ((j, x) ∷ m) u = elim (Bool-cases (j == k)) [
  | inl e ↦
      let ih : any (λ tr. tr.mmsi == k) (sweep now m).1 ≡ false =
        any-transitions now k m u.1
        ∙ ap (falls_silent now) (subst (λ i. lookup i m ≡ none) ((eq_iff j k).0 e) u.0) in
      ground (arith, ih, e, is_to_lose-fate_of x.status x now)
  | inr n ↦ ground (arith, any-transitions now k m u.1, n, is_to_lose-fate_of x.status x now)
]

-- A tick reports a transition of an MMSI exactly if its target was tracking and has been silent for
-- longer than its class's `lost_after`, where no MMSI stands twice.
any-tick :
    (t : AisTracker) (now : Instant) (mmsi : String)
    → IsUnique t.targets
    → any (λ tr. tr.mmsi == mmsi) (tick t now).1 ≡ falls_silent now (get_target t mmsi)
unfolding tick get_target
any-tick t now mmsi u = any-transitions now mmsi t.targets u
