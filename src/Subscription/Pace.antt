-- ===== src/Subscription/Pace.antt =====
-- How often a subscription of crates/signalk-store/src/subscription.rs delivers.
use Prim.Native.Nat.{min}
use signalk_rs.Prelude.{
  ℕ, ◌-◌, ◌*◌, ◌^◌, ◌≤◌, ◌≡◌, refl, Bool, true, Option, none, some, List, [], ◌∷◌, String,
  if◌then◌else◌, inl, inr, Bool-cases, arith,
}
use signalk_rs.Types.Json.{Json}
use signalk_rs.Types.Delta.{PathValue}
use signalk_rs.Subscription.{
  SubscriptionPolicy, instant, ideal, fixed, Instant, ActiveSubscription, should_deliver, mark_sent,
  is_due,
}

-- The least time between two deliveries, in milliseconds.
abbrev gap_ms : SubscriptionPolicy → ℕ → ℕ → ℕ
gap_ms instant min_period period = min_period
gap_ms ideal min_period period = min min_period period
gap_ms fixed min_period period = period

-- Offers of a value at a time of check and a time of marking; the times of those delivered.
unfoldable pub deliveries :
    (Json → Json → Bool)
    → ActiveSubscription
    → List (Instant × Instant × PathValue)
    → List (Instant × Instant)
unfolding should_deliver mark_sent
deliveries value_ne sub [] = []
deliveries value_ne sub ((now, marked, pv) ∷ offers) =
    let refused = deliveries value_ne sub offers in
    let delivered = (now, marked) ∷ deliveries value_ne (mark_sent sub marked pv.value) offers in
    if should_deliver value_ne sub now pv.path pv.value then delivered else refused

-- Each delivery is checked at least `gap` nanoseconds after the one before it was marked.
abbrev pub Spaced : ℕ → Option Instant → List (Instant × Instant) → Type 0
Spaced gap last [] = Unit
Spaced gap none ((now, marked) ∷ ts) = Spaced gap (some marked) ts
Spaced gap (some last) ((now, marked) ∷ ts) = (gap ≤ now - last) × Spaced gap (some marked) ts

Spaced-cons :
    (gap : ℕ) (last : Option Instant) (now marked : Instant) (ts : List (Instant × Instant))
    → ((l : Instant) → last ≡ some l → gap ≤ now - l)
    → Spaced gap (some marked) ts
    → Spaced gap last ((now, marked) ∷ ts)
Spaced-cons gap none now marked ts first rest = rest
Spaced-cons gap (some l) now marked ts first rest = (first l refl, rest)

module _ (value_ne : Json → Json → Bool) where
  is_due-gap :
      (policy : SubscriptionPolicy) (sub : ActiveSubscription) (now : Instant) (value : Json)
      (last : Instant)
      → sub.last_sent ≡ some last
      → is_due value_ne policy sub now value ≡ true
      → gap_ms policy sub.min_period_ms sub.period_ms * 10 ^ 6 ≤ now - last
  unfolding is_due
  is_due-gap instant sub now value last e h = ground arith
  is_due-gap ideal sub now value last e h = ground arith
  is_due-gap fixed sub now value last e h = ground arith

  should_deliver-gap :
      (sub : ActiveSubscription) (now : Instant) (path : String) (value : Json) (last : Instant)
      → sub.last_sent ≡ some last
      → should_deliver value_ne sub now path value ≡ true
      → gap_ms sub.policy sub.min_period_ms sub.period_ms * 10 ^ 6 ≤ now - last
  unfolding should_deliver
  should_deliver-gap sub now path value last e h =
      is_due-gap sub.policy sub now value last e (ground arith)

  -- Whatever is offered and whenever, two deliveries of one subscription are apart by at least its
  -- minimum period (policy instant), its period (fixed), or the smaller of the two (ideal). The time
  -- counts from the marking of the earlier to the check of the later.
  pub deliveries-Spaced :
      (sub : ActiveSubscription) (offers : List (Instant × Instant × PathValue))
      → Spaced
          (gap_ms sub.policy sub.min_period_ms sub.period_ms * 10 ^ 6)
          sub.last_sent
          (deliveries value_ne sub offers)
  unfolding deliveries
  deliveries-Spaced sub [] = tt
  deliveries-Spaced sub ((now, marked, pv) ∷ offers) =
      elim (Bool-cases (should_deliver value_ne sub now pv.path pv.value)) [
        | inl due ↦ rw due (
            Spaced-cons (gap_ms sub.policy sub.min_period_ms sub.period_ms * 10 ^ 6) sub.last_sent
              now marked _ (λ l e. should_deliver-gap sub now pv.path pv.value l e due)
              (unfold mark_sent in deliveries-Spaced (mark_sent sub marked pv.value) offers))
        | inr not_due ↦ rw not_due (deliveries-Spaced sub offers)
      ]
