-- ===== src/Subscription.antt =====
-- crates/signalk-store/src/subscription.rs: which values of a delta a WebSocket client gets.
-- An `Instant` is a number of nanoseconds, and `duration_since` saturates at 0. `value_ne` is
-- serde_json's `!=` of values.
pub mod Filter
pub mod Pace
use signalk_rs.Prelude.{
  ℕ, ◌+◌, ◌-◌, ◌*◌, ◌^◌, Bool, true, false, Option, none, some, List, [], ◌∷◌, String, leb,
  if◌then◌else◌, unwrap_or, ◌&&◌,
}
use signalk_rs.Prelude.Assoc.{Map}
use signalk_rs.Types.Json.{Json}
use signalk_rs.Types.Path.{matches_pattern}
use signalk_rs.Types.Delta.{PathValue, Update, Delta}

pub data SubscriptionPolicy : Type 0 where
  instant ideal fixed : SubscriptionPolicy

abbrev pub Instant : Type 0
Instant = ℕ

pub record ActiveSubscription : Type 0 where
  pub context : String
  pub path : String
  pub period_ms : ℕ
  pub policy : SubscriptionPolicy
  pub min_period_ms : ℕ
  pub last_sent : Option Instant
  pub last_value : Option Json

unfoldable pub new : String → String → ℕ → SubscriptionPolicy → ℕ → ActiveSubscription
new context path period_ms policy min_period_ms = record {
  context = context;
  path = path;
  period_ms = period_ms;
  policy = policy;
  min_period_ms = min_period_ms;
  last_sent = none;
  last_value = none;
}

-- `now.duration_since(last) >= Duration::from_millis(ms)`, and true where nothing was sent yet.
elapsed : Option Instant → Instant → ℕ → Bool
elapsed none now ms = true
elapsed (some last) now ms = leb (ms * 10 ^ 6) (now - last)

unfoldable pub mark_sent : ActiveSubscription → Instant → Json → ActiveSubscription
mark_sent sub now value = record sub { last_sent = some now; last_value = some value }

-- An update without values, and a delta without updates, are left out.
filtered_update : Update → List PathValue → List Update → List Update
filtered_update u [] rest = rest
filtered_update u (pv ∷ pvs) rest =
    record { source = u.source; timestamp = u.timestamp; values = pv ∷ pvs } ∷ rest

wrap : Option String → List Update → Option Delta
wrap context [] = none
wrap context (u ∷ us) = some (record { context = context; updates = u ∷ us })

module _ (value_ne : Json → Json → Bool) where
  -- The `match` on the policy.
  is_due : SubscriptionPolicy → ActiveSubscription → Instant → Json → Bool
  unfolding elapsed
  is_due SubscriptionPolicy.instant sub now value = elapsed sub.last_sent now sub.min_period_ms
  is_due SubscriptionPolicy.ideal sub now value =
      if value_ne value (unwrap_or sub.last_value Json.null)
      then elapsed sub.last_sent now sub.min_period_ms
      else elapsed sub.last_sent now sub.period_ms
  is_due SubscriptionPolicy.fixed sub now value = elapsed sub.last_sent now sub.period_ms

  unfoldable pub should_deliver : ActiveSubscription → Instant → String → Json → Bool
  unfolding is_due
  should_deliver sub now path value =
      matches_pattern sub.path path && is_due sub.policy sub now value

  -- The loop over the subscriptions for one value: the first that is to deliver it is marked.
  -- `clock k` is the time at the check of the k-th subscription, and at its marking.
  unfoldable pub deliver_value :
      (ℕ → Instant × Instant) → PathValue → Map ActiveSubscription → Map ActiveSubscription × Bool
  unfolding should_deliver mark_sent
  deliver_value clock pv [] = ([], false)
  deliver_value clock pv ((id, sub) ∷ subs) =
      let (subs', delivered) = deliver_value (λ k. clock (k + 1)) pv subs in
      if should_deliver sub (clock 0).0 pv.path pv.value
      then ((id, mark_sent sub (clock 0).1 pv.value) ∷ subs, true)
      else ((id, sub) ∷ subs', delivered)

  unfoldable pub filter_values :
      (ℕ → ℕ → Instant × Instant)
      → List PathValue
      → Map ActiveSubscription
      → Map ActiveSubscription × List PathValue
  unfolding deliver_value
  filter_values clock [] subs = (subs, [])
  filter_values clock (pv ∷ pvs) subs =
      let (subs', delivered) = deliver_value (clock 0) pv subs in
      let (subs'', rest) = filter_values (λ j. clock (j + 1)) pvs subs' in
      (subs'', if delivered then pv ∷ rest else rest)

  unfoldable pub filter_updates :
      (ℕ → ℕ → ℕ → Instant × Instant)
      → List Update
      → Map ActiveSubscription
      → Map ActiveSubscription × List Update
  unfolding filter_values filtered_update
  filter_updates clock [] subs = (subs, [])
  filter_updates clock (u ∷ us) subs =
      let (subs', matched) = filter_values (clock 0) u.values subs in
      let (subs'', rest) = filter_updates (λ i. clock (i + 1)) us subs' in
      (subs'', filtered_update u matched rest)

  unfoldable pub filter_delta :
      (ℕ → ℕ → ℕ → Instant × Instant)
      → Delta
      → Map ActiveSubscription
      → Map ActiveSubscription × Option Delta
  unfolding filter_updates wrap
  filter_delta clock d subs =
      let (subs', updates) = filter_updates clock d.updates subs in (subs', wrap d.context updates)
