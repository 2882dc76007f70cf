-- ===== src/Tests/SubscriptionTests.antt =====
-- crates/signalk-store/src/subscription.rs on a subscription to the speeds.
use signalk_rs.Prelude.{ℕ, ◌≡◌, ◌*◌, ◌^◌, refl, Bool, true, false, none, some, List, [], ◌∷◌, All}
use signalk_rs.Prelude.Assoc.{Map}
use signalk_rs.Types.Json.{Json, string, null}
use signalk_rs.Types.Path.{matches_pattern}
use signalk_rs.Types.Delta.{Source, PathValue, Delta}
use signalk_rs.Subscription.{
  ActiveSubscription, instant, Instant, new, should_deliver, mark_sent, filter_delta,
}
use signalk_rs.Subscription.Filter.{is_wanted, filter_delta-Wanted}
use signalk_rs.Subscription.Pace.{deliveries, Spaced, deliveries-Spaced}

-- Two values differ unless one of them is null.
abbrev value_ne : Json → Json → Bool
value_ne null w = false
value_ne v w = true

abbrev clock : ℕ → ℕ → ℕ → Instant × Instant
clock i j k = (1000000000, 1000000000)

abbrev speeds : ActiveSubscription
speeds = record {
  context = "vessels.self";
  path = "navigation.*";
  period_ms = 1000;
  policy = instant;
  min_period_ms = 200;
  last_sent = none;
  last_value = none;
}

new-speeds : new "vessels.self" "navigation.*" 1000 instant 200 ≡ speeds
unfolding new
new-speeds = refl

abbrev subs : Map ActiveSubscription
subs = ("navigation.*", speeds) ∷ []

abbrev speed : PathValue
speed = record { path = "navigation.speedOverGround"; value = string "3.1" }

abbrev depth : PathValue
depth = record { path = "environment.depth.belowKeel"; value = string "7" }

abbrev log : Source
log = record { label = "log"; type_ = "Plugin"; extra = [] }

abbrev delta : List PathValue → Delta
delta values = record {
  context = some "vessels.self";
  updates = record { source = log; timestamp = 0; values = values } ∷ [];
}

filter_delta-Wanted_example :
    ((delta (speed ∷ [])).context ≡ (delta (speed ∷ depth ∷ [])).context)
    × All (λ u. All (λ pv. is_wanted subs pv.path ≡ true) u.values) (delta (speed ∷ [])).updates
unfolding filter_delta matches_pattern
filter_delta-Wanted_example =
    filter_delta-Wanted value_ne clock (delta (speed ∷ depth ∷ [])) (delta (speed ∷ [])) subs refl

-- Three offers, 0.1 and 0.4 seconds after the first.
abbrev offers : List (Instant × Instant × PathValue)
offers =
    (1000000000, 1000000000, speed)
    ∷ (1100000000, 1100000000, speed)
    ∷ (1500000000, 1500000000, speed)
    ∷ []

deliveries_two :
    deliveries value_ne speeds offers ≡ (1000000000, 1000000000) ∷ (1500000000, 1500000000) ∷ []
unfolding deliveries should_deliver matches_pattern mark_sent
deliveries_two = refl

deliveries-Spaced_example : Spaced (200 * 10 ^ 6) none (deliveries value_ne speeds offers)
deliveries-Spaced_example = deliveries-Spaced value_ne speeds offers
