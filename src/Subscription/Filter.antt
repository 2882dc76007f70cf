-- ===== src/Subscription/Filter.antt =====
-- What `filter_delta` of crates/signalk-store/src/subscription.rs lets through.
use signalk_rs.Prelude.{
  ℕ, ◌+◌, ◌≡◌, ◌≢◌, refl, ◌∙◌, sym, Bool, true, false, Option, none, some, List, [], ◌∷◌, String,
  ◌||◌, inl, inr, Bool-cases, arith, any, All, subst,
}
use mathlib.Core.Option.{some-injective}
use signalk_rs.Prelude.Assoc.{Map}
use signalk_rs.Types.Json.{Json}
use signalk_rs.Types.Path.{matches_pattern}
use signalk_rs.Types.Delta.{PathValue, Update, Delta}
use signalk_rs.Subscription.{
  SubscriptionPolicy, instant, ideal, fixed, Instant, ActiveSubscription, should_deliver, is_due,
  deliver_value, filter_values, filtered_update, filter_updates, wrap, filter_delta,
}

-- Some subscription's pattern matches the path.
unfoldable pub is_wanted : Map ActiveSubscription → String → Bool
is_wanted [] path = false
is_wanted ((id, sub) ∷ subs) path = matches_pattern sub.path path || is_wanted subs path

wrap-Wanted :
    (context : Option String) (wanted : String → Bool) (out : Delta) (us : List Update)
    → All (λ u. All (λ pv. wanted pv.path ≡ true) u.values) us
    → wrap context us ≡ some out
    → (out.context ≡ context) × All (λ u. All (λ pv. wanted pv.path ≡ true) u.values) out.updates
unfolding wrap
wrap-Wanted context wanted out [] h e = absurd (cc)
wrap-Wanted context wanted out (u ∷ us) h e =
    subst
      (λ o. (o.context ≡ context) × All (λ v. All (λ pv. wanted pv.path ≡ true) v.values) o.updates)
      (some-injective _ _ e) (refl, h)

wrap-ne : (context : Option String) (us : List Update) → us ≢ [] → wrap context us ≢ none
unfolding wrap
wrap-ne context [] h = absurd (h refl)
wrap-ne context (u ∷ us) h = λ e. cc

filtered_update-ne :
    (u : Update) (pvs : List PathValue) (us : List Update)
    → pvs ≢ []
    → filtered_update u pvs us ≢ []
unfolding filtered_update
filtered_update-ne u [] us h = absurd (h refl)
filtered_update-ne u (pv ∷ pvs) us h = λ e. cc

module _ (value_ne : Json → Json → Bool) where
  deliver_value-is_wanted :
      (clock : ℕ → Instant × Instant) (pv : PathValue) (subs : Map ActiveSubscription)
      (path : String)
      → is_wanted (deliver_value value_ne clock pv subs).0 path ≡ is_wanted subs path
  unfolding deliver_value is_wanted
  deliver_value-is_wanted clock pv [] path = refl
  deliver_value-is_wanted clock pv ((id, sub) ∷ subs) path =
      ground (arith, deliver_value-is_wanted (λ k. clock (k + 1)) pv subs path)

  deliver_value_sound :
      (clock : ℕ → Instant × Instant) (pv : PathValue) (subs : Map ActiveSubscription)
      → (deliver_value value_ne clock pv subs).1 ≡ true
      → is_wanted subs pv.path ≡ true
  unfolding deliver_value is_wanted should_deliver
  deliver_value_sound clock pv [] h = h
  deliver_value_sound clock pv ((id, sub) ∷ subs) h =
      ground (arith, deliver_value_sound (λ k. clock (k + 1)) pv subs)

  filter_values-is_wanted :
      (clock : ℕ → ℕ → Instant × Instant) (pvs : List PathValue) (subs : Map ActiveSubscription)
      (path : String)
      → is_wanted (filter_values value_ne clock pvs subs).0 path ≡ is_wanted subs path
  unfolding filter_values
  filter_values-is_wanted clock [] subs path = refl
  filter_values-is_wanted clock (pv ∷ pvs) subs path =
      filter_values-is_wanted (λ j. clock (j + 1)) pvs (deliver_value value_ne (clock 0) pv subs).0
        path
      ∙ deliver_value-is_wanted (clock 0) pv subs path

  filter_values-Wanted :
      (clock : ℕ → ℕ → Instant × Instant) (pvs : List PathValue) (subs : Map ActiveSubscription)
      (wanted : String → Bool)
      → ((path : String) → is_wanted subs path ≡ wanted path)
      → All (λ pv. wanted pv.path ≡ true) (filter_values value_ne clock pvs subs).1
  unfolding filter_values
  filter_values-Wanted clock [] subs wanted same = tt
  filter_values-Wanted clock (pv ∷ pvs) subs wanted same =
      let subs' = (deliver_value value_ne (clock 0) pv subs).0 in
      let ih =
        filter_values-Wanted (λ j. clock (j + 1)) pvs subs' wanted
          (λ path. deliver_value-is_wanted (clock 0) pv subs path ∙ same path) in
      elim (Bool-cases (deliver_value value_ne (clock 0) pv subs).1) [
        | inl d ↦ rw d (sym (same pv.path) ∙ deliver_value_sound (clock 0) pv subs d, ih)
        | inr n ↦ rw n ih
      ]

  filtered_update-Wanted :
      (wanted : String → Bool) (u : Update) (pvs : List PathValue) (us : List Update)
      → All (λ pv. wanted pv.path ≡ true) pvs
      → All (λ v. All (λ pv. wanted pv.path ≡ true) v.values) us
      → All (λ v. All (λ pv. wanted pv.path ≡ true) v.values) (filtered_update u pvs us)
  unfolding filtered_update
  filtered_update-Wanted wanted u [] us h k = k
  filtered_update-Wanted wanted u (pv ∷ pvs) us h k = (h, k)

  filter_updates-Wanted :
      (clock : ℕ → ℕ → ℕ → Instant × Instant) (us : List Update) (subs : Map ActiveSubscription)
      (wanted : String → Bool)
      → ((path : String) → is_wanted subs path ≡ wanted path)
      → All
          (λ u. All (λ pv. wanted pv.path ≡ true) u.values)
          (filter_updates value_ne clock us subs).1
  unfolding filter_updates
  filter_updates-Wanted clock [] subs wanted same = tt
  filter_updates-Wanted clock (u ∷ us) subs wanted same =
      filtered_update-Wanted wanted u (filter_values value_ne (clock 0) u.values subs).1 _
        (filter_values-Wanted (clock 0) u.values subs wanted same)
        (filter_updates-Wanted (λ i. clock (i + 1)) us
          (filter_values value_ne (clock 0) u.values subs).0 wanted
          (λ path. filter_values-is_wanted (clock 0) u.values subs path ∙ same path))

  -- A delta that is let through has the context of the incoming one, and each of its values is for
  -- a path that some subscription's pattern matches.
  pub filter_delta-Wanted :
      (clock : ℕ → ℕ → ℕ → Instant × Instant) (d out : Delta) (subs : Map ActiveSubscription)
      → (filter_delta value_ne clock d subs).1 ≡ some out
      → (out.context ≡ d.context)
        × All (λ u. All (λ pv. is_wanted subs pv.path ≡ true) u.values) out.updates
  unfolding filter_delta
  filter_delta-Wanted clock d out subs e =
      wrap-Wanted d.context (is_wanted subs) out (filter_updates value_ne clock d.updates subs).1
        (filter_updates-Wanted clock d.updates subs (is_wanted subs) (λ path. refl)) e

-- Nothing was sent yet for any of the subscriptions.
abbrev AreFresh : Map ActiveSubscription → Type 0
AreFresh [] = Unit
AreFresh ((id, sub) ∷ subs) = (sub.last_sent ≡ none) × AreFresh subs

module _ (value_ne : Json → Json → Bool) where
  is_due-fresh :
      (policy : SubscriptionPolicy) (sub : ActiveSubscription) (now : Instant) (value : Json)
      → sub.last_sent ≡ none
      → is_due value_ne policy sub now value ≡ true
  unfolding is_due
  is_due-fresh instant sub now value e = ground arith
  is_due-fresh ideal sub now value e = ground arith
  is_due-fresh fixed sub now value e = ground arith

  -- For a fresh set a value is delivered exactly if it is wanted; an unwanted one changes nothing.
  deliver_value-fresh :
      (clock : ℕ → Instant × Instant) (pv : PathValue) (subs : Map ActiveSubscription)
      → AreFresh subs
      → (deliver_value value_ne clock pv subs).1 ≡ is_wanted subs pv.path
  unfolding deliver_value is_wanted should_deliver
  deliver_value-fresh clock pv [] f = refl
  deliver_value-fresh clock pv ((id, sub) ∷ subs) f = ground (
    arith,
    is_due-fresh sub.policy sub (clock 0).0 pv.value f.0,
    deliver_value-fresh (λ k. clock (k + 1)) pv subs f.1,
  )

  deliver_value-unwanted :
      (clock : ℕ → Instant × Instant) (pv : PathValue) (subs : Map ActiveSubscription)
      → is_wanted subs pv.path ≡ false
      → deliver_value value_ne clock pv subs ≡ (subs, false)
  unfolding deliver_value is_wanted should_deliver
  deliver_value-unwanted clock pv [] h = refl
  deliver_value-unwanted clock pv ((id, sub) ∷ subs) h =
      ground (arith, deliver_value-unwanted (λ k. clock (k + 1)) pv subs)

  filter_values-fresh :
      (clock : ℕ → ℕ → Instant × Instant) (pvs : List PathValue) (subs : Map ActiveSubscription)
      → AreFresh subs
      → any (λ pv. is_wanted subs pv.path) pvs ≡ true
      → (filter_values value_ne clock pvs subs).1 ≢ []
  unfolding filter_values
  filter_values-fresh clock [] subs f h = λ e. cc
  filter_values-fresh clock (pv ∷ pvs) subs f h = elim (Bool-cases (is_wanted subs pv.path)) [
    | inl w ↦ rw (deliver_value-fresh (clock 0) pv subs f, w) (λ e. cc)
    | inr n ↦
        rw (deliver_value-unwanted (clock 0) pv subs n)
          (filter_values-fresh (λ j. clock (j + 1)) pvs subs f (ground arith))
  ]

  filter_values-unwanted :
      (clock : ℕ → ℕ → Instant × Instant) (pvs : List PathValue) (subs : Map ActiveSubscription)
      → any (λ pv. is_wanted subs pv.path) pvs ≡ false
      → filter_values value_ne clock pvs subs ≡ (subs, [])
  unfolding filter_values
  filter_values-unwanted clock [] subs h = refl
  filter_values-unwanted clock (pv ∷ pvs) subs h =
      rw (deliver_value-unwanted (clock 0) pv subs (ground arith))
        (rw (filter_values-unwanted (λ j. clock (j + 1)) pvs subs (ground arith)) refl)

  filter_updates-unwanted :
      (clock : ℕ → ℕ → ℕ → Instant × Instant) (us : List Update) (subs : Map ActiveSubscription)
      → any (λ u. any (λ pv. is_wanted subs pv.path) u.values) us ≡ false
      → filter_updates value_ne clock us subs ≡ (subs, [])
  unfolding filter_updates filtered_update
  filter_updates-unwanted clock [] subs h = refl
  filter_updates-unwanted clock (u ∷ us) subs h =
      rw (filter_values-unwanted (clock 0) u.values subs (ground arith))
        (rw (filter_updates-unwanted (λ i. clock (i + 1)) us subs (ground arith)) refl)

  filter_updates-fresh :
      (clock : ℕ → ℕ → ℕ → Instant × Instant) (us : List Update) (subs : Map ActiveSubscription)
      → AreFresh subs
      → any (λ u. any (λ pv. is_wanted subs pv.path) u.values) us ≡ true
      → (filter_updates value_ne clock us subs).1 ≢ []
  unfolding filter_updates
  filter_updates-fresh clock [] subs f h = λ e. cc
  filter_updates-fresh clock (u ∷ us) subs f h =
      elim (Bool-cases (any (λ pv. is_wanted subs pv.path) u.values)) [
        | inl w ↦ filtered_update-ne u _ _ (filter_values-fresh (clock 0) u.values subs f w)
        | inr n ↦ rw (filter_values-unwanted (clock 0) u.values subs n) (
            unfold filtered_update in
            filter_updates-fresh (λ i. clock (i + 1)) us subs f (ground arith))
      ]

  -- The first delta after new subscriptions is let through if one of its values is for a path that
  -- some subscription's pattern matches, whatever the policies and the times.
  filter_delta-fresh :
      (clock : ℕ → ℕ → ℕ → Instant × Instant) (d : Delta) (subs : Map ActiveSubscription)
      → AreFresh subs
      → any (λ u. any (λ pv. is_wanted subs pv.path) u.values) d.updates ≡ true
      → (filter_delta value_ne clock d subs).1 ≢ none
  unfolding filter_delta
  filter_delta-fresh clock d subs f w =
      wrap-ne d.context _ (filter_updates-fresh clock d.updates subs f w)

  -- A delta with no value for a path that some subscription's pattern matches is not let through,
  -- and no subscription changes.
  filter_delta-unwanted :
      (clock : ℕ → ℕ → ℕ → Instant × Instant) (d : Delta) (subs : Map ActiveSubscription)
      → any (λ u. any (λ pv. is_wanted subs pv.path) u.values) d.updates ≡ false
      → filter_delta value_ne clock d subs ≡ (subs, none)
  unfolding filter_delta wrap
  filter_delta-unwanted clock d subs n = rw (filter_updates-unwanted clock d.updates subs n) refl
