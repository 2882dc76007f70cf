-- ===== src/Server/Plugins/Trace.antt =====
-- What the server holds of a plugin (crates/signalk-server/src/plugins/host.rs).
use signalk_rs.Prelude.{
  ◌≡◌, refl, Bool, true, false, not, ◌||◌, Option, none, some, List, [], ◌∷◌, ◌++◌, String, ◌==◌,
  any, retain, All, arith, eq_refl, inl, inr, Bool-cases,
}
use mathlib.Core.Option.{map}
use signalk_rs.Prelude.Assoc.{Map, lookup, insert, remove, lookup-remove}
use signalk_rs.Server.DeltaFilter.{DeltaFilterChain, DeltaInputHandler}
use signalk_rs.Server.DeltaFilter as F
use signalk_rs.Server.Resources.{ResourceProvider, ResourceProviderRegistry, drop_plugin}
use signalk_rs.Server.Resources as R
use signalk_rs.Server.Plugins.{Host, forget}

or_false : (a b : Bool) → (a || b) ≡ false → (a ≡ false) × (b ≡ false)
or_false true b e = absurd (cc)
or_false false b e = (refl, e)

both_false : (a b : Bool) → a ≡ false → b ≡ false → (a || b) ≡ false
both_false true b e f = absurd (cc)
both_false false b e f = f

module _ {X : Type 0} (p : X → Bool) where
  any-retain-not : (xs : List X) → any p (retain (λ x. not (p x)) xs) ≡ false
  any-retain-not [] = refl
  any-retain-not (x ∷ xs) = elim (Bool-cases (p x)) [
    | inl e ↦ rw e (any-retain-not xs)
    | inr n ↦ rw (n, n) (any-retain-not xs)
  ]

  any-retain : (keep : X → Bool) (xs : List X) → any p xs ≡ false → any p (retain keep xs) ≡ false
  any-retain keep [] h = refl
  any-retain keep (x ∷ xs) h =
      let (first, later) : (p x ≡ false) × (any p xs ≡ false) = or_false (p x) (any p xs) h in
      elim (Bool-cases (keep x)) [
        | inl e ↦ rw e (both_false (p x) _ first (any-retain keep xs later))
        | inr n ↦ rw n (any-retain keep xs later)
      ]

  pub any-append : (xs ys : List X) → any p xs ≡ false → any p ys ≡ false → any p (xs ++ ys) ≡ false
  any-append [] ys h k = k
  any-append (x ∷ xs) ys h k =
      let (first, later) : (p x ≡ false) × (any p xs ≡ false) = or_false (p x) (any p xs) h in
      both_false (p x) _ first (any-append xs ys later k)

pub any-insert :
    {V : Type 0} (p : String × V → Bool) (key : String) (value : V) (m : Map V)
    → any p m ≡ false
    → p (key, value) ≡ false
    → any p (insert key value m) ≡ false
unfolding insert
any-insert p key value [] h k = rw k refl
any-insert p key value ((j, w) ∷ m) h k =
    let (first, later) : (p (j, w) ≡ false) × (any p m ≡ false) = or_false (p (j, w)) (any p m) h in
    elim (Bool-cases (j == key)) [
      | inl e ↦ rw e (both_false (p (key, value)) (any p m) k later)
      | inr n ↦ rw n (both_false (p (j, w)) _ first (any-insert p key value m later k))
    ]

-- No list of providers has one of the plugin.
abbrev pub NoProvider : (W : Type 0) → String → Option (ResourceProviderRegistry W) → Type 0
NoProvider W id none = Unit
NoProvider W id (some r) = All (λ e. lookup id e.1 ≡ none) r.providers

-- Nothing in the tables of the server is the plugin's.
pub record NoTrace (H G W A : Type 0) (id : String) (h : Host H G W A) : Type 0 where
  pub route : lookup id h.route_table ≡ none
  pub discovery : lookup id h.plugin_routes ≡ none
  pub put_handler : any (λ e. e.1.0 == id) h.put_handler_registry ≡ false
  pub put : any (λ e. e.1 == id) h.put_handlers ≡ false
  pub filter : any (λ e. e.0 == id) h.delta_filter.handlers ≡ false
  pub provider : NoProvider W id h.resource_providers

drop_plugin-none :
    (W : Type 0) (id : String) (m : Map (Map (ResourceProvider W)))
    → All (λ e. lookup id e.1 ≡ none) (drop_plugin W id m)
unfolding drop_plugin
drop_plugin-none W id [] = tt
drop_plugin-none W id ((t, list) ∷ m) =
    (ground (arith, lookup-remove id id list, eq_refl id), drop_plugin-none W id m)

drop_plugin-keeps :
    (W : Type 0) (id other : String) (m : Map (Map (ResourceProvider W)))
    → All (λ e. lookup id e.1 ≡ none) m
    → All (λ e. lookup id e.1 ≡ none) (drop_plugin W other m)
unfolding drop_plugin
drop_plugin-keeps W id other [] h = tt
drop_plugin-keeps W id other ((t, list) ∷ m) h =
    (ground (arith, lookup-remove other id list, h.0), drop_plugin-keeps W id other m h.1)

lookup-remove-same : {V : Type 0} (id : String) (m : Map V) → lookup id (remove id m) ≡ none
lookup-remove-same id m = ground (arith, lookup-remove id id m, eq_refl id)

lookup-remove-absent :
    {V : Type 0} (id other : String) (m : Map V)
    → lookup id m ≡ none
    → lookup id (remove other m) ≡ none
lookup-remove-absent id other m e = ground (arith, lookup-remove other id m, e)

module _ (H G W A : Type 0) (device_id : A → String) where
  unregistered-NoProvider :
      (id : String) (o : Option (ResourceProviderRegistry W))
      → NoProvider W id (map (λ r. R.unregister W r id) o)
  unfolding R.unregister
  unregistered-NoProvider id none = tt
  unregistered-NoProvider id (some r) = drop_plugin-none W id r.providers

  unregister-NoProvider :
      (id other : String) (o : Option (ResourceProviderRegistry W))
      → NoProvider W id o
      → NoProvider W id (map (λ r. R.unregister W r other) o)
  unfolding R.unregister
  unregister-NoProvider id other none h = tt
  unregister-NoProvider id other (some r) h = drop_plugin-keeps W id other r.providers h

  -- Stopping a plugin removes all that is its own.
  pub forget-NoTrace :
      (h : Host H G W A) (id : String) → NoTrace H G W A id (forget H G W A device_id h id)
  unfolding forget F.remove_plugin
  forget-NoTrace h id = record {
    route = lookup-remove-same id h.route_table;
    discovery = lookup-remove-same id h.plugin_routes;
    put_handler = any-retain-not (λ e. e.1.0 == id) h.put_handler_registry;
    put = any-retain-not (λ e. e.1 == id) h.put_handlers;
    filter = any-retain-not (λ e. e.0 == id) h.delta_filter.handlers;
    provider = unregistered-NoProvider id h.resource_providers;
  }

  pub forget-keeps :
      (h : Host H G W A) (id other : String)
      → NoTrace H G W A id h
      → NoTrace H G W A id (forget H G W A device_id h other)
  unfolding forget F.remove_plugin
  forget-keeps h id other n = record {
    route = lookup-remove-absent id other h.route_table n.route;
    discovery = lookup-remove-absent id other h.plugin_routes n.discovery;
    put_handler = any-retain (λ e. e.1.0 == id) _ h.put_handler_registry n.put_handler;
    put = any-retain (λ e. e.1 == id) _ h.put_handlers n.put;
    filter = any-retain (λ e. e.0 == id) _ h.delta_filter.handlers n.filter;
    provider = unregister-NoProvider id other h.resource_providers n.provider;
  }
