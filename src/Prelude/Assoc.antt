-- ===== src/Prelude/Assoc.antt =====
-- `HashMap<String, V>` as an association list. A key that is already there keeps its place and
-- takes the new value; a new key goes to the end. Rust leaves the order of iteration open, and this
-- is one of the orders.
use Prim.Native.String.{String}
use mathlib.Core.Path.{◌≡◌, refl}
use mathlib.Core.List.{List, [], ◌∷◌}
use mathlib.Core.Option.{Option, none, some, map}
use mathlib.Core.Logic.{inl, inr}
use native.Mathlib.Omega.{arith}
use text.Mathlib.Text.{◌==◌}
use text.Mathlib.TextEquality.{eq_iff}
use signalk_rs.Prelude.Tests.{if◌then◌else◌, unwrap_or, is_some, Bool-cases}

abbrev pub Map {ℓ} : Type ℓ → Type ℓ
Map V = List (String × V)

module _ {ℓ} {V : Type ℓ} where
  unfoldable pub lookup : String → Map V → Option V
  lookup key [] = none
  lookup key ((k, v) ∷ entries) = if k == key then some v else lookup key entries

  unfoldable pub insert : String → V → Map V → Map V
  insert key value [] = (key, value) ∷ []
  insert key value ((k, old) ∷ entries) =
      if k == key then (key, value) ∷ entries else (k, old) ∷ insert key value entries

  unfoldable pub remove : String → Map V → Map V
  remove k [] = []
  remove k ((j, w) ∷ m) = if j == k then remove k m else (j, w) ∷ remove k m

  -- `m.entry(k).or_insert(v)`, as the map that results.
  unfoldable pub or_insert : String → V → Map V → Map V
  or_insert k v m = if is_some (lookup k m) then m else insert k v m

  -- `if let Some(v) = m.get_mut(k) { *v = f(v) }`.
  unfoldable pub update : String → (V → V) → Map V → Map V
  update k f [] = []
  update k f ((j, w) ∷ m) = if j == k then (j, f w) ∷ m else (j, w) ∷ update k f m

  pub lookup-insert :
      (key asked : String) (value : V) (entries : Map V)
      → lookup asked (insert key value entries)
        ≡ (if key == asked then some value else lookup asked entries)
  unfolding lookup insert
  lookup-insert key asked value [] = refl
  lookup-insert key asked value ((k, old) ∷ entries) =
      ground (
        arith,
        lookup-insert key asked value entries,
        eq_iff k asked,
        eq_iff k key,
        eq_iff key asked,
      )

  pub lookup-remove :
      (k j : String) (m : Map V) → lookup j (remove k m) ≡ (if k == j then none else lookup j m)
  unfolding lookup remove
  lookup-remove k j [] = ground arith
  lookup-remove k j ((i, w) ∷ m) =
      ground (arith, eq_iff k j, eq_iff i k, eq_iff i j, lookup-remove k j m)

  pub lookup-or_insert :
      (k j : String) (v : V) (m : Map V)
      → lookup j (or_insert k v m)
        ≡ (if k == j then some (unwrap_or (lookup k m) v) else lookup j m)
  unfolding or_insert
  lookup-or_insert k j v m = ground (arith, eq_iff k j, lookup-insert k j v m)

  pub lookup-update :
      (k j : String) (f : V → V) (m : Map V)
      → lookup j (update k f m) ≡ (if k == j then map f (lookup j m) else lookup j m)
  unfolding lookup update
  lookup-update k j f [] = ground arith
  lookup-update k j f ((i, w) ∷ m) =
      ground (arith, eq_iff k j, eq_iff i k, eq_iff i j, lookup-update k j f m)

  -- No key stands twice.
  abbrev pub IsUnique : Map V → Type ℓ
  IsUnique [] = Unit
  IsUnique ((k, v) ∷ m) = (lookup k m ≡ none) × IsUnique m

  pub insert-IsUnique : (k : String) (v : V) (m : Map V) → IsUnique m → IsUnique (insert k v m)
  unfolding insert lookup
  insert-IsUnique k v [] u = (refl, tt)
  insert-IsUnique k v ((j, w) ∷ m) u = elim (Bool-cases (j == k)) [
    | inl e ↦ rw e (rw (← (eq_iff j k).0 e) u.0, u.1)
    | inr n ↦ rw n (
      ground (arith, lookup-insert k j v m, eq_iff k j, eq_iff j k, u.0),
      insert-IsUnique k v m u.1,
    )
  ]

  pub remove-IsUnique : (k : String) (m : Map V) → IsUnique m → IsUnique (remove k m)
  unfolding remove lookup
  remove-IsUnique k [] u = tt
  remove-IsUnique k ((j, w) ∷ m) u = elim (Bool-cases (j == k)) [
    | inl e ↦ rw e (remove-IsUnique k m u.1)
    | inr n ↦ rw n (ground (arith, lookup-remove k j m, u.0), remove-IsUnique k m u.1)
  ]

  pub update-IsUnique : (k : String) (f : V → V) (m : Map V) → IsUnique m → IsUnique (update k f m)
  unfolding update lookup
  update-IsUnique k f [] u = tt
  update-IsUnique k f ((j, w) ∷ m) u = elim (Bool-cases (j == k)) [
    | inl e ↦ rw e u
    | inr n ↦ rw n (ground (arith, lookup-update k j f m, u.0), update-IsUnique k f m u.1)
  ]
