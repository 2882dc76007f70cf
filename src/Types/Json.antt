-- ===== src/Types/Json.antt =====
-- serde_json::Value as the program sees it: its constructors and the accessors that are called.
-- An `f64` is its bit pattern; what is computed with it is a parameter where it is needed.
use signalk_rs.Prelude.{
  ℕ, zero, suc, List, [], ◌∷◌, Bool, Option, none, some, String, ◌==◌, if◌then◌else◌,
}

-- An IEEE double by its 64 bits.
abbrev pub F64 : Type 0
F64 = ℕ

-- `neg_int n` is -(n + 1).
pub data Number : Type 0 where
  pos_int : ℕ → Number
  neg_int : ℕ → Number
  float : F64 → Number

mutual
  pub data Json : Type 0 where
    null : Json
    bool : Bool → Json
    number : Number → Json
    string : String → Json
    array : Items → Json
    object : Fields → Json

  pub data Items : Type 0 where
    nil : Items
    cons : Json → Items → Items

  pub data Fields : Type 0 where
    end : Fields
    field : String → Json → Fields → Fields

unfoldable pub get_field : String → Fields → Option Json
get_field k end = none
get_field k (field j v fs) = if j == k then some v else get_field k fs

-- `value.get(key)` with a text key.
unfoldable pub get : Json → String → Option Json
unfolding get_field
get (object fs) k = get_field k fs
get _ k = none

unfoldable item_at : Items → ℕ → Option Json
item_at nil i = none
item_at (cons v vs) zero = some v
item_at (cons v vs) (suc i) = item_at vs i

-- `value.get(index)` with a number.
unfoldable pub get_index : Json → ℕ → Option Json
unfolding item_at
get_index (array vs) i = item_at vs i
get_index _ i = none

unfoldable items : Items → List Json
items nil = []
items (cons v vs) = v ∷ items vs

unfoldable pub as_array : Json → Option (List Json)
unfolding items
as_array (array vs) = some (items vs)
as_array _ = none

unfoldable pub as_str : Json → Option String
as_str (string s) = some s
as_str _ = none

-- A map with the key set: the old value gives way, and a new key goes to the end.
unfoldable pub set_field : String → Json → Fields → Fields
set_field k v end = field k v end
set_field k v (field j w fs) = if j == k then field k v fs else field j w (set_field k v fs)
