-- ===== src/Types/Float.antt =====
-- The operations of `f64` that the program calls, on the bit patterns. The constants are the bits of
-- the literals in the source.
use signalk_rs.Prelude.{ℕ, Bool, Option, List}
use signalk_rs.Types.Json.{Json, F64}

-- `as_f64` and `value` are serde_json's conversions from and to a JSON value.
pub record FloatOps : Type 0 where
  pub lt : F64 → F64 → Bool
  pub le : F64 → F64 → Bool
  pub is_finite : F64 → Bool
  pub add : F64 → F64 → F64
  pub sub : F64 → F64 → F64
  pub mul : F64 → F64 → F64
  pub div : F64 → F64 → F64
  pub rem_euclid : F64 → F64 → F64
  pub sqrt : F64 → F64
  pub sin : F64 → F64
  pub cos : F64 → F64
  pub asin : F64 → F64
  pub atan2 : F64 → F64 → F64
  pub powi : F64 → ℕ → F64
  pub to_radians : F64 → F64
  pub abs : F64 → F64
  pub neg : F64 → F64
  pub signum : F64 → F64
  pub max : F64 → F64 → F64
  pub powf : F64 → F64 → F64
  pub ne : F64 → F64 → Bool
  pub clamp : F64 → F64 → F64 → F64
  pub sum : List F64 → F64
  pub as_f64 : Json → Option F64
  pub value : F64 → Json

-- 0.0, 2.0, π and 6371000.0.
abbrev pub zero : F64
zero = 0

abbrev pub two : F64
two = 0x4000000000000000

abbrev pub pi : F64
pi = 0x400921FB54442D18

abbrev pub earth_radius : F64
earth_radius = 0x41584DAE00000000
