-- ===== src/Prelude/Text.antt =====
-- Texts: the operations of Rust's `str` that the program calls.
use Prim.Native.String as S
use Prim.Native.String.{String, ◌++◌, len, slice}
use mathlib.Core.Path.{◌≡◌}
use mathlib.Core.Option.{Option, none, some}
use mathlib.Core.Bool.{Bool, ◌||◌}
use text.Mathlib.Text.{◌==◌, starts_with}
use text.Mathlib.TextPositions.{starts_with-append, slice-append_right, len-append}
use signalk_rs.Prelude.Tests.{if◌then◌else◌}

-- `format!("{}{}", s, t)`.
infixr 66 ◌<>◌
abbrev pub ◌<>◌ : String → String → String
s <> t = s ++ t

-- `s.strip_prefix(p)`.
unfoldable pub strip_prefix : String → String → Option String
strip_prefix s p = if starts_with s p then some (slice s (len p) (len s)) else none

-- What was put in front is taken off again.
pub strip_prefix-append : (p t : String) → strip_prefix (p <> t) p ≡ some t
unfolding strip_prefix
strip_prefix-append p t = rw (starts_with-append p t, len-append p t, slice-append_right p t)

-- `s.ends_with(t)`.
unfoldable pub ends_with : String → String → Bool
ends_with S.[] t = S.[] == t
ends_with (S.◌∷◌ c s) t = (S.◌∷◌ c s == t) || ends_with s t
