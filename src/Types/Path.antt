-- ===== src/Types/Path.antt =====
-- crates/signalk-types/src/path.rs: dot-separated paths and patterns over them.
pub mod Split
pub mod Match
use Prim.Native.Char.{Char, code}
use Prim.Native.String as S
use signalk_rs.Prelude.Parts.{split_on, join_on}
use signalk_rs.Prelude.{
  ℕ, Bool, true, false, List, [], ◌∷◌, String, ◌==◌, eqb, if◌then◌else◌, ◌<>◌, ◌&&◌, ◌||◌,
}

abbrev pub dot : Char
dot = "."

-- `path.split('.')`.
unfoldable pub split : String → List String
unfolding split_on
split s = split_on dot s

-- `parts.join(".")`.
unfoldable pub join : List String → String
unfolding join_on
join ps = join_on dot ps

unfoldable normalize_context : String → String
normalize_context context = if context == "self" then "vessels.self" else context

unfoldable resolve_self : String → String → String
resolve_self context self_uri =
    if context == "vessels.self" then "vessels." <> self_uri else context

unfoldable pub matches_parts : List String → List String → Bool
matches_parts [] [] = true
matches_parts [] (q ∷ qs) = false
matches_parts (p ∷ ps) [] = p == "**"
matches_parts (p ∷ ps) (q ∷ qs) =
    if p == "**" then true else (p == "*" || p == q) && matches_parts ps qs

unfoldable pub matches_pattern : String → String → Bool
unfolding split matches_parts
matches_pattern pattern path = matches_parts (split pattern) (split path)
