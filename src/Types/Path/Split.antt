-- ===== src/Types/Path/Split.antt =====
-- `split` against `join` of crates/signalk-types/src/path.rs.
use signalk_rs.Prelude.{◌≡◌, List, ◌∷◌, String}
use signalk_rs.Prelude.Parts.{AreFree, join_on-split_on, split_on-join_on}
use signalk_rs.Types.Path.{split, join, dot}

-- Joining the parts of a path gives the path.
pub join-split : (s : String) → join (split s) ≡ s
unfolding split join
join-split s = join_on-split_on dot s

-- A list of parts without a dot.
abbrev ArePlain : List String → Type 0
ArePlain ps = AreFree dot ps

-- Splitting what was joined gives the parts, if there is one and none holds a dot.
split-join : (p : String) (ps : List String) → ArePlain (p ∷ ps) → split (join (p ∷ ps)) ≡ p ∷ ps
unfolding split join
split-join p ps h = split_on-join_on dot p ps h
