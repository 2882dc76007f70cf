-- ===== src/Tests/PathTests.antt =====
-- crates/signalk-types/src/path.rs on concrete paths.
use signalk_rs.Prelude.{◌≡◌, ◌↔◌, refl, true, false, String, length}
use signalk_rs.Types.Path.{split, matches_pattern}
use signalk_rs.Types.Path.Match.{Matches, matches_pattern_iff, matches_pattern_depth}

matches_pattern_star : matches_pattern "navigation.*" "navigation.speedOverGround" ≡ true
unfolding matches_pattern
matches_pattern_star = refl

matches_pattern_star_deep : matches_pattern "navigation.*" "navigation.course.nextPoint" ≡ false
unfolding matches_pattern
matches_pattern_star_deep = refl

matches_pattern_rest : matches_pattern "navigation.**" "navigation.course.nextPoint" ≡ true
unfolding matches_pattern
matches_pattern_rest = refl

matches_pattern_iff_example :
    (matches_pattern "vessels.*" "vessels.self" ≡ true)
    ↔ Matches (split "vessels.*") (split "vessels.self")
matches_pattern_iff_example = matches_pattern_iff "vessels.*" "vessels.self"

abbrev position : String
position = "navigation.position"

matches_pattern_depth_example :
    length (split "propulsion.*.revolutions") ≡ length (split "propulsion.port.revolutions")
unfolding split matches_pattern
matches_pattern_depth_example =
    matches_pattern_depth "propulsion.*.revolutions" "propulsion.port.revolutions"
      (λ e. cc, (λ e. cc, (λ e. cc, tt))) refl
