-- ===== src/Types/Path/Match.antt =====
-- What a pattern matches: `matches_pattern` of crates/signalk-types/src/path.rs.
use signalk_rs.Prelude.{
  ◌≡◌, ◌≢◌, refl, sym, ap, ◌∙◌, ◌↔◌, inl, inr, true, List, [], ◌∷◌, String, suc, ◌==◌, eq_iff,
  Bool-cases, arith, length, All, subst,
}
use signalk_rs.Types.Path.Split.{join-split}
use signalk_rs.Types.Path.{split, join, matches_parts, matches_pattern}

-- `**` matches whatever is left, `*` one part, any other part itself.
pub data Matches : List String → List String → Type 0 where
  done : Matches [] []
  rest : {ps qs : List String} (p : String) → p ≡ "**" → Matches (p ∷ ps) qs
  one : {ps qs : List String} (p q : String) → p ≡ "*" → Matches ps qs → Matches (p ∷ ps) (q ∷ qs)
  same : {ps qs : List String} (p q : String) → p ≡ q → Matches ps qs → Matches (p ∷ ps) (q ∷ qs)

matches_parts_sound : (ps qs : List String) → matches_parts ps qs ≡ true → Matches ps qs
unfolding matches_parts
matches_parts_sound [] [] h = done
matches_parts_sound [] (q ∷ qs) h = absurd (cc)
matches_parts_sound (p ∷ ps) [] h = rest p ((eq_iff p "**").0 h)
matches_parts_sound (p ∷ ps) (q ∷ qs) h = elim (Bool-cases (p == "**")) [
  | inl e ↦ rest p ((eq_iff p "**").0 e)
  | inr n ↦ elim (Bool-cases (p == "*")) [
    | inl e ↦ one p q ((eq_iff p "*").0 e) (matches_parts_sound ps qs (ground arith))
    | inr m ↦ same p q ((eq_iff p q).0 (ground arith)) (matches_parts_sound ps qs (ground arith))
  ]
]

matches_parts_complete : {ps qs : List String} → Matches ps qs → matches_parts ps qs ≡ true
unfolding matches_parts
matches_parts_complete done = refl
matches_parts_complete {qs = []} (rest p e) = (eq_iff p "**").1 e
matches_parts_complete {qs = q ∷ qs} (rest p e) = rw ((eq_iff p "**").1 e)
matches_parts_complete (one p q e m) = ground (arith, (eq_iff p "*").1 e, matches_parts_complete m)
matches_parts_complete (same p q e m) = ground (arith, (eq_iff p q).1 e, matches_parts_complete m)

-- The matcher decides `Matches` on the parts of the pattern and of the path.
pub matches_pattern_iff :
    (pattern_text path : String)
    → (matches_pattern pattern_text path ≡ true) ↔ Matches (split pattern_text) (split path)
unfolding matches_pattern
matches_pattern_iff pattern_text path =
    (matches_parts_sound (split pattern_text) (split path), λ m. matches_parts_complete m)

Matches-length :
    {ps qs : List String} → Matches ps qs → All (λ p. p ≢ "**") ps → length ps ≡ length qs
Matches-length done a = refl
Matches-length (rest p e) a = absurd (a.0 e)
Matches-length (one p q e m) a = ap suc (Matches-length m a.1)
Matches-length (same p q e m) a = ap suc (Matches-length m a.1)

-- A pattern with no part `**` matches only paths of as many parts as it has, also where its last
-- part is `*`.
pub matches_pattern_depth :
    (pattern_text path : String)
    → All (λ p. p ≢ "**") (split pattern_text)
    → matches_pattern pattern_text path ≡ true
    → length (split pattern_text) ≡ length (split path)
matches_pattern_depth pattern_text path a h =
    Matches-length ((matches_pattern_iff pattern_text path).0 h) a

Matches-plain :
    {ps qs : List String} → Matches ps qs → All (λ p. (p ≢ "**") × (p ≢ "*")) ps → ps ≡ qs
Matches-plain done a = refl
Matches-plain (rest p e) a = absurd (a.0.0 e)
Matches-plain (one p q e m) a = absurd (a.0.1 e)
Matches-plain (same p q e m) a = cc (Matches-plain m a.1)

Matches-refl : (ps : List String) → Matches ps ps
Matches-refl [] = done
Matches-refl (p ∷ ps) = same p p refl (Matches-refl ps)

-- A pattern without wildcards matches the path that is spelled like it, and no other.
matches_pattern_plain :
    (pattern_text path : String)
    → All (λ p. (p ≢ "**") × (p ≢ "*")) (split pattern_text)
    → (matches_pattern pattern_text path ≡ true) ↔ (pattern_text ≡ path)
matches_pattern_plain pattern_text path a = (
  λ h.
      sym (join-split pattern_text)
      ∙ (ap join (Matches-plain ((matches_pattern_iff pattern_text path).0 h) a) ∙ join-split path),
  λ e.
      (matches_pattern_iff pattern_text path).1
        (subst (λ t. Matches (split pattern_text) (split t)) e (Matches-refl (split pattern_text))),
)
