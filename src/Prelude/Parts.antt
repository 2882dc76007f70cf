-- ===== src/Prelude/Parts.antt =====
-- Texts as parts between a separating character: Rust's `split(sep)` and `join(sep)`.
use Prim.Native.Char.{Char, code}
use Prim.Native.String as S
use Prim.Native.String.{String}
use Prim.Native.String.append
use mathlib.Core.Path.{◌≡◌, refl, sym, ap, ◌∙◌}
use mathlib.Core.Bool.{false}
use mathlib.Core.List.{List, [], ◌∷◌}
use mathlib.Core.Logic.{inl, inr}
use text.Mathlib.TextEquality.{Char-path}
use signalk_rs.Prelude.Tests.{eqb, eqb_iff, if◌then◌else◌, Bool-cases}
use signalk_rs.Prelude.Text.{◌<>◌}

-- Puts a character in front of the first part.
unfoldable cons_head : Char → List String → List String
cons_head c [] = []
cons_head c (p ∷ ps) = S.◌∷◌ c p ∷ ps

module _ (sep : Char) where
  -- The empty text has one part, itself.
  unfoldable pub split_on : String → List String
  unfolding cons_head
  split_on S.[] = "" ∷ []
  split_on (S.◌∷◌ c s) =
      let rest = split_on s in if eqb (code c) (code sep) then "" ∷ rest else cons_head c rest

  unfoldable pub join_on : List String → String
  join_on [] = ""
  join_on (p ∷ []) = p
  join_on (p ∷ q ∷ ps) = p <> S.◌∷◌ sep (join_on (q ∷ ps))

  -- There is always a first part.
  pub split_on-parts : (s : String) → (p : String) × (ps : List String) × (split_on s ≡ p ∷ ps)
  unfolding split_on
  split_on-parts S.[] = ("", [], refl)
  split_on-parts (S.◌∷◌ c s) =
      let (p, ps, e) = split_on-parts s in
      elim (Bool-cases (eqb (code c) (code sep))) [
        | inl d ↦ ("", split_on s, rw d)
        | inr n ↦ (S.◌∷◌ c p, ps, rw (n, e))
      ]

  join_on-empty :
      (q : String) (qs : List String) → join_on ("" ∷ q ∷ qs) ≡ S.◌∷◌ sep (join_on (q ∷ qs))
  unfolding join_on
  join_on-empty q qs = append.nil (S.◌∷◌ sep (join_on (q ∷ qs)))

  join_on-cons_head :
      (c : Char) (p : String) (ps : List String)
      → join_on (cons_head c (p ∷ ps)) ≡ S.◌∷◌ c (join_on (p ∷ ps))
  unfolding join_on cons_head
  join_on-cons_head c p [] = refl
  join_on-cons_head c p (q ∷ ps) = append.cons c p (S.◌∷◌ sep (join_on (q ∷ ps)))

  -- Joining the parts of a text gives the text.
  pub join_on-split_on : (s : String) → join_on (split_on s) ≡ s
  unfolding split_on
  join_on-split_on S.[] = unfold join_on in refl
  join_on-split_on (S.◌∷◌ c s) =
      let (p, ps, e) = split_on-parts s in
      let ih = ap join_on (sym e) ∙ join_on-split_on s in
      elim (Bool-cases (eqb (code c) (code sep))) [
        | inl d ↦
            rw (d, e)
              (join_on-empty p ps
                ∙ (ap (S.◌∷◌ sep) ih
                    ∙ ap (λ k. S.◌∷◌ k s)
                        (sym (Char-path c sep ((eqb_iff (code c) (code sep)).0 d)))))
        | inr n ↦ rw (n, e) (join_on-cons_head c p ps ∙ ap (S.◌∷◌ c) ih)
      ]

  -- No character of the text is the separator.
  unfoldable pub IsFree : String → Type 0
  IsFree S.[] = Unit
  IsFree (S.◌∷◌ c s) = (eqb (code c) (code sep) ≡ false) × IsFree s

  split_on-free : (p : String) → IsFree p → split_on p ≡ p ∷ []
  unfolding split_on IsFree
  split_on-free S.[] h = refl
  split_on-free (S.◌∷◌ c s) h = rw (h.0, split_on-free s h.1)

  split_on-sep : (t : String) → split_on (S.◌∷◌ sep t) ≡ "" ∷ split_on t
  unfolding split_on
  split_on-sep t = rw ((eqb_iff (code sep) (code sep)).1 refl) refl

  pub split_on-append : (p t : String) → IsFree p → split_on (p <> S.◌∷◌ sep t) ≡ p ∷ split_on t
  unfolding split_on IsFree
  split_on-append S.[] t h = ap split_on (append.nil (S.◌∷◌ sep t)) ∙ split_on-sep t
  split_on-append (S.◌∷◌ c s) t h =
      ap split_on (append.cons c s (S.◌∷◌ sep t)) ∙ rw (h.0, split_on-append s t h.1) refl

  -- A list of parts none of which holds the separator.
  abbrev pub AreFree : List String → Type 0
  AreFree [] = Unit
  AreFree (p ∷ ps) = IsFree p × AreFree ps

  -- Splitting what was joined gives the parts, if there is one and none holds the separator.
  pub split_on-join_on :
      (p : String) (ps : List String) → AreFree (p ∷ ps) → split_on (join_on (p ∷ ps)) ≡ p ∷ ps
  unfolding join_on
  split_on-join_on p [] h = split_on-free p h.0
  split_on-join_on p (q ∷ ps) h =
      split_on-append p (join_on (q ∷ ps)) h.0 ∙ ap (◌∷◌ p) (split_on-join_on q ps h.1)
