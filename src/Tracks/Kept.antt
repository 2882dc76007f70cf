-- ===== src/Tracks/Kept.antt =====
-- The ends of a track stay: crates/plugins/tracks/src/simplify.rs.
use signalk_rs.Prelude.{
  ℕ, zero, suc, ◌+◌, ◌-◌, ◌<◌, ◌≡◌, refl, ap, subst, ◌∙◌, Bool, true, false, ◌||◌, Option, none,
  some, List, [], ◌∷◌, length, leb, if◌then◌else◌, arith, ◌>>=◌,
}
use mathlib.Core.List as L
use signalk_rs.Types.Json.{F64}
use signalk_rs.Types.Float.{FloatOps}
use signalk_rs.Types.Float as Z
use signalk_rs.Tracks.{
  Point, split_at, rdp_indices, set_true, simplify_track_points, all_false, kept,
}

abbrev pub first_of : {A : Type 0} → List A → Option A
first_of [] = none
first_of (x ∷ xs) = some x

abbrev pub last_of : {A : Type 0} → List A → Option A
last_of [] = none
last_of (x ∷ []) = some x
last_of (x ∷ (y ∷ ys)) = last_of (y ∷ ys)

-- The flag of an index.
abbrev flag : List Bool → ℕ → Bool
flag [] i = false
flag (b ∷ bs) zero = b
flag (b ∷ bs) (suc i) = flag bs i

flag-set_true : (bs : List Bool) (i j : ℕ) → flag bs i ≡ true → flag (set_true bs j) i ≡ true
unfolding set_true
flag-set_true [] i j e = e
flag-set_true (b ∷ bs) zero zero e = refl
flag-set_true (b ∷ bs) (suc i) zero e = e
flag-set_true (b ∷ bs) zero (suc j) e = e
flag-set_true (b ∷ bs) (suc i) (suc j) e = flag-set_true bs i j e

set_true-flag : (bs : List Bool) (i : ℕ) → i < length bs → flag (set_true bs i) i ≡ true
unfolding set_true
set_true-flag [] i h = absurd (omega (arith, h))
set_true-flag (b ∷ bs) zero h = refl
set_true-flag (b ∷ bs) (suc i) h = set_true-flag bs i (omega (arith, h))

length-all_false : {A : Type 0} (xs : List A) → length (all_false xs) ≡ length xs
unfolding all_false
length-all_false [] = refl
length-all_false (x ∷ xs) = ap suc (length-all_false xs)

length-set_true : (bs : List Bool) (i : ℕ) → length (set_true bs i) ≡ length bs
unfolding set_true
length-set_true [] i = refl
length-set_true (b ∷ bs) zero = refl
length-set_true (b ∷ bs) (suc i) = ap suc (length-set_true bs i)

-- Where there are flags, that of the index is set.
abbrev Keeps : ℕ → Option (List Bool) → Type 0
Keeps i none = Unit
Keeps i (some bs) = flag bs i ≡ true

choice-Keeps :
    (i : ℕ) (c d : Bool) (bs : List Bool) (o : Option (List Bool))
    → flag bs i ≡ true
    → Keeps i o
    → Keeps i (if c then some bs else if d then o else some bs)
choice-Keeps i true d bs o h h' = h
choice-Keeps i false true bs o h h' = h'
choice-Keeps i false false bs o h h' = h

bind-Keeps :
    (i : ℕ) (o : Option (List Bool)) (f : List Bool → Option (List Bool))
    → Keeps i o
    → ((bs : List Bool) → flag bs i ≡ true → Keeps i (f bs))
    → Keeps i (o >>= f)
bind-Keeps i none f h h' = tt
bind-Keeps i (some bs) f h h' = h' bs h

first_of-kept :
    {A : Type 0} (xs : List A) (bs : List Bool)
    → flag bs 0 ≡ true
    → first_of (kept xs bs) ≡ first_of xs
unfolding kept
first_of-kept [] bs h = refl
first_of-kept (x ∷ xs) [] h = absurd (cc)
first_of-kept (x ∷ xs) (true ∷ bs) h = refl
first_of-kept (x ∷ xs) (false ∷ bs) h = absurd (cc)

last_of-cons :
    {A : Type 0} (b : Bool) (x y : A) (ys zs : List A)
    → last_of zs ≡ last_of (y ∷ ys)
    → last_of (if b then x ∷ zs else zs) ≡ last_of (y ∷ ys)
last_of-cons false x y ys zs h = h
last_of-cons true x y ys (z ∷ zs) h = h
last_of-cons true x y [] [] h = absurd (cc)
last_of-cons true x y (y' ∷ ys) [] h = last_of-cons true x y' ys [] h

last_of-kept :
    {A : Type 0} (xs : List A) (bs : List Bool)
    → flag bs (length xs - 1) ≡ true
    → last_of (kept xs bs) ≡ last_of xs
unfolding kept
last_of-kept [] bs h = refl
last_of-kept (x ∷ xs) [] h = absurd (cc)
last_of-kept (x ∷ []) (true ∷ bs) h = refl
last_of-kept (x ∷ []) (false ∷ bs) h = absurd (cc)
last_of-kept (x ∷ (y ∷ ys)) (b ∷ bs) h =
    let index : suc (length ys) ≡ suc (length (y ∷ ys) - 1) = omega arith in
    let from : length (x ∷ (y ∷ ys)) - 1 ≡ suc (length ys) = omega arith in
    last_of-cons b x y ys (kept (y ∷ ys) bs)
      (last_of-kept (y ∷ ys) bs (subst (λ i. flag (b ∷ bs) i ≡ true) (from ∙ index) h))

more_than_none : (n : ℕ) (b : Bool) → (leb n 2 || b) ≡ false → 0 < n
more_than_none zero b e = absurd (cc)
more_than_none (suc n) b e = omega arith

module _ (F : FloatOps) where
  rdp_indices-Keeps :
      (n : ℕ) (points : List Point) (epsilon : F64) (start end : ℕ) (keep : List Bool) (i : ℕ)
      → flag keep i ≡ true
      → Keeps i (rdp_indices F n points epsilon start end keep)
  unfolding rdp_indices
  rdp_indices-Keeps zero points epsilon start end keep i h = tt
  rdp_indices-Keeps (suc n) points epsilon start end keep i h =
      let far = split_at F points start end in
      let first = rdp_indices F n points epsilon start far.1 (set_true keep far.1) in
      choice-Keeps i (leb end (start + 1)) (F.lt epsilon far.0) keep
        (first >>= rdp_indices F n points epsilon far.1 end) h
        (bind-Keeps i first (rdp_indices F n points epsilon far.1 end)
          (rdp_indices-Keeps n points epsilon start far.1 (set_true keep far.1) i
            (flag-set_true keep i far.1 h))
          (λ bs h'. rdp_indices-Keeps n points epsilon far.1 end bs i h'))

  -- The ends of a list and of what is kept of it, where there is such a list.
  abbrev SameEnds : {A : Type 0} → List A → Option (List A) → Type 0
  SameEnds xs none = Unit
  SameEnds xs (some ys) = (first_of ys ≡ first_of xs) × (last_of ys ≡ last_of xs)

  kept-SameEnds :
      {A : Type 0} (xs : List A) (flags : Option (List Bool))
      → Keeps 0 flags
      → Keeps (length xs - 1) flags
      → SameEnds xs (flags >>= λ bs. some (kept xs bs))
  kept-SameEnds xs none h h' = tt
  kept-SameEnds xs (some bs) h h' = (first_of-kept xs bs h, last_of-kept xs bs h')

  choice-SameEnds :
      {A : Type 0} (b : Bool) (xs : List A) (o : Option (List A))
      → (b ≡ false → SameEnds xs o)
      → SameEnds xs (if b then some xs else o)
  choice-SameEnds true xs o h = (refl, refl)
  choice-SameEnds false xs o h = h refl

  found-SameEnds :
      {A : Type 0} (xs ys : List A) (o : Option (List A))
      → o ≡ some ys
      → SameEnds xs o
      → (first_of ys ≡ first_of xs) × (last_of ys ≡ last_of xs)
  found-SameEnds xs ys none e h = absurd (cc)
  found-SameEnds xs ys (some zs) e h = subst (λ o. SameEnds xs o) e h

  simplify_track_points-SameEnds :
      {A : Type 0} (coords : A → Point) (points : List A) (epsilon : F64)
      → SameEnds points (simplify_track_points F coords points epsilon)
  unfolding simplify_track_points
  simplify_track_points-SameEnds coords points epsilon =
      let last = length points - 1 in
      let keep = set_true (set_true (all_false points) 0) last in
      let flags = rdp_indices F (length points) (L.map coords points) epsilon 0 last keep in
      choice-SameEnds (leb (length points) 2 || F.le epsilon Z.zero) points
        (flags >>= λ bs. some (kept points bs))
        (λ long.
          let off = all_false points in
          let first_set = set_true off 0 in
          let some_left : 0 < length points =
            more_than_none (length points) (F.le epsilon Z.zero) long in
          let flag_first =
            set_true-flag off 0 (omega (arith, length-all_false points, some_left)) in
          kept-SameEnds points flags
            (rdp_indices-Keeps (length points) (L.map coords points) epsilon 0 last keep 0
              (flag-set_true first_set 0 last flag_first))
            (rdp_indices-Keeps (length points) (L.map coords points) epsilon 0 last keep last (
              set_true-flag first_set last
                (omega (arith, length-set_true off 0, length-all_false points, some_left)))))

  -- The track that the simplification gives has the first and the last point of the original.
  pub simplify_track_points-ends :
      {A : Type 0} (coords : A → Point) (points : List A) (epsilon : F64) (simplified : List A)
      → simplify_track_points F coords points epsilon ≡ some simplified
      → (first_of simplified ≡ first_of points) × (last_of simplified ≡ last_of points)
  simplify_track_points-ends coords points epsilon simplified e =
      found-SameEnds points simplified (simplify_track_points F coords points epsilon) e
        (simplify_track_points-SameEnds coords points epsilon)
