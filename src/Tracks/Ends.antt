-- ===== src/Tracks/Ends.antt =====
-- The simplification of crates/plugins/tracks/src/simplify.rs comes to an end.
use signalk_rs.Prelude.{
  ℕ, zero, suc, ◌+◌, ◌-◌, ◌≤◌, ◌<◌, ◌≡◌, refl, sym, ap, ◌∙◌, Bool, true, false, ◌||◌, Option, none,
  some, List, [], ◌∷◌, length, leb, if◌then◌else◌, arith, inl, inr, ◌⊎◌, ◌>>=◌, skip, is_some,
}
use mathlib.Core.List as L
use signalk_rs.Types.Json.{F64}
use signalk_rs.Types.Float.{FloatOps}
use signalk_rs.Types.Float as Z
use signalk_rs.Tracks.{
  Point, at_index, farthest, split_at, rdp_indices, set_true, simplify_track_points, all_false,
  kept, perpendicular_distance,
}

module _ (F : FloatOps) where
  -- The result is the given one, or its index is one of those looked at.
  abbrev Found : ℕ → ℕ → F64 × ℕ → F64 × ℕ → Type 0
  Found i n given r = (r ≡ given) ⊎ ((i ≤ r.1) × (r.1 < i + n))

  later-Found : (i n : ℕ) (given r : F64 × ℕ) → Found (suc i) n given r → Found i (suc n) given r
  later-Found i n given r (inl e) = inl e
  later-Found i n given r (inr (low, high)) = inr (omega (arith, low), omega (arith, high))

  here-Found :
      (i n : ℕ) (d : F64) (given r : F64 × ℕ) → Found (suc i) n (d, i) r → Found i (suc n) given r
  here-Found i n d given r (inl e) =
      let at : r.1 ≡ i = ap (λ x. x.1) e in inr (omega (arith, at), omega (arith, at))
  here-Found i n d given r (inr (low, high)) = inr (omega (arith, low), omega (arith, high))

  choice-Found :
      (b : Bool) (i n : ℕ) (d : F64) (given r r' : F64 × ℕ)
      → Found (suc i) n (d, i) r
      → Found (suc i) n given r'
      → Found i (suc n) given (if b then r else r')
  choice-Found true i n d given r r' h h' = here-Found i n d given r h
  choice-Found false i n d given r r' h h' = later-Found i n given r' h'

  farthest-Found :
      (a b : Point) (n : ℕ) (points : List Point) (i : ℕ) (max_dist : F64) (max_idx : ℕ)
      → Found i n (max_dist, max_idx) (farthest F a b n points i max_dist max_idx)
  unfolding farthest
  farthest-Found a b zero points i max_dist k = inl refl
  farthest-Found a b (suc n) [] i max_dist k = inl refl
  farthest-Found a b (suc n) (p ∷ ps) i max_dist k =
      let d = perpendicular_distance F p a b in
      choice-Found (F.lt max_dist d) i n d (max_dist, k) (farthest F a b n ps (suc i) d i)
        (farthest F a b n ps (suc i) max_dist k) (farthest-Found a b n ps (suc i) d i)
        (farthest-Found a b n ps (suc i) max_dist k)

  bind-is_some :
      {A B : Type 0}
      → (o : Option A) (f : A → Option B) → is_some o ≡ true
      → ((x : A) → is_some (f x) ≡ true)
      → is_some (o >>= f) ≡ true
  bind-is_some none f e h = absurd (cc)
  bind-is_some (some x) f e h = h x

  choice-is_some :
      {A : Type 0} (c d : Bool) (x : A) (o : Option A)
      → (c ≡ false → d ≡ true → is_some o ≡ true)
      → is_some (if c then some x else if d then o else some x) ≡ true
  choice-is_some true d x o h = refl
  choice-is_some false true x o h = h refl refl
  choice-is_some false false x o h = refl

  module _ (lt-le : (a b : F64) → F.lt a b ≡ true → F.le a b ≡ true) where
    -- A point that is farther than the tolerance lies strictly between the ends.
    between :
        (epsilon : F64) (start end : ℕ) (r : F64 × ℕ)
        → F.le epsilon Z.zero ≡ false
        → Found (start + 1) (end - (start + 1)) (Z.zero, start) r
        → F.lt epsilon r.0 ≡ true
        → leb end (start + 1) ≡ false
        → (start < r.1) × (r.1 < end)
    between epsilon start end r positive (inl e) far long =
        let above : F.lt epsilon Z.zero ≡ true = sym (ap (λ x. F.lt epsilon x.0) e) ∙ far in
        let at_most = lt-le epsilon Z.zero above in absurd (cc)
    between epsilon start end r positive (inr (low, high)) far long =
        (omega (arith, low), omega (arith, high, low))

    split_at-between :
        (points : List Point) (epsilon : F64) (start end : ℕ)
        → F.le epsilon Z.zero ≡ false
        → F.lt epsilon (split_at F points start end).0 ≡ true
        → leb end (start + 1) ≡ false
        → (start < (split_at F points start end).1) × ((split_at F points start end).1 < end)
    unfolding split_at
    split_at-between points epsilon start end positive far long =
        between epsilon start end (split_at F points start end) positive
          (farthest-Found (at_index F points start) (at_index F points end) (end - (start + 1))
            (skip (start + 1) points) (start + 1) Z.zero start)
          far long

    rdp_indices-is_some :
        (n : ℕ) (points : List Point) (epsilon : F64) (start end : ℕ) (keep : List Bool)
        → F.le epsilon Z.zero ≡ false
        → start < end
        → end - start ≤ n
        → is_some (rdp_indices F n points epsilon start end keep) ≡ true
    unfolding rdp_indices
    rdp_indices-is_some zero points epsilon start end keep positive some_left enough =
        absurd (omega (arith, some_left, enough))
    rdp_indices-is_some (suc n) points epsilon start end keep positive some_left enough =
        choice-is_some (leb end (start + 1)) (F.lt epsilon (split_at F points start end).0) keep _
          (λ long far.
            let (low, high) = split_at-between points epsilon start end positive far long in
            let idx = (split_at F points start end).1 in
            bind-is_some (rdp_indices F n points epsilon start idx (set_true keep idx)) _
              (rdp_indices-is_some n points epsilon start idx (set_true keep idx) positive low
                (omega (arith, enough, high)))
              (λ flags.
                rdp_indices-is_some n points epsilon idx end flags positive high
                  (omega (arith, enough, low))))

    either-is_some :
        {A : Type 0} (short flat : Bool) (x : A) (o : Option A)
        → (short ≡ false → flat ≡ false → is_some o ≡ true)
        → is_some (if short || flat then some x else o) ≡ true
    either-is_some true flat x o h = refl
    either-is_some false true x o h = refl
    either-is_some false false x o h = h refl refl

    -- Where a number below another is at most the other: the simplification comes to an end, for any
    -- points, coordinates and tolerance. The depth of the recursion is at most the number of points.
    pub simplify_track_points-is_some :
        {A : Type 0} (coords : A → Point) (points : List A) (epsilon : F64)
        → is_some (simplify_track_points F coords points epsilon) ≡ true
    unfolding simplify_track_points
    simplify_track_points-is_some coords points epsilon =
        let last = length points - 1 in
        let keep = set_true (set_true (all_false points) 0) last in
        let flags = rdp_indices F (length points) (L.map coords points) epsilon 0 last keep in
        either-is_some (leb (length points) 2) (F.le epsilon Z.zero) points
          (flags >>= λ bs. some (kept points bs))
          (λ long positive.
            bind-is_some flags (λ bs. some (kept points bs))
              (rdp_indices-is_some (length points) (L.map coords points) epsilon 0 last keep
                positive (ground (arith, long)) (omega arith))
              (λ bs. refl))
