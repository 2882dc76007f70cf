-- ===== src/Tracks.antt =====
-- The tracks plugin: crates/plugins/tracks/src/simplify.rs, the Ramer-Douglas-Peucker simplification.
-- A point is its latitude and longitude; the operations of `f64` are a parameter.
pub mod Ends
pub mod Kept
use signalk_rs.Prelude.{
  ℕ, zero, suc, ◌+◌, ◌-◌, Bool, true, false, not, ◌||◌, Option, none, some, List, [], ◌∷◌, length,
  leb, ltb, eqb, if◌then◌else◌, get_elem?, unwrap_or, skip, ◌>>=◌,
}
use mathlib.Core.List as L
use signalk_rs.Types.Json.{F64}
use signalk_rs.Types.Float.{FloatOps}
use signalk_rs.Types.Float as Z

-- 1e-20.
abbrev tiny : F64
tiny = 0x3BC79CA10C924223

abbrev pub Point : Type 0
Point = F64 × F64

-- `keep[i] = true`.
unfoldable pub set_true : List Bool → ℕ → List Bool
set_true [] i = []
set_true (b ∷ bs) zero = true ∷ bs
set_true (b ∷ bs) (suc i) = b ∷ set_true bs i

unfoldable pub all_false : {A : Type 0} → List A → List Bool
all_false [] = []
all_false (x ∷ xs) = false ∷ all_false xs

-- The elements whose flag is set.
unfoldable pub kept : {A : Type 0} → List A → List Bool → List A
kept [] bs = []
kept (x ∷ xs) [] = []
kept (x ∷ xs) (b ∷ bs) = if b then x ∷ kept xs bs else kept xs bs

module _ (F : FloatOps) where
  unfoldable perpendicular_distance : Point → Point → Point → F64
  perpendicular_distance p a b =
      let dx = F.sub b.0 a.0 in
      let dy = F.sub b.1 a.1 in
      let len_sq = F.add (F.mul dx dx) (F.mul dy dy) in
      let ex = F.sub p.0 a.0 in
      let ey = F.sub p.1 a.1 in
      if F.lt len_sq tiny
      then F.sqrt (F.add (F.mul ex ex) (F.mul ey ey))
      else F.div (F.abs (F.sub (F.mul ex dy) (F.mul ey dx))) (F.sqrt len_sq)

  -- The loop over the points between the ends: the largest distance and its index. `i` is the index
  -- of the first point of the list, and `n` the number of points to look at.
  unfoldable pub farthest : Point → Point → ℕ → List Point → ℕ → F64 → ℕ → F64 × ℕ
  unfolding perpendicular_distance
  farthest a b zero points i max_dist max_idx = (max_dist, max_idx)
  farthest a b (suc n) [] i max_dist max_idx = (max_dist, max_idx)
  farthest a b (suc n) (p ∷ ps) i max_dist max_idx =
      let d = perpendicular_distance p a b in
      if F.lt max_dist d
      then farthest a b n ps (suc i) d i
      else farthest a b n ps (suc i) max_dist max_idx

  abbrev pub at_index : List Point → ℕ → Point
  at_index points i = unwrap_or (get_elem? points i) (Z.zero, Z.zero)

  -- The farthest point strictly between two indices.
  unfoldable pub split_at : List Point → ℕ → ℕ → F64 × ℕ
  unfolding farthest
  split_at points start end =
      farthest (at_index points start) (at_index points end) (end - (start + 1))
        (skip (start + 1) points) (start + 1) Z.zero start

  -- `rdp_indices` on fuel: none where the fuel is used up.
  unfoldable pub rdp_indices : ℕ → List Point → F64 → ℕ → ℕ → List Bool → Option (List Bool)
  unfolding split_at set_true
  rdp_indices zero points epsilon start end keep = none
  rdp_indices (suc n) points epsilon start end keep =
      let (max_dist, max_idx) = split_at points start end in
      let first = rdp_indices n points epsilon start max_idx (set_true keep max_idx) in
      let second = first >>= rdp_indices n points epsilon max_idx end in
      if leb end (start + 1) then some keep else if F.lt epsilon max_dist then second else some keep

  -- `simplify_track_points`: the fuel is the number of points.
  unfoldable pub simplify_track_points : {A : Type 0} → (A → Point) → List A → F64 → Option (List A)
  unfolding rdp_indices set_true all_false kept
  simplify_track_points coords points epsilon =
      let last = length points - 1 in
      let keep = set_true (set_true (all_false points) 0) last in
      let flags = rdp_indices (length points) (L.map coords points) epsilon 0 last keep in
      let simplified = flags >>= λ bs. some (kept points bs) in
      if leb (length points) 2 || F.le epsilon Z.zero then some points else simplified
