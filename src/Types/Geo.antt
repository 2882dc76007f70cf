-- ===== src/Types/Geo.antt =====
-- crates/signalk-types/src/geo.rs: distances and bearings, over the operations of `f64`.
use signalk_rs.Prelude.{ℕ, ◌+◌, List, [], ◌∷◌, length, leb, skip, if◌then◌else◌}
use signalk_rs.Types.Json.{F64}
use signalk_rs.Types.Float.{FloatOps, zero, two, pi, earth_radius}

module _ (F : FloatOps) where
  unfoldable pub haversine_meters : F64 → F64 → F64 → F64 → F64
  haversine_meters lat1 lon1 lat2 lon2 =
      let d_lat = F.to_radians (F.sub lat2 lat1) in
      let d_lon = F.to_radians (F.sub lon2 lon1) in
      let a = F.add (F.powi (F.sin (F.div d_lat two)) 2) (
        F.mul (F.mul (F.cos (F.to_radians lat1)) (F.cos (F.to_radians lat2)))
          (F.powi (F.sin (F.div d_lon two)) 2)) in
      let c = F.mul two (F.asin (F.sqrt a)) in F.mul earth_radius c

  unfoldable initial_bearing : F64 → F64 → F64 → F64 → F64
  initial_bearing lat1 lon1 lat2 lon2 =
      let p = F.to_radians lat1 in
      let q = F.to_radians lat2 in
      let d_lon = F.to_radians (F.sub lon2 lon1) in
      let y = F.mul (F.sin d_lon) (F.cos q) in
      let x = F.sub (F.mul (F.cos p) (F.sin q)) (F.mul (F.mul (F.sin p) (F.cos q)) (F.cos d_lon)) in
      F.rem_euclid (F.atan2 y x) (F.mul two pi)

  unfoldable cross_track_error : F64 × F64 → F64 × F64 → F64 × F64 → F64
  unfolding haversine_meters initial_bearing
  cross_track_error current start end =
      let d = F.div (haversine_meters start.0 start.1 current.0 current.1) earth_radius in
      let bearing_start_current = initial_bearing start.0 start.1 current.0 current.1 in
      let bearing_start_end = initial_bearing start.0 start.1 end.0 end.1 in
      let xte = F.asin (F.mul (F.sin d) (F.sin (F.sub bearing_start_current bearing_start_end))) in
      F.mul xte earth_radius

  -- The distances between neighbours.
  unfoldable legs : List (F64 × F64) → List F64
  unfolding haversine_meters
  legs [] = []
  legs (p ∷ []) = []
  legs (p ∷ q ∷ ps) = haversine_meters p.0 p.1 q.0 q.1 ∷ legs (q ∷ ps)

  unfoldable pub route_remaining_distance : List (F64 × F64) → ℕ → F64
  unfolding legs
  route_remaining_distance waypoints from_index =
      if leb (length waypoints) (from_index + 1)
      then zero
      else F.sum (legs (skip from_index waypoints))
