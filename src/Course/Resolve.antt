-- ===== src/Course/Resolve.antt =====
-- crates/signalk-server/src/course/manager.rs: from the reference of a resource to positions.
-- `W` is the world on which the providers of resources act.
use Prim.Native.Char.{Char, code}
use Prim.Native.String as S
use signalk_rs.Prelude.{
  Option, none, some, List, [], ◌∷◌, String, ◌==◌, eqb, if◌then◌else◌, ◌<>◌, ◌>>=◌, or_else,
}
use signalk_rs.Prelude.Parts.{split_on, join_on}
use signalk_rs.Types.Json.{Json, get, get_index, as_array}
use signalk_rs.Types.Float.{FloatOps}
use signalk_rs.Server.{Result, ok, err, PluginError, runtime, config}
use signalk_rs.Server.Resources.{ResourceProviderRegistry}
use signalk_rs.Server.Resources as R
use signalk_rs.Course.{Position}

abbrev pub slash : Char
slash = "/"

-- `trim_start_matches('/')`.
unfoldable pub trim_slashes : String → String
trim_slashes S.[] = ""
trim_slashes (S.◌∷◌ c s) =
    let rest = trim_slashes s in if eqb (code c) (code slash) then rest else S.◌∷◌ c s

unfoldable pub href_parts : String → List String → Result (String × String) PluginError
unfolding join_on
href_parts href (root ∷ resource_type ∷ part ∷ parts) =
    if root == "resources"
    then ok (resource_type, join_on slash (part ∷ parts))
    else err (config ("Invalid resource href: " <> href))
href_parts href _ = err (config ("Invalid resource href: " <> href))

unfoldable pub parse_resource_href : String → Result (String × String) PluginError
unfolding href_parts split_on trim_slashes
parse_resource_href href = href_parts href (split_on slash (trim_slashes href))

-- `value.pointer("/geometry/coordinates")`, and below a feature.
coordinates : Json → Option Json
unfolding get
coordinates value = do g ← get value "geometry"; get g "coordinates"

feature_coordinates : Json → Option Json
unfolding get coordinates
feature_coordinates value = do f ← get value "feature"; coordinates f

module _ (F : FloatOps) where
  -- A longitude and a latitude, in this order.
  lon_lat : Json → Option Position
  unfolding get_index
  lon_lat coord = do
    a ← get_index coord 0
    lon ← F.as_f64 a
    b ← get_index coord 1
    lat ← F.as_f64 b
    some (record { latitude = lat; longitude = lon; altitude = none })

  -- The field `position`, with the altitude where there is one.
  direct_position : Json → Option Position
  unfolding get
  direct_position value = do
    pos ← get value "position"
    a ← get pos "latitude"
    lat ← F.as_f64 a
    b ← get pos "longitude"
    lon ← F.as_f64 b
    some (record { latitude = lat; longitude = lon; altitude = get pos "altitude" >>= F.as_f64 })

  unfoldable extract_position : Json → Result Position PluginError
  unfolding direct_position feature_coordinates coordinates lon_lat
  extract_position value = elim (direct_position value) [
    | some p ↦ ok p
    | none ↦ elim (or_else (feature_coordinates value) (coordinates value) >>= lon_lat) [
      | some p ↦ ok p
      | none ↦ err (runtime "Could not extract position from resource")
    ]
  ]

  -- `filter_map` over the coordinates, and over the waypoints.
  line_positions : List Json → List Position
  unfolding lon_lat
  line_positions [] = []
  line_positions (v ∷ vs) = elim (lon_lat v) [
    | none ↦ line_positions vs
    | some p ↦ p ∷ line_positions vs
  ]

  waypoint_positions : List Json → List Position
  unfolding extract_position
  waypoint_positions [] = []
  waypoint_positions (v ∷ vs) = elim (extract_position v) [
    | err e ↦ waypoint_positions vs
    | ok p ↦ p ∷ waypoint_positions vs
  ]

  -- An empty list of positions is passed over.
  or_positions :
      List Position → Result (List Position) PluginError → Result (List Position) PluginError
  or_positions [] other = other
  or_positions (p ∷ ps) other = ok (p ∷ ps)

  -- The positions in a route: GeoJSON first, then the waypoints.
  unfoldable pub route_points : String → Json → Result (List Position) PluginError
  unfolding line_positions waypoint_positions or_positions get as_array feature_coordinates
      coordinates
  route_points href value =
      let line =
        (or_else (or_else (feature_coordinates value) (coordinates value))
          (get value "coordinates"))
        >>= as_array in
      let waypoints = get value "waypoints" >>= as_array in
      let extracted : List Position = elim waypoints [
        | none ↦ []
        | some vs ↦ waypoint_positions vs
      ] in
      or_positions (elim line [ none ↦ [] | some vs ↦ line_positions vs ])
        (or_positions extracted (err (runtime ("Could not extract route points from " <> href))))

  module _ (W : Type 0) (resource_providers : ResourceProviderRegistry W) where
    -- The answer of the registry, read as `use_found` says; `missing` is the error for none.
    unfoldable read_answer :
        {A : Type 0}
        → PluginError
        → (Json → Result A PluginError)
        → Result (Option Json) PluginError
        → Result A PluginError
    read_answer missing use_found (err e) = err e
    read_answer missing use_found (ok none) = err missing
    read_answer missing use_found (ok (some value)) = use_found value

    -- The resource that a parsed reference names.
    unfoldable pub ask_parsed :
        {A : Type 0}
        → PluginError
        → (Json → Result A PluginError)
        → Result (String × String) PluginError
        → W
        → W × Result A PluginError
    unfolding R.get read_answer
    ask_parsed missing use_found (err e) w = (w, err e)
    ask_parsed missing use_found (ok (resource_type, id)) w =
        let (w', answer) = R.get W resource_providers resource_type id none w in
        (w', read_answer missing use_found answer)

    unfoldable pub resolve_waypoint_position : String → W → W × Result Position PluginError
    unfolding ask_parsed parse_resource_href extract_position
    resolve_waypoint_position href w =
        ask_parsed (runtime ("Waypoint not found: " <> href)) extract_position
          (parse_resource_href href) w

    unfoldable pub resolve_route_points : String → W → W × Result (List Position) PluginError
    unfolding ask_parsed parse_resource_href route_points
    resolve_route_points href w =
        ask_parsed (runtime ("Route not found: " <> href)) (route_points href)
          (parse_resource_href href) w
