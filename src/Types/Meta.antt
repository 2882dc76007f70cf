-- ===== src/Types/Meta.antt =====
-- crates/signalk-types/src/meta.rs.
use signalk_rs.Prelude.{Option, none, some, List, [], ◌∷◌, String, ◌>>=◌}
use signalk_rs.Prelude.Assoc.{Map, lookup}
use signalk_rs.Types.Json.{F64}

pub record DisplayUnits : Type 0 where
  pub category : String
  pub target_unit : String
  pub formula : String
  pub inverse_formula : String
  pub symbol : String
  pub display_format : Option String

pub data ZoneState : Type 0 where
  nominal alert warn alarm emergency : ZoneState

pub record Zone : Type 0 where
  pub lower : Option F64
  pub upper : Option F64
  pub state : ZoneState
  pub message : Option String

pub record Metadata : Type 0 where
  pub description : Option String
  pub units : Option String
  pub display_name : Option String
  pub long_name : Option String
  pub timeout : Option F64
  pub min_value : Option F64
  pub max_value : Option F64
  pub zones : List Zone
  pub display_units : Option DisplayUnits

-- The arms of the `match`: a path with its units, description and display name.
known_paths : Map (String × String × String)
known_paths =
    ("navigation.speedOverGround", ("m/s", "Speed over ground", "SOG"))
    ∷ ("navigation.speedThroughWater", ("m/s", "Speed through water", "STW"))
    ∷ ("navigation.courseOverGroundTrue", ("rad", "Course over ground (true)", "COG(T)"))
    ∷ ("navigation.courseOverGroundMagnetic", ("rad", "Course over ground (magnetic)", "COG(M)"))
    ∷ ("navigation.headingTrue", ("rad", "Heading true", "HDG(T)"))
    ∷ ("navigation.headingMagnetic", ("rad", "Heading magnetic", "HDG(M)"))
    ∷ ("navigation.magneticVariation", ("rad", "Magnetic variation", "VAR"))
    ∷ ("navigation.leewayAngle", ("rad", "Leeway angle", "Leeway"))
    ∷ ("navigation.attitude", ("", "Vessel attitude (roll/pitch/yaw)", "Attitude"))
    ∷ ("environment.depth.belowTransducer", ("m", "Depth below transducer", "DBT"))
    ∷ ("environment.depth.belowKeel", ("m", "Depth below keel", "DBK"))
    ∷ ("environment.depth.belowSurface", ("m", "Depth below surface", "DBS"))
    ∷ ("environment.depth.surfaceToTransducer", ("m", "Surface to transducer", "S→T"))
    ∷ ("environment.depth.transducerToKeel", ("m", "Transducer to keel", "T→K"))
    ∷ ("environment.wind.speedApparent", ("m/s", "Apparent wind speed", "AWS"))
    ∷ ("environment.wind.angleApparent", ("rad", "Apparent wind angle", "AWA"))
    ∷ ("environment.wind.speedTrue", ("m/s", "True wind speed (ground ref)", "TWS"))
    ∷ ("environment.wind.angleTrueGround", ("rad", "True wind angle (ground ref)", "TWA"))
    ∷ ("environment.wind.angleTrueWater", ("rad", "True wind angle (water ref)", "TWA(W)"))
    ∷ ("environment.wind.directionTrue", ("rad", "True wind direction", "TWD"))
    ∷ ("environment.wind.directionMagnetic", ("rad", "Wind direction (magnetic)", "MWD"))
    ∷ ("environment.wind.speedOverGround", ("m/s", "True wind speed (ground ref)", "GWS"))
    ∷ ("environment.wind.directionGround", ("rad", "True wind direction (ground ref)", "GWD"))
    ∷ ("environment.outside.temperature", ("K", "Outside air temperature", "Air"))
    ∷ ("environment.outside.pressure", ("Pa", "Atmospheric pressure", "Baro"))
    ∷ ("environment.outside.humidity", ("ratio", "Relative humidity", "Hum"))
    ∷ ("environment.outside.dewPointTemperature", ("K", "Dew point temperature", "Dew"))
    ∷ ("environment.outside.airDensity", ("kg/m³", "Air density", "ρ"))
    ∷ ("environment.outside.heatIndexTemperature", ("K", "Heat index temperature", "HI"))
    ∷ ("environment.outside.apparentWindChillTemperature", ("K", "Wind chill temperature", "WC"))
    ∷ ("environment.water.temperature", ("K", "Water temperature", "Water"))
    ∷ ("environment.current.setTrue", ("rad", "Current set (true)", "Set(T)"))
    ∷ ("environment.current.setMagnetic", ("rad", "Current set (magnetic)", "Set(M)"))
    ∷ ("environment.current.drift", ("m/s", "Current drift", "Drift"))
    ∷ ("environment.current.driftImpact", ("ratio", "Current drift impact", "Impact"))
    ∷ ("navigation.course.estimatedTimeOfArrival", ("s", "ETA in seconds", "ETA"))
    ∷ ("navigation.course.steerError", ("rad", "Steering error", "XTE"))
    ∷ ("performance.velocityMadeGood", ("m/s", "Velocity made good", "VMG"))
    ∷ ("performance.velocityMadeGoodToWaypoint", ("m/s", "VMG to waypoint (STW)", "VMG(W)"))
    ∷ []

-- The units, the description and the short name; all else is `Default::default()`.
metadata_of : String × String × String → Metadata
metadata_of (units, description, display_name) = record {
  description = some description;
  units = some units;
  display_name = some display_name;
  long_name = none;
  timeout = none;
  min_value = none;
  max_value = none;
  zones = [];
  display_units = none;
}

unfoldable pub default_metadata : String → Option Metadata
unfolding known_paths metadata_of lookup
default_metadata path = do row ← lookup path known_paths; some (metadata_of row)
