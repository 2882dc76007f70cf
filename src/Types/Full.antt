-- ===== src/Types/Full.antt =====
-- crates/signalk-types/src/full.rs: the values that the store keeps.
use signalk_rs.Prelude.{Option, none, [], String}
use signalk_rs.Prelude.Assoc.{Map}
use signalk_rs.Types.Json.{Json}
use signalk_rs.Types.Delta.{Timestamp}
use signalk_rs.Types.Meta.{Metadata}

pub record SourceValue : Type 0 where
  pub value : Json
  pub timestamp : Timestamp

-- `source` is the text of the `SourceRef`.
pub record SignalKValue : Type 0 where
  pub value : Json
  pub source : String
  pub timestamp : Timestamp
  pub meta : Option Metadata
  pub values : Option (Map SourceValue)

unfoldable pub sk_value : Json → String → Timestamp → SignalKValue
sk_value value source timestamp = record {
  value = value;
  source = source;
  timestamp = timestamp;
  meta = none;
  values = none;
}

pub record VesselData : Type 0 where
  pub uuid : Option String
  pub name : Option String
  pub mmsi : Option String
  pub values : Map SignalKValue

abbrev pub empty_vessel : VesselData
empty_vessel = record { uuid = none; name = none; mmsi = none; values = [] }

pub record FullModel : Type 0 where
  pub version : String
  pub self_uri : String
  pub vessels : Map VesselData
  pub sources : Json
