-- ===== src/Types/Delta.antt =====
-- crates/signalk-types/src/source.rs and delta.rs.
use signalk_rs.Prelude.{ℕ, Option, some, List, [], String}
use signalk_rs.Prelude.Assoc.{Map, insert}
use signalk_rs.Types.Json.{Json, Number}

pub record Source : Type 0 where
  pub label : String
  pub type_ : String
  pub extra : Map Json

unfoldable nmea0183 : String → String → Source
unfolding insert
nmea0183 label talker = record {
  label = label;
  type_ = "NMEA0183";
  extra = insert "talker" (Json.string talker) [];
}

unfoldable pub nmea2000 : String → ℕ → ℕ → Source
unfolding insert
nmea2000 label src pgn = record {
  label = label;
  type_ = "NMEA2000";
  extra =
      insert "pgn" (Json.number (Number.pos_int pgn))
        (insert "src" (Json.number (Number.pos_int src)) []);
}

unfoldable pub plugin : String → Source
plugin id = record { label = id; type_ = "Plugin"; extra = [] }

unfoldable internal : Source
internal = record { label = "signalk-rs"; type_ = "Internal"; extra = [] }

-- A `DateTime<Utc>`: nanoseconds since the earliest date.
abbrev pub Timestamp : Type 0
Timestamp = ℕ

pub record PathValue : Type 0 where
  pub path : String
  pub value : Json

pub record Update : Type 0 where
  pub source : Source
  pub timestamp : Timestamp
  pub values : List PathValue

-- `Update::new`: `now` is the time of the call.
unfoldable pub update_now : Timestamp → Source → List PathValue → Update
update_now now source values = record { source = source; timestamp = now; values = values }

pub record Delta : Type 0 where
  pub context : Option String
  pub updates : List Update

unfoldable pub self_vessel : List Update → Delta
self_vessel updates = record { context = some "vessels.self"; updates = updates }
