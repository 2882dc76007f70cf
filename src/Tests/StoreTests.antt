-- ===== src/Tests/StoreTests.antt =====
-- crates/signalk-store/src/store.rs on a store with two sources.
use signalk_rs.Prelude.{ℕ, ◌≡◌, refl, Option, none, some, [], ◌∷◌, String, strip_prefix}
use mathlib.Core.Option.{map}
use signalk_rs.Types.Json.{Json, string}
use signalk_rs.Types.Delta.{Source, Timestamp, Delta}
use signalk_rs.Types.Full.{sk_value}
use signalk_rs.Store.{
  SignalKStore, new, apply_delta, get_vessel_path, get_self_path_by_source, make_source_ref,
  resolve_context, is_stale, priority, value_at,
}
use signalk_rs.Store.Values.Winner.{winner, apply_delta-winner}
use signalk_rs.Store.Values.Policy.{last_value, last_write_wins, best_priority, best_priority_wins}
use signalk_rs.Store.Values.Broadcast.{Mirrored, apply_delta-Mirrored}
use signalk_rs.Store.Values.Stale.{one_value, stale_refresh_forgotten}

abbrev print_json : Json → String
print_json v = "129025"

abbrev clock : ℕ → ℕ → Timestamp
clock i j = 20000000000

abbrev own : String
own = "urn:mrn:imo:mmsi:244000001"

abbrev speed : String
speed = "navigation.speedOverGround"

abbrev gps : Source
gps = record { label = "gps"; type_ = "NMEA0183"; extra = ("talker", string "GP") ∷ [] }

abbrev log : Source
log = record { label = "log"; type_ = "Plugin"; extra = [] }

abbrev empty : SignalKStore
empty = record {
  version = "1.7.0";
  self_uri = own;
  vessels = (own, record { uuid = some own; name = none; mmsi = none; values = [] }) ∷ [];
  sources = [];
  metadata = [];
  multi_source = [];
  source_priorities = [];
  source_ttls = [];
  sent = [];
  delta_count = 0;
  source_delta_counts = [];
}

new-empty : new own ≡ empty
unfolding new
new-empty = refl

abbrev ranked : SignalKStore
ranked = record empty { source_priorities = ("gps.GP", 10) ∷ ("log", 50) ∷ [] }

-- The log's value comes first, then the receiver's.
abbrev both : Option String → Delta
both context = record {
  context = context;
  updates =
      record {
        source = log;
        timestamp = 10000000000;
        values = record { path = speed; value = string "3.1" } ∷ [];
      }
      ∷ record {
        source = gps;
        timestamp = 11000000000;
        values = record { path = speed; value = string "3.4" } ∷ [];
      }
      ∷ [];
}

-- The receiver's value is active and was old before it was checked.
abbrev aging : SignalKStore
aging = record empty {
  vessels =
      (
        own,
        record {
          uuid = some own;
          name = none;
          mmsi = none;
          values = (speed, sk_value (string "3.0") "gps.GP" 0) ∷ [];
        },
      )
      ∷ [];
  source_ttls = ("gps.GP", 5) ∷ [];
}

apply_delta-winner_example :
    get_vessel_path (apply_delta print_json ranked clock (both none)) own speed
    ≡ winner ranked.source_priorities [] print_json speed clock (both none).updates none
unfolding strip_prefix resolve_context value_at
apply_delta-winner_example = apply_delta-winner print_json ranked clock (both none) own speed refl

last_write_wins_example :
    get_vessel_path (apply_delta print_json empty clock (both none)) own speed
    ≡ some (sk_value (string "3.4") "gps.GP" 11000000000)
unfolding strip_prefix resolve_context last_value make_source_ref
last_write_wins_example = last_write_wins print_json empty clock (both none) own speed refl refl

best_priority_wins_example :
    map
      (λ v. priority ranked.source_priorities v.source)
      (get_vessel_path (apply_delta print_json ranked clock (both none)) own speed)
    ≡ some 10
unfolding strip_prefix resolve_context best_priority make_source_ref priority value_at
best_priority_wins_example =
    best_priority_wins print_json ranked clock (both none) own speed refl refl

apply_delta-Mirrored_example :
    Mirrored print_json own none ranked (apply_delta print_json ranked clock (both none))
unfolding strip_prefix resolve_context
apply_delta-Mirrored_example = apply_delta-Mirrored print_json ranked clock (both none) own refl

stale_refresh_forgotten_example :
    let t =
      apply_delta print_json aging clock
        (one_value none gps 19000000000 (record { path = speed; value = string "3.2" })) in
    (get_vessel_path t own speed ≡ some (sk_value (string "3.2") "gps.GP" 19000000000))
    × (get_self_path_by_source t speed "gps.GP" ≡ none)
unfolding strip_prefix resolve_context make_source_ref value_at is_stale sk_value
stale_refresh_forgotten_example =
    stale_refresh_forgotten print_json aging clock none gps 19000000000
      (record { path = speed; value = string "3.2" }) (sk_value (string "3.0") "gps.GP" 0) refl refl
      refl refl
