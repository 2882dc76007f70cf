-- ===== src/Tests/AnchorTests.antt =====
-- The anchor alarm (crates/plugins/anchor-alarm/src/lib.rs) on a few positions. Floats are whole
-- numbers here, and the distance of two positions is that of their latitudes.
use signalk_rs.Prelude.{
  ℕ, ◌+◌, ◌-◌, ◌≡◌, refl, true, false, Option, none, some, List, [], ◌∷◌, String, ltb, leb,
}
use signalk_rs.Types.Json.{Json, Number, F64, object, field, end, get}
use signalk_rs.Types.Float.{FloatOps}
use signalk_rs.Types.Delta.{Delta, plugin}
use signalk_rs.Anchor.{AnchorConfig, new_watch, notification, watch_delta}
use signalk_rs.Anchor.Alarm.{watch_all, distances, crossings, last_side, watch_all-crossings}

abbrev number_of : Json → Option F64
number_of (Json.number (Number.pos_int n)) = some n
number_of _ = none

abbrev floats : FloatOps
floats = record {
  lt = ltb;
  le = leb;
  is_finite = λ a. true;
  add = λ a b. a + b;
  sub = λ a b. (a - b) + (b - a);
  mul = λ a b. b;
  div = λ a b. a;
  rem_euclid = λ a b. a;
  sqrt = λ a. a;
  sin = λ a. a;
  cos = λ a. a;
  asin = λ a. a;
  atan2 = λ a b. a;
  powi = λ a n. a;
  to_radians = λ a. a;
  abs = λ a. a;
  neg = λ a. a;
  signum = λ a. 1;
  max = λ a b. a + (b - a);
  powf = λ a b. a;
  ne = λ a b. false;
  clamp = λ x lo hi. x;
  sum = λ l. 0;
  as_f64 = number_of;
  value = λ a. Json.number (Number.pos_int a);
}

abbrev show : F64 → String
show x = "some "

abbrev config : AnchorConfig
config = record { position = record { latitude = 100; longitude = 100 }; radius = 50 }

-- A position and a speed.
abbrev at : ℕ → ℕ → Delta
at lat lon = record {
  context = some "vessels.self";
  updates =
      record {
        source = plugin "gps";
        timestamp = 0;
        values =
            record {
              path = "navigation.position";
              value = object (
                  field "latitude" (Json.number (Number.pos_int lat))
                    (field "longitude" (Json.number (Number.pos_int lon)) end));
            }
            ∷ record { path = "navigation.speedOverGround"; value = Json.number (Number.pos_int 3) }
            ∷ [];
      }
      ∷ [];
}

-- Inside, outside twice, and back.
abbrev drifting : List Delta
drifting = at 110 100 ∷ at 160 100 ∷ at 170 100 ∷ at 100 110 ∷ []

drifting-raised :
    (watch_all floats show config new_watch drifting).raised
    ≡ notification floats show 60 50 true ∷ notification floats show 10 50 false ∷ []
unfolding watch_all new_watch watch_delta get
drifting-raised = refl

watch_all-crossings_example : watch_all floats show config new_watch drifting ≡ record {
  alarming = last_side floats show config false (distances floats show config drifting);
  raised = crossings floats show config false (distances floats show config drifting);
}
watch_all-crossings_example = watch_all-crossings floats show config drifting
