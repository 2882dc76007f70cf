-- ===== src/Tests/NotificationTests.antt =====
-- crates/signalk-server/src/notifications/manager.rs on an anchor alarm.
use Prim.Native.String as S
use signalk_rs.Prelude.{
  ℕ, zero, suc, ◌≡◌, ◌≢◌, refl, ap, Bool, true, false, Option, none, some, [], ◌∷◌, String,
}
use signalk_rs.Prelude.Assoc.{lookup, insert, remove}
use signalk_rs.Types.Json.{Json, string, null}
use signalk_rs.Types.Delta.{Delta}
use signalk_rs.Types.Notification.{Notification, alarm, normal}
use signalk_rs.Notifications.{NotificationEntry, NotificationManager, new, enrich}
use signalk_rs.Notifications.Life.{enriches, silences, step, run, Continues, run-Continues}
use signalk_rs.Notifications.Ids.{IsDistinct, run-IsDistinct, raise-new_id}

-- The n-th UUID: n letters.
uuid : ℕ → String
uuid zero = ""
uuid (suc n) = S.◌∷◌ "a" (uuid n)

tail : String → String
tail S.[] = ""
tail (S.◌∷◌ c s) = s

is_empty : String → Bool
is_empty S.[] = true
is_empty (S.◌∷◌ c s) = false

uuid_injective : (i j : ℕ) → uuid i ≡ uuid j → i ≡ j
unfolding uuid tail is_empty
uuid_injective zero zero e = refl
uuid_injective zero (suc j) e = let h : true ≡ false = ap is_empty e in absurd (cc)
uuid_injective (suc i) zero e = let h : false ≡ true = ap is_empty e in absurd (cc)
uuid_injective (suc i) (suc j) e = ap suc (uuid_injective i j (ap tail e))

abbrev anchor : String
anchor = "notifications.navigation.anchor"

abbrev dragging : Notification
dragging = record { id = none; state = alarm; method = []; message = "dragging"; status = none }

abbrev safe : Notification
safe = record { id = none; state = normal; method = []; message = "safe"; status = none }

abbrev entry : String → Bool → NotificationEntry
entry id silenced = record {
  id = id;
  plugin_originated = true;
  silenced = silenced;
  acknowledged = false;
}

abbrev alarmed : NotificationManager
alarmed = record { entries = (anchor, entry "" false) ∷ []; drawn = 1 }

run-alarmed : run uuid new (enriches anchor true dragging ∷ []) ≡ alarmed
unfolding run step enrich new lookup insert uuid
run-alarmed = refl

run-Continues_example :
    (f : NotificationEntry) × (lookup anchor
        (run uuid alarmed (silences anchor ∷ enriches anchor true dragging ∷ [])).entries
      ≡ some f)
    × Continues (entry "" false) f
unfolding lookup
run-Continues_example =
    run-Continues uuid alarmed (silences anchor ∷ enriches anchor true dragging ∷ []) anchor
      (entry "" false) (tt, (λ e. refl, tt)) refl

run-IsDistinct_example : IsDistinct uuid (
    run uuid new (enriches anchor true dragging ∷ enriches "notifications.mob" false dragging ∷ []))
run-IsDistinct_example =
    run-IsDistinct uuid uuid_injective
      (enriches anchor true dragging ∷ enriches "notifications.mob" false dragging ∷ [])

raise-new_id_example :
    (i : String) × ((enrich uuid
        (run uuid
          (run uuid new (enriches anchor true dragging ∷ []))
          (enriches anchor true safe ∷ []))
        anchor
        true
        dragging).1.id
      ≡ some i)
    × (i ≢ "")
unfolding run step enrich new lookup insert remove uuid
raise-new_id_example =
    raise-new_id uuid uuid_injective (run uuid new (enriches anchor true dragging ∷ []))
      (enriches anchor true safe ∷ []) anchor anchor (entry "" false) true dragging
      (run-IsDistinct uuid uuid_injective (enriches anchor true dragging ∷ [])) refl refl refl

abbrev parse : Json → Option Notification
parse null = none
parse v = some dragging

abbrev print : Notification → Option Json
print n = some (string n.message)

abbrev delta : Delta
delta = record {
  context = none;
  updates =
      record {
        source = record { label = "anchor"; type_ = "Plugin"; extra = [] };
        timestamp = 0;
        values =
            record { path = anchor; value = string "alarm" }
            ∷ record { path = "navigation.position"; value = null }
            ∷ [];
      }
      ∷ [];
}
