-- ===== src/Autopilot/Provider/Tacks.antt =====
-- Tacks and gybes: crates/plugins/autopilot/src/provider.rs.
use signalk_rs.Prelude.{
  ◌≡◌, refl, ap, ◌∙◌, Bool, true, false, not, some, List, [], ◌∷◌, String, ◌<>◌, unwrap_or,
  if◌then◌else◌,
}
use signalk_rs.Types.Json.{F64}
use signalk_rs.Types.Float.{FloatOps}
use signalk_rs.Types.Float as L
use signalk_rs.Server.{Result, ok, err, PluginError, runtime, bad_request}
use signalk_rs.Autopilot.State.{AutopilotState, is_wind}
use signalk_rs.Autopilot.Provider.{
  TackDirection, port, starboard, Outcome, turned, maneuver, tack, gybe, tenth, hundredth,
}

-- A request to tack, or to gybe.
pub data Maneuver : Type 0 where
  by_tack by_gybe : TackDirection → Maneuver

module _ (F : FloatOps) where
  unfoldable turn : AutopilotState → Maneuver → Outcome
  turn st (by_tack d) = tack F st d
  turn st (by_gybe d) = gybe F st d

  unfoldable pub turn_all : AutopilotState → List Maneuver → AutopilotState
  unfolding turn
  turn_all st [] = st
  turn_all st (m ∷ ms) = turn_all (turn st m).0 ms

  -- How far the target is from the bow, at least 0.1 rad.
  abbrev pub magnitude : AutopilotState → F64
  magnitude st = F.max (F.abs (unwrap_or st.target_rad L.zero)) tenth

  module _ (abs-neg : (x : F64) → F.abs (F.neg x) ≡ F.abs x)
      (abs-max : (x : F64) → F.abs (F.max (F.abs x) tenth) ≡ F.max (F.abs x) tenth)
      (max-max : (x : F64) → F.max (F.max (F.abs x) tenth) tenth ≡ F.max (F.abs x) tenth) where
    turned-magnitude :
        (d : TackDirection) (x : F64)
        → F.max (F.abs (turned F d (F.max (F.abs x) tenth))) tenth ≡ F.max (F.abs x) tenth
    unfolding turned
    turned-magnitude port x =
        ap (λ m. F.max m tenth) (abs-neg (F.max (F.abs x) tenth) ∙ abs-max x) ∙ max-max x
    turned-magnitude starboard x = ap (λ m. F.max m tenth) (abs-max x) ∙ max-max x

    abbrev chosen : Bool → Bool → Outcome → Outcome → Outcome → Outcome
    chosen b c o o' o'' = if b then o else if c then o' else o''

    choice-magnitude :
        (b c : Bool) (m : F64) (st st' : AutopilotState) (e e' : Result Unit PluginError)
        → magnitude st ≡ m
        → magnitude st' ≡ m
        → magnitude (chosen b c (st, e) (st, e') (st', ok tt)).0 ≡ m
    choice-magnitude true c m st st' e e' same same' = same
    choice-magnitude false true m st st' e e' same same' = same
    choice-magnitude false false m st st' e e' same same' = same'

    maneuver-magnitude :
        (what : String) (st : AutopilotState) (d : TackDirection)
        → magnitude (maneuver F what st d).0 ≡ magnitude st
    unfolding maneuver
    maneuver-magnitude what st d =
        let new_target = turned F d (magnitude st) in
        choice-magnitude (not (is_wind st.mode))
          (F.lt (F.abs (F.sub new_target (unwrap_or st.target_rad L.zero))) hundredth)
          (magnitude st) st (record st { target_rad = some new_target; last_error_rad = L.zero })
          (err (bad_request (what <> " requires wind mode")))
          (err (runtime ("already on that " <> what))) refl
          (turned-magnitude d (unwrap_or st.target_rad L.zero))

    turn-magnitude : (st : AutopilotState) (m : Maneuver) → magnitude (turn st m).0 ≡ magnitude st
    unfolding turn tack gybe
    turn-magnitude st (by_tack d) = maneuver-magnitude "tack" st d
    turn-magnitude st (by_gybe d) = maneuver-magnitude "gybe" st d

    -- Where `abs` and `max` of numbers work as usual: however often the boat is told to tack and to
    -- gybe, accepted or not, the angle at which the next tack holds it (that of the target from the
    -- bow, and at least 0.1 rad) stays the same.
    pub turn_all-magnitude :
        (st : AutopilotState) (ms : List Maneuver) → magnitude (turn_all st ms) ≡ magnitude st
    unfolding turn_all
    turn_all-magnitude st [] = refl
    turn_all-magnitude st (m ∷ ms) = turn_all-magnitude (turn st m).0 ms ∙ turn-magnitude st m
