-- ===== src/Anchor/Alarm.antt =====
-- When the anchor alarm speaks: crates/plugins/anchor-alarm/src/lib.rs.
use signalk_rs.Prelude.{
  ◌≡◌, refl, sym, ap, ◌∙◌, Bool, true, false, not, ◌&&◌, Option, none, some, List, [], ◌∷◌, ◌++◌,
  String, ◌==◌, if◌then◌else◌, append_assoc, append-nil,
}
use signalk_rs.Types.Json.{F64}
use signalk_rs.Types.Delta.{Delta, Update, PathValue}
use signalk_rs.Types.Float.{FloatOps}
use signalk_rs.Types.Notification.{Notification}
use signalk_rs.Anchor.{
  AnchorConfig, Watch, new_watch, notification, announce, watch_distance, lat_lon, anchor_distance,
  watch_position, watch_values, watch_updates, watch_delta,
}

module _ (F : FloatOps) (show : F64 → String) (c : AnchorConfig) where
  -- The distances of the positions that the deltas hold, in their order.
  unfoldable value_distances : Option (F64 × F64) → List F64
  value_distances none = []
  value_distances (some p) = anchor_distance F show c p ∷ []

  unfoldable values_distances : List PathValue → List F64
  unfolding value_distances
  values_distances [] = []
  values_distances (pv ∷ pvs) =
      (if pv.path == "navigation.position" then value_distances (lat_lon F show pv.value) else [])
      ++ values_distances pvs

  unfoldable updates_distances : List Update → List F64
  unfolding values_distances
  updates_distances [] = []
  updates_distances (u ∷ us) = values_distances u.values ++ updates_distances us

  unfoldable pub distances : List Delta → List F64
  unfolding updates_distances
  distances [] = []
  distances (d ∷ ds) = updates_distances d.updates ++ distances ds

  abbrev pub is_outside : F64 → Bool
  is_outside distance = F.lt c.radius distance

  unfoldable pub watch_all : Watch → List Delta → Watch
  watch_all w [] = w
  watch_all w (d ∷ ds) = watch_all (watch_delta F show c w d) ds

  unfoldable pub differs : Bool → Bool → Bool
  differs true b = not b
  differs false b = b

  -- One notification for each distance that lies on another side of the radius than the one before.
  unfoldable pub crossings : Bool → List F64 → List Notification
  unfolding differs
  crossings before [] = []
  crossings before (x ∷ xs) =
      let rest = crossings (is_outside x) xs in
      if differs before (is_outside x)
      then notification F show x c.radius (is_outside x) ∷ rest
      else rest

  -- Whether the last of the distances is outside.
  unfoldable pub last_side : Bool → List F64 → Bool
  last_side before [] = before
  last_side before (x ∷ xs) = last_side (is_outside x) xs

  abbrev after : Watch → List F64 → Watch
  after w xs = record {
    alarming = last_side w.alarming xs;
    raised = w.raised ++ crossings w.alarming xs;
  }

  sided :
      (before now : Bool) (raised : List Notification) (x : F64)
      → (if now && not before
          then announce F show (record { alarming = before; raised = raised }) x c.radius true
          else if not now && before
          then announce F show (record { alarming = before; raised = raised }) x c.radius false
          else record { alarming = before; raised = raised })
        ≡ record {
          alarming = now;
          raised =
              raised
              ++ (if differs before now then notification F show x c.radius now ∷ [] else []);
        }
  unfolding announce differs
  sided true true raised x =
      ap (λ r. record { alarming = true; raised = r }) (sym (append-nil raised))
  sided true false raised x = refl
  sided false true raised x = refl
  sided false false raised x =
      ap (λ r. record { alarming = false; raised = r }) (sym (append-nil raised))

  watch_distance-after : (w : Watch) (x : F64) → watch_distance F show c w x ≡ after w (x ∷ [])
  unfolding watch_distance crossings last_side
  watch_distance-after w x = sided w.alarming (is_outside x) w.raised x

  after-nil : (w : Watch) → after w [] ≡ w
  unfolding crossings last_side
  after-nil w = ap (λ r. record { alarming = w.alarming; raised = r }) (append-nil w.raised)

  last_side-append :
      (b : Bool) (xs ys : List F64) → last_side b (xs ++ ys) ≡ last_side (last_side b xs) ys
  unfolding last_side
  last_side-append b [] ys = refl
  last_side-append b (x ∷ xs) ys = last_side-append (is_outside x) xs ys

  append-choice :
      (b : Bool) (n : Notification) (ns ms : List Notification)
      → (if b then n ∷ (ns ++ ms) else ns ++ ms) ≡ (if b then n ∷ ns else ns) ++ ms
  append-choice true n ns ms = refl
  append-choice false n ns ms = refl

  crossings-append :
      (b : Bool) (xs ys : List F64)
      → crossings b (xs ++ ys) ≡ crossings b xs ++ crossings (last_side b xs) ys
  unfolding crossings last_side
  crossings-append b [] ys = refl
  crossings-append b (x ∷ xs) ys =
      let n = notification F show x c.radius (is_outside x) in
      let tail = crossings (last_side (is_outside x) xs) ys in
      ap (λ rest. if differs b (is_outside x) then n ∷ rest else rest)
        (crossings-append (is_outside x) xs ys)
      ∙ append-choice (differs b (is_outside x)) n (crossings (is_outside x) xs) tail

  after-after : (w : Watch) (xs ys : List F64) → after (after w xs) ys ≡ after w (xs ++ ys)
  after-after w xs ys =
      let mid = last_side w.alarming xs in
      ap
        (λ b. record {
          alarming = b;
          raised = (w.raised ++ crossings w.alarming xs) ++ crossings mid ys;
        })
        (sym (last_side-append w.alarming xs ys))
      ∙ ap (λ r. record { alarming = last_side w.alarming (xs ++ ys); raised = r })
          (append_assoc w.raised (crossings w.alarming xs) (crossings mid ys)
            ∙ ap (λ t. w.raised ++ t) (sym (crossings-append w.alarming xs ys)))

  watch_position-after :
      (w : Watch) (p : Option (F64 × F64))
      → watch_position F show c w p ≡ after w (value_distances p)
  unfolding watch_position value_distances
  watch_position-after w none = sym (after-nil w)
  watch_position-after w (some p) = watch_distance-after w (anchor_distance F show c p)

  choice-after :
      (b : Bool) (w w' : Watch) (xs : List F64)
      → w' ≡ after w xs
      → (if b then w' else w) ≡ after w (if b then xs else [])
  choice-after true w w' xs same = same
  choice-after false w w' xs same = sym (after-nil w)

  watch_values-after :
      (w : Watch) (pvs : List PathValue)
      → watch_values F show c w pvs ≡ after w (values_distances pvs)
  unfolding watch_values values_distances
  watch_values-after w [] = sym (after-nil w)
  watch_values-after w (pv ∷ pvs) =
      let p = lat_lon F show pv.value in
      let b = pv.path == "navigation.position" in
      let xs = if b then value_distances p else [] in
      ap (λ w'. watch_values F show c w' pvs)
        (choice-after b w (watch_position F show c w p) (value_distances p)
          (watch_position-after w p))
      ∙ watch_values-after (after w xs) pvs
      ∙ after-after w xs (values_distances pvs)

  watch_updates-after :
      (w : Watch) (us : List Update) → watch_updates F show c w us ≡ after w (updates_distances us)
  unfolding watch_updates updates_distances
  watch_updates-after w [] = sym (after-nil w)
  watch_updates-after w (u ∷ us) =
      ap (λ w'. watch_updates F show c w' us) (watch_values-after w u.values)
      ∙ watch_updates-after (after w (values_distances u.values)) us
      ∙ after-after w (values_distances u.values) (updates_distances us)

  watch_all-after : (w : Watch) (ds : List Delta) → watch_all w ds ≡ after w (distances ds)
  unfolding watch_all distances watch_delta
  watch_all-after w [] = sym (after-nil w)
  watch_all-after w (d ∷ ds) =
      ap (λ w'. watch_all w' ds) (watch_updates-after w d.updates)
      ∙ watch_all-after (after w (updates_distances d.updates)) ds
      ∙ after-after w (updates_distances d.updates) (distances ds)

  -- Over any deltas from the start, only the positions in them count, in their order: a notification
  -- is raised just where one lies on another side of the radius than the one before (an alarm on the
  -- way out, the all-clear on the way in, beginning inside), and the alarm is on just when the last
  -- one lies outside.
  pub watch_all-crossings :
      (ds : List Delta)
      → watch_all new_watch ds ≡ record {
        alarming = last_side false (distances ds);
        raised = crossings false (distances ds);
      }
  unfolding new_watch
  watch_all-crossings ds = watch_all-after new_watch ds
