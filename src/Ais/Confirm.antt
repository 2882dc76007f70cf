-- ===== src/Ais/Confirm.antt =====
-- When a target is confirmed, and what a message reports: `record_message` of
-- crates/plugins/ais-status/src/tracker.rs.
use signalk_rs.Prelude.{
  Bool, true, false, Option, none, some, ℕ, ◌+◌, ◌≤◌, ◌<◌, ◌≡◌, refl, ap, ◌∙◌, Option, List, [],
  ◌∷◌, ◌++◌, String, ltb, leb, if◌then◌else◌, length, retain, arith, All, inl, inr, length-append,
  Bool-cases,
}
use signalk_rs.Subscription.{Instant}
use signalk_rs.Ais.{
  StatusTransition, transition, promote, lost, TargetStatus, acquiring, tracking, TrackedTarget,
  record_message, ThresholdOverrides, new_target, recent, window_start,
}

unfoldable hear : TrackedTarget → List Instant → TrackedTarget
unfolding record_message
hear t [] = t
hear t (now ∷ times) = hear (record_message t now).0 times

-- All the messages lie inside the window that ends at the time.
abbrev InWindow : ℕ → Instant → List Instant → Type 0
InWindow window now ms = All (λ m. window_start now window ≤ m) ms

retain-InWindow :
    (window : ℕ) (now : Instant) (ms : List Instant)
    → InWindow window now ms
    → retain (λ m. leb (window_start now window) m) ms ≡ ms
retain-InWindow window now [] h = refl
retain-InWindow window now (m ∷ ms) h = ground (arith, retain-InWindow window now ms h.1)

-- Each message finds the earlier ones, and those of `heard`, still inside its window.
abbrev AreClose : ℕ → List Instant → List Instant → Type 0
AreClose window heard [] = Unit
AreClose window heard (now ∷ times) =
    InWindow window now (heard ++ now ∷ []) × AreClose window (heard ++ now ∷ []) times

abbrev status_for : ℕ → ℕ → TargetStatus
status_for confirm_count n = if ltb n confirm_count then acquiring else tracking

hear_tracking :
    (t : TrackedTarget) (times : List Instant)
    → t.status ≡ tracking
    → (hear t times).status ≡ tracking
unfolding hear
hear_tracking t [] e = e
hear_tracking t (now ∷ times) e =
    hear_tracking (record_message t now).0 times (unfold record_message in ground arith)

-- One message for a target that is not confirmed yet.
record_message-acquiring :
    (t : TrackedTarget) (window : ℕ) (heard : List Instant) (now : Instant)
    → t.status ≡ acquiring
    → t.thresholds.confirm_window ≡ window
    → t.recent_messages ≡ heard
    → InWindow window now (heard ++ now ∷ [])
    → ((record_message t now).0.recent_messages ≡ heard ++ now ∷ [])
      × ((record_message t now).0.thresholds ≡ t.thresholds)
      × ((record_message t now).0.status
          ≡ (if leb t.thresholds.confirm_count (length heard + 1) then tracking else acquiring))
unfolding record_message
record_message-acquiring t window heard now e same_window same_heard close =
    let kept : recent t now ≡ heard ++ now ∷ [] =
      rw (same_window, same_heard) (retain-InWindow window now (heard ++ now ∷ []) close) in
    let longer = length-append heard (now ∷ []) in
    (ground (arith, kept), ground arith, ground (arith, kept, ap length kept, longer))

hear-status :
    (t : TrackedTarget) (confirm_count window : ℕ) (heard times : List Instant)
    → t.status ≡ acquiring
    → t.thresholds.confirm_count ≡ confirm_count
    → t.thresholds.confirm_window ≡ window
    → t.recent_messages ≡ heard
    → length heard + 1 ≤ confirm_count
    → AreClose window heard times
    → (hear t times).status ≡ status_for confirm_count (length heard + length times)
unfolding hear
hear-status t confirm_count window heard [] e same_count same_window same few close = ground arith
hear-status t confirm_count window heard (now ∷ times) e same_count same_window same few close =
    let (kept, steady, status) =
      record_message-acquiring t window heard now e same_window same close.0 in
    let t' = (record_message t now).0 in
    let longer : length (heard ++ now ∷ []) ≡ length heard + 1 = length-append heard (now ∷ []) in
    elim (Bool-cases (leb t.thresholds.confirm_count (length heard + 1))) [
      | inl enough ↦ hear_tracking t' times (status ∙ rw enough refl) ∙ ground (arith, same_count)
      | inr short ↦
          hear-status t' confirm_count window (heard ++ now ∷ []) times (status ∙ rw short refl)
            (ap (λ h. h.confirm_count) steady ∙ same_count)
            (ap (λ h. h.confirm_window) steady ∙ same_window) kept
            (ground (arith, same_count, longer)) close.1
          ∙ ground (arith, longer)
    ]

-- A new target that has heard some messages, each inside the confirmation window of every later
-- one, is acquiring while they are fewer than its class's confirmation count and is tracking from
-- then on, where that count is not 0.
new_target-confirmed :
    (mmsi context : String) (first now : Instant) (times : List Instant)
    (o : Option ThresholdOverrides)
    → 0 < (new_target mmsi context first o).thresholds.confirm_count
    → AreClose (new_target mmsi context first o).thresholds.confirm_window [] (now ∷ times)
    → (hear (new_target mmsi context first o) (now ∷ times)).status ≡ (
        if ltb (length times + 1) (new_target mmsi context first o).thresholds.confirm_count
        then acquiring
        else tracking)
unfolding new_target
new_target-confirmed mmsi context first now times o some_count close =
    hear-status (new_target mmsi context first o)
      (new_target mmsi context first o).thresholds.confirm_count
      (new_target mmsi context first o).thresholds.confirm_window [] (now ∷ times) refl refl refl
      refl (ground arith) close
    ∙ ground arith

same_status : TargetStatus → TargetStatus → Bool
same_status acquiring acquiring = true
same_status tracking tracking = true
same_status lost lost = true
same_status s s' = false

-- The report of a change to a status: none where the target has it already.
unfoldable pub change : TrackedTarget → TargetStatus → Option StatusTransition
unfolding same_status
change t status = if same_status t.status status then none else some (transition t status)

promote-change :
    (s : TargetStatus) (t u : TrackedTarget) (now : Instant)
    → u.status ≡ s
    → t.status ≡ s
    → t.mmsi ≡ u.mmsi
    → t.context ≡ u.context
    → (promote s u now).1 ≡ change t (promote s u now).0.status
unfolding promote change same_status
promote-change acquiring t u now e f m c = ground (arith, e, f, m, c)
promote-change tracking t u now e f m c = ground (arith, e, f, m, c)
promote-change lost t u now e f m c = ground (arith, e, f, m, c)

-- A message reports a transition exactly if it changes the target's status, and the transition has
-- the target's MMSI and context, the status it had and the status it has now.
record_message-change :
    (t : TrackedTarget) (now : Instant)
    → (record_message t now).1 ≡ change t (record_message t now).0.status
unfolding record_message
record_message-change t now = promote-change t.status t _ now refl refl refl refl
