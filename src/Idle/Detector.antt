-- ===== src/Idle/Detector.antt =====
-- src/engine/idle_detector.hpp: the class `IdleDetector`, a function for each method.
use snapback.Prelude.{Bool, true, false, ◌&&◌, ◌||◌, not, Option, none, some, if◌then◌else◌}
use snapback.Prelude.Int.{ℤ, pos, ◌+ℤ◌, ◌-ℤ◌, leb_ℤ, max_ℤ}

pub data IdleState : Type 0 where
  active idle : IdleState

pub data IdleTransition : Type 0 where
  no_edge went_idle woke_up : IdleTransition

pub record IdleDetector : Type 0 where
  pub threshold_ms : ℤ
  pub last_activity_ms : ℤ
  pub last_idle_duration_ms : ℤ
  pub state : IdleState
  pub seen_activity : Bool

unfoldable pub new_detector : ℤ → IdleDetector
new_detector threshold = record {
  threshold_ms = threshold;
  last_activity_ms = pos 0;
  last_idle_duration_ms = pos 0;
  state = active;
  seen_activity = false;
}

abbrev pub is_idle : IdleState → Bool
is_idle active = false
is_idle idle = true

unfoldable pub on_activity : IdleDetector → ℤ → IdleDetector × IdleTransition
on_activity d now =
    let gap_ms = max_ℤ (pos 0) (now -ℤ d.last_activity_ms) in
    let seen = record d { last_activity_ms = now; seen_activity = true } in
    if is_idle d.state
    then (record seen { state = active; last_idle_duration_ms = gap_ms }, woke_up)
    else (seen, no_edge)

unfoldable pub poll : IdleDetector → ℤ → IdleDetector × IdleTransition
poll d now =
    if not d.seen_activity
    then (record d { last_activity_ms = now; seen_activity = true }, no_edge)
    else if leb_ℤ d.threshold_ms (pos 0)
    then (d, no_edge)
    else if not (is_idle d.state) && leb_ℤ d.threshold_ms (now -ℤ d.last_activity_ms)
    then (record d { state = idle }, went_idle)
    else (d, no_edge)

unfoldable pub next_deadline_ms : IdleDetector → Option ℤ
next_deadline_ms d =
    if not d.seen_activity || leb_ℤ d.threshold_ms (pos 0) || is_idle d.state
    then none
    else some (d.last_activity_ms +ℤ d.threshold_ms)

unfoldable pub set_threshold_ms : IdleDetector → ℤ → IdleDetector
set_threshold_ms d threshold = record d { threshold_ms = threshold }

unfoldable pub idle_for_ms : IdleDetector → ℤ → ℤ
idle_for_ms d now = if not d.seen_activity then pos 0 else max_ℤ (pos 0) (now -ℤ d.last_activity_ms)
