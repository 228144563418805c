-- ===== src/Tracker/Machine.antt =====
-- src/snapback/tracker.cpp: `ContextTracker`. Times are whole milliseconds on the event clock; a negative start is `-1.0`, "not set".
use snapback.Prelude.{
  ℕ, ◌/◌, ◌%◌, ◌^◌, Bool, true, false, ◌&&◌, ◌||◌, not, List, [], ◌++◌, Option, none, some,
  if◌then◌else◌,
}
use snapback.Prelude.Int.{ℤ, pos, negsuc, pos_part, ◌-ℤ◌, ltb_ℤ, leb_ℤ, max_ℤ}
use snapback.Prelude.Text.{codes, is_empty}
use snapback.Tracker.AppContext.{
  Text, AppRuleRecord, GoalCategory, classify_app_context, snapback_on_task,
}
use snapback.Tracker.Title.{parse_title}

pub data DistractionState : Type 0 where
  focused distracted recovering : DistractionState

-- `Snapshot`, and `ContextSnapshotDto` with the same fields.
pub record Snapshot : Type 0 where
  pub app_name : Text
  pub window_title : Text
  pub file_hint : Text
  pub project_hint : Text
  pub summary : Text
  pub timestamp_ms : ℤ

pub record SnapbackPayload : Type 0 where
  pub app_name : Text
  pub window_title : Text
  pub file_hint : Text
  pub summary : Text
  pub distraction_duration_secs : ℕ

pub record ContextTracker : Type 0 where
  pub state : DistractionState
  pub current : Snapshot
  pub last_focus_snapshot : Option Snapshot
  pub distraction_started : ℤ
  pub focus_started : ℤ
  pub last_snapshot : ℤ
  pub snapshot_interval : ℤ
  pub min_distraction : ℤ
  pub pending_snapback : Option SnapbackPayload
  pub latest_focus_state : Option Text
  pub latest_session_goal : Option Text
  pub goal_categories : List GoalCategory

unfoldable pub meaningful : Snapshot → Bool
meaningful s = not (is_empty s.app_name) || not (is_empty s.window_title)

unfoldable pub make_snapshot : Text → Text → ℤ → Snapshot
make_snapshot app_name window_title timestamp_ms =
    let hints = parse_title window_title in
    record {
      app_name = app_name;
      window_title = window_title;
      file_hint = hints.file_hint;
      project_hint = hints.project_hint;
      summary =
          if is_empty hints.file_hint
          then codes "Working in " ++ app_name
          else codes "Editing " ++ hints.file_hint;
      timestamp_ms = timestamp_ms;
    }

unfoldable pub new_tracker : ContextTracker
new_tracker = record {
  state = focused;
  current = record {
    app_name = [];
    window_title = [];
    file_hint = [];
    project_hint = [];
    summary = [];
    timestamp_ms = pos 0;
  };
  last_focus_snapshot = none;
  distraction_started = negsuc 999;
  focus_started = pos 0;
  last_snapshot = pos 0;
  snapshot_interval = pos 30000;
  min_distraction = pos 30000;
  pending_snapback = none;
  latest_focus_state = none;
  latest_session_goal = none;
  goal_categories = [];
}

unfoldable pub set_prediction_feedback : ContextTracker → Option Text → Option Text → ContextTracker
set_prediction_feedback t focus_state goal = record t {
  latest_focus_state = focus_state;
  latest_session_goal = goal;
}

unfoldable pub is_on_task : ContextTracker → Text → Text → List AppRuleRecord → Bool
is_on_task t app_name window_title rules =
    if is_empty app_name && is_empty window_title
    then false
    else snapback_on_task (classify_app_context app_name window_title rules) window_title
        t.latest_focus_state t.latest_session_goal t.goal_categories

unfoldable pub payload_of : Snapshot → ℤ → SnapbackPayload
payload_of s distraction_ms = record {
  app_name = s.app_name;
  window_title = s.window_title;
  file_hint = s.file_hint;
  summary =
      if is_empty s.file_hint
      then codes "Return to " ++ s.app_name
      else codes "Return to " ++ s.file_hint;
  distraction_duration_secs = pos_part distraction_ms / 1000 % 2 ^ 32;
}

unfoldable pub build_snapback : ContextTracker → ℤ → Option SnapbackPayload
build_snapback t distraction_ms = elim t.last_focus_snapshot [
  | none ↦ none
  | some s ↦ some (payload_of s distraction_ms)
]

abbrev pub is_focused : DistractionState → Bool
is_focused focused = true
is_focused distracted = false
is_focused recovering = false

abbrev pub is_distracted : DistractionState → Bool
is_distracted focused = false
is_distracted distracted = true
is_distracted recovering = false

-- The first `if` of `observe_window_change`.
unfoldable pub remember_focus : ContextTracker → Bool → ContextTracker
remember_focus t was_on_task =
    if is_focused t.state && meaningful t.current && was_on_task
    then record t { last_focus_snapshot = some t.current }
    else t

unfoldable pub distraction_ms : ContextTracker → ℤ → ℤ
distraction_ms t now =
    if leb_ℤ (pos 0) t.distraction_started
    then max_ℤ (pos 0) (now -ℤ t.distraction_started)
    else pos 0

-- The change of state, of `observe_window_change`.
unfoldable pub change_state : ContextTracker → Bool → Bool → ℤ → ContextTracker
change_state t was_on_task now_on_task now =
    if is_focused t.state && was_on_task && not now_on_task
    then record t { state = distracted; distraction_started = now }
    else if is_distracted t.state && now_on_task
    then (if leb_ℤ t.min_distraction (distraction_ms t now)
        then record t {
          state = recovering;
          pending_snapback = build_snapback t (distraction_ms t now);
        }
        else record t { state = focused; focus_started = now })
    else t

-- What `observe_window_change` does last, with the snapshot to store.
unfoldable pub take_window : ContextTracker → Snapshot → Bool → ℤ → ContextTracker × Option Snapshot
take_window t s now_on_task now =
    if not (meaningful s) || not now_on_task
    then (record t { current = s }, none)
    else (record t { current = s; last_focus_snapshot = some s; last_snapshot = now }, some s)

unfoldable pub observe_window_change :
    ContextTracker → Text → Text → List AppRuleRecord → ℤ → ℤ → ContextTracker × Option Snapshot
observe_window_change t app_name window_title rules now timestamp_ms =
    let was_on_task = is_on_task t t.current.app_name t.current.window_title rules in
    let now_on_task = is_on_task t app_name window_title rules in
    take_window (change_state (remember_focus t was_on_task) was_on_task now_on_task now)
      (make_snapshot app_name window_title timestamp_ms) now_on_task now

unfoldable pub maybe_checkpoint_snapshot :
    ContextTracker → List AppRuleRecord → ℤ → ℤ → ContextTracker × Option Snapshot
maybe_checkpoint_snapshot t rules now timestamp_ms =
    let stamped = record (t.current) { timestamp_ms = timestamp_ms } in
    if not (is_focused t.state)
    then (t, none)
    else if ltb_ℤ (now -ℤ t.last_snapshot) t.snapshot_interval
    then (t, none)
    else if not (meaningful t.current)
        || not (is_on_task t t.current.app_name t.current.window_title rules)
    then (record t { last_snapshot = now }, none)
    else (
      record t { current = stamped; last_focus_snapshot = some stamped; last_snapshot = now },
      some stamped,
    )

unfoldable pub take_pending_snapback : ContextTracker → ContextTracker × Option SnapbackPayload
take_pending_snapback t = (record t { pending_snapback = none }, t.pending_snapback)

abbrev pub is_recovering : DistractionState → Bool
is_recovering focused = false
is_recovering distracted = false
is_recovering recovering = true

unfoldable pub dismiss_recovery : ContextTracker → ℤ → ContextTracker
dismiss_recovery t now =
    if is_recovering t.state then record t { state = focused; focus_started = now } else t
