-- ===== src/Wire/Settings.antt =====
-- src/types.cpp and src/types.hpp: the settings, as JSON and back.
use snapback.Prelude.{◌&&◌, if◌then◌else◌, ℕ, Bool, false, List, [], ◌∷◌, Option, some}
use snapback.Prelude.Int.{leb_ℤ, max_ℤ, ℤ, pos}
use snapback.Wire.Timer.{default_config, no_snapshot, pomodoro_config_codec, pomodoro_state_codec}
use snapback.Wire.Channels.{default_delivery}
use snapback.Wire.Delivery.{delivery_codec}
use snapback.Wire.Modes.{focus_mode_codec, categories_codec}
use snapback.Alert.Routing.{AlertDeliverySettings}
use snapback.Tracker.AppContext.{GoalCategory}
use snapback.Engine.Guardrails.{FocusMode, normal}
use snapback.Pomodoro.Phase.{PomodoroConfig}
use snapback.Pomodoro.Persist.{PomodoroSnapshot}
use snapback.Wire.Json.{◌>>=◌, Text, Codec, JsonLibrary, get_or, vector}

pub record AppSettings : Type 0 where
  pub default_focus_mode : FocusMode
  pub private_mode : Bool
  pub excluded_apps : List Text
  pub goal_categories : List GoalCategory
  pub idle_threshold_secs : ℤ
  pub pomodoro : PomodoroConfig
  pub pomodoro_state : PomodoroSnapshot
  pub attended_target_daily_mins : ℕ
  pub attended_target_weekly_mins : ℕ
  pub private_until_wall_ms : ℤ
  pub untracked_nudge_until_wall_ms : ℤ
  pub alerts : AlertDeliverySettings
  pub tray_close_notice_shown : Bool

abbrev pub default_idle_threshold_secs : ℤ
default_idle_threshold_secs = pos 300

abbrev pub min_idle_threshold_secs : ℤ
min_idle_threshold_secs = pos 30

abbrev pub max_idle_threshold_secs : ℤ
max_idle_threshold_secs = pos 3600

-- The idle threshold falls back to the default, and a dismissed prompt is no negative instant.
unfoldable pub check_settings : AppSettings → AppSettings
check_settings v = record v {
  idle_threshold_secs =
      if leb_ℤ min_idle_threshold_secs v.idle_threshold_secs
        && leb_ℤ v.idle_threshold_secs max_idle_threshold_secs
      then v.idle_threshold_secs
      else default_idle_threshold_secs;
  untracked_nudge_until_wall_ms = max_ℤ (pos 0) v.untracked_nudge_until_wall_ms;
}

module _ (L : JsonLibrary) where
  unfoldable pub settings_to_json : AppSettings → L.Json
  settings_to_json v = L.object (
      ("defaultFocusMode", (focus_mode_codec L).write v.default_focus_mode)
      ∷ ("privateMode", L.boolean.write v.private_mode)
      ∷ ("excludedApps", (vector L L.text).write v.excluded_apps)
      ∷ ("goalCategories", (categories_codec L).write v.goal_categories)
      ∷ ("idleThresholdSecs", L.integer.write v.idle_threshold_secs)
      ∷ ("pomodoro", (pomodoro_config_codec L).write v.pomodoro)
      ∷ ("pomodoroState", (pomodoro_state_codec L).write v.pomodoro_state)
      ∷ ("attendedTargetDailyMins", L.unsigned.write v.attended_target_daily_mins)
      ∷ ("attendedTargetWeeklyMins", L.unsigned.write v.attended_target_weekly_mins)
      ∷ ("privateUntilWallMs", L.integer.write v.private_until_wall_ms)
      ∷ ("untrackedNudgeUntilWallMs", L.integer.write v.untracked_nudge_until_wall_ms)
      ∷ ("alerts", (delivery_codec L).write v.alerts)
      ∷ ("trayCloseNoticeShown", L.boolean.write v.tray_close_notice_shown)
      ∷ [])

  unfoldable pub settings_from_json : L.Json → Option AppSettings
  settings_from_json j = do
    default_focus_mode ← get_or L (focus_mode_codec L) j "defaultFocusMode" normal
    private_mode ← get_or L L.boolean j "privateMode" false
    excluded_apps ← get_or L (vector L L.text) j "excludedApps" []
    goal_categories ← get_or L (categories_codec L) j "goalCategories" []
    idle_threshold_secs ← get_or L L.integer j "idleThresholdSecs" default_idle_threshold_secs
    pomodoro ← get_or L (pomodoro_config_codec L) j "pomodoro" default_config
    pomodoro_state ← get_or L (pomodoro_state_codec L) j "pomodoroState" no_snapshot
    attended_target_daily_mins ← get_or L L.unsigned j "attendedTargetDailyMins" 0
    attended_target_weekly_mins ← get_or L L.unsigned j "attendedTargetWeeklyMins" 0
    private_until_wall_ms ← get_or L L.integer j "privateUntilWallMs" (pos 0)
    untracked_nudge_until_wall_ms ← get_or L L.integer j "untrackedNudgeUntilWallMs" (pos 0)
    alerts ← get_or L (delivery_codec L) j "alerts" default_delivery
    tray_close_notice_shown ← get_or L L.boolean j "trayCloseNoticeShown" false
    some (
        check_settings (record {
          default_focus_mode = default_focus_mode;
          private_mode = private_mode;
          excluded_apps = excluded_apps;
          goal_categories = goal_categories;
          idle_threshold_secs = idle_threshold_secs;
          pomodoro = pomodoro;
          pomodoro_state = pomodoro_state;
          attended_target_daily_mins = attended_target_daily_mins;
          attended_target_weekly_mins = attended_target_weekly_mins;
          private_until_wall_ms = private_until_wall_ms;
          untracked_nudge_until_wall_ms = untracked_nudge_until_wall_ms;
          alerts = alerts;
          tray_close_notice_shown = tray_close_notice_shown;
        }))

  abbrev pub settings_codec : Codec L.Json AppSettings
  settings_codec = record { write = settings_to_json; read = settings_from_json }
