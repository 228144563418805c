-- ===== src/Wire/Range.antt =====
-- src/types.cpp and src/types.hpp: settings that were read are in range, and read back.
use snapback.Prelude.{arith, subst, ◌≡◌, ap, refl, some}
use snapback.Prelude.Int.{◌≤ℤ◌, pos}
use snapback.Wire.Laws.{written_field, get_or-holds, bind-some, some_inj, field, vector-IsCodec}
use snapback.Wire.Timer.{
  IsUsable, IsFloored, default_config, no_snapshot, pomodoro_config_codec, pomodoro_state_codec,
  pomodoro_config_is_there, pomodoro_config_reads_back, pomodoro_state_is_there,
  pomodoro_state_reads_back, pomodoro_config_from_json-IsUsable, pomodoro_state_from_json-IsFloored,
}
use snapback.Wire.Channels.{default_delivery}
use snapback.Wire.Delivery.{
  delivery_codec, IsInDay, delivery_is_there, delivery_reads_back, delivery_from_json-IsInDay,
}
use snapback.Wire.Modes.{focus_mode_codec, focus_mode-IsCodec, categories_codec, categories-IsCodec}
use snapback.Wire.Settings.{AppSettings, check_settings, settings_to_json, settings_from_json}
use snapback.Wire.Json.{JsonLibrary, JsonLaws, vector}

-- What the reader of the settings warrants, whatever the file holds.
pub record IsInRange (v : AppSettings) : Type 0 where
  pub threshold : (pos 30 ≤ℤ v.idle_threshold_secs) × (v.idle_threshold_secs ≤ℤ pos 3600)
  pub config : IsUsable v.pomodoro
  pub timer : IsFloored v.pomodoro_state
  pub dismissal : pos 0 ≤ℤ v.untracked_nudge_until_wall_ms
  pub delivery : IsInDay v.alerts

unchanged-IsInRange : (v : AppSettings) → IsInRange v → check_settings v ≡ v
unfolding check_settings
unchanged-IsInRange v h = ground (arith, h.threshold, h.dismissal)

check_settings-IsInRange :
    (v : AppSettings)
    → IsUsable v.pomodoro
    → IsFloored v.pomodoro_state
    → IsInDay v.alerts
    → IsInRange (check_settings v)
unfolding check_settings
check_settings-IsInRange v c t d = record {
  threshold = ground arith;
  config = c;
  timer = t;
  dismissal = ground arith;
  delivery = d;
}

default_config-IsUsable : IsUsable default_config
default_config-IsUsable = record {
  lengths = record { work_pos = omega arith; short_pos = omega arith; long_pos = omega arith };
  interval = omega arith;
}

no_snapshot-IsFloored : IsFloored no_snapshot
no_snapshot-IsFloored = record { intervals = omega arith; left = omega arith }

default_delivery-IsInDay : IsInDay default_delivery
default_delivery-IsInDay = record {
  start = (omega arith, omega arith);
  end = (omega arith, omega arith);
  snooze = omega arith;
}

module _ (L : JsonLibrary) where
  -- Settings that are read are in range, whatever the file holds.
  pub settings_from_json-IsInRange :
      (j : L.Json) (v : AppSettings) → settings_from_json L j ≡ some v → IsInRange v
  unfolding settings_from_json
  settings_from_json-IsInRange j v h =
      let (default_focus_mode, e0, h0) = bind-some h in
      let (private_mode, e1, h1) = bind-some h0 in
      let (excluded_apps, e2, h2) = bind-some h1 in
      let (goal_categories, e3, h3) = bind-some h2 in
      let (idle_threshold_secs, e4, h4) = bind-some h3 in
      let (pomodoro, e5, h5) = bind-some h4 in
      let (pomodoro_state, e6, h6) = bind-some h5 in
      let (attended_target_daily_mins, e7, h7) = bind-some h6 in
      let (attended_target_weekly_mins, e8, h8) = bind-some h7 in
      let (private_until_wall_ms, e9, h9) = bind-some h8 in
      let (untracked_nudge_until_wall_ms, e10, h10) = bind-some h9 in
      let (alerts, e11, h11) = bind-some h10 in
      let (tray_close_notice_shown, e12, h12) = bind-some h11 in
      subst IsInRange (some_inj h12) (
        check_settings-IsInRange _
          (get_or-holds L (pomodoro_config_codec L) IsUsable j "pomodoro" default_config
            default_config-IsUsable (pomodoro_config_from_json-IsUsable L) e5)
          (get_or-holds L (pomodoro_state_codec L) IsFloored j "pomodoroState" no_snapshot
            no_snapshot-IsFloored (pomodoro_state_from_json-IsFloored L) e6)
          (get_or-holds L (delivery_codec L) IsInDay j "alerts" default_delivery
            default_delivery-IsInDay (delivery_from_json-IsInDay L) e11))

  module _ (laws : JsonLaws L) where
    -- Settings in range that are written read back as they were.
    pub settings_reads_back :
        (v : AppSettings) → IsInRange v → settings_from_json L (settings_to_json L v) ≡ some v
    unfolding settings_to_json settings_from_json
    settings_reads_back v h =
        field L laws (focus_mode_codec L) (focus_mode-IsCodec L laws) _ "defaultFocusMode" _ _ refl
          (field L laws L.boolean laws.boolean_law _ "privateMode" _ _ refl (
            field L laws (vector L L.text) (vector-IsCodec L laws L.text laws.text_law) _
              "excludedApps" _ _ refl
              (field L laws (categories_codec L) (categories-IsCodec L laws) _ "goalCategories" _ _
                refl
                (field L laws L.integer laws.integer_law _ "idleThresholdSecs" _ _ refl (
                  written_field L laws (pomodoro_config_codec L) _ "pomodoro" _ _
                    (pomodoro_config_is_there L laws _)
                    (pomodoro_config_reads_back L laws _ h.config) refl
                    (written_field L laws (pomodoro_state_codec L) _ "pomodoroState" _ _
                      (pomodoro_state_is_there L laws _)
                      (pomodoro_state_reads_back L laws _ h.timer) refl
                      (field L laws L.unsigned laws.unsigned_law _ "attendedTargetDailyMins" _ _
                        refl
                        (field L laws L.unsigned laws.unsigned_law _ "attendedTargetWeeklyMins" _ _
                          refl
                          (field L laws L.integer laws.integer_law _ "privateUntilWallMs" _ _ refl (
                            field L laws L.integer laws.integer_law _ "untrackedNudgeUntilWallMs" _
                              _ refl
                              (written_field L laws (delivery_codec L) _ "alerts" _ _
                                (delivery_is_there L laws _)
                                (delivery_reads_back L laws _ h.delivery) refl
                                (field L laws L.boolean laws.boolean_law _ "trayCloseNoticeShown" _
                                  _ refl (ap some (unchanged-IsInRange v h))))))))))))))

    -- Settings that were read from any file are read back as they were from the file that they are then written to.
    pub settings_settle :
        (j : L.Json) (v : AppSettings)
        → settings_from_json L j ≡ some v
        → settings_from_json L (settings_to_json L v) ≡ some v
    settings_settle j v h = settings_reads_back v (settings_from_json-IsInRange j v h)
