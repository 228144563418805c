-- ===== src/Alert/Routing.antt =====
-- src/app/alert_routing.hpp: the delivery policy, with the settings of src/types.hpp.
use Prim.Native.String.{String}
use text.Mathlib.Text.{◌==◌ as str_eq}
use snapback.Prelude.{ℕ, Bool, true, false, ◌&&◌, ◌||◌, not, Option, none, some, if◌then◌else◌}
use snapback.Prelude.Int.{ℤ, pos, ltb_ℤ, leb_ℤ, eqb_ℤ}

pub data AlertEvent : Type 0 where
  snapback_return hyperfocus pomodoro untracked_work : AlertEvent

abbrev pub alert_event_count : ℕ
alert_event_count = 4

unfoldable pub alert_event_index : AlertEvent → ℕ
alert_event_index snapback_return = 0
alert_event_index hyperfocus = 1
alert_event_index pomodoro = 2
alert_event_index untracked_work = 3

pub data AlertSuppression : Type 0 where
  unsuppressed snoozed quiet_hours channels_off conversion_failed : AlertSuppression

pub data AlertAction : Type 0 where
  no_action return_to_work open_session_composer open_pomodoro : AlertAction

pub data AlertPreviewMode : Type 0 where
  detailed generic : AlertPreviewMode

pub record AlertChannels : Type 0 where
  pub in_app : Bool
  pub overlay : Bool
  pub native : Bool

unfoldable pub any : AlertChannels → Bool
any c = c.in_app || c.overlay || c.native

pub record AlertDeliverySettings : Type 0 where
  pub snapback_channels : AlertChannels
  pub hyperfocus_channels : AlertChannels
  pub pomodoro_channels : AlertChannels
  pub preview : AlertPreviewMode
  pub quiet_hours_enabled : Bool
  pub quiet_hours_start_min : ℤ
  pub quiet_hours_end_min : ℤ
  pub snoozed_until_wall_ms : ℤ

pub record AlertRoute : Type 0 where
  pub channels : AlertChannels
  pub preview : AlertPreviewMode
  pub suppressed_by : AlertSuppression
  pub action : AlertAction

unfoldable pub visible : AlertRoute → Bool
visible r = any r.channels

unfoldable pub alert_action_for : AlertEvent → AlertAction
alert_action_for snapback_return = return_to_work
alert_action_for untracked_work = open_session_composer
alert_action_for pomodoro = open_pomodoro
alert_action_for hyperfocus = open_pomodoro

unfoldable pub minute_in_quiet_range : ℤ → ℤ → ℤ → Bool
minute_in_quiet_range minute start end =
    if eqb_ℤ start end
    then false
    else if ltb_ℤ start end
    then leb_ℤ start minute && ltb_ℤ minute end
    else leb_ℤ start minute || ltb_ℤ minute end

abbrev pub no_channels : AlertChannels
no_channels = record { in_app = false; overlay = false; native = false }

-- The `switch` of `route_alert`.
unfoldable pub configured_channels : AlertEvent → AlertDeliverySettings → AlertChannels
configured_channels snapback_return s = s.snapback_channels
configured_channels hyperfocus s = s.hyperfocus_channels
configured_channels pomodoro s = s.pomodoro_channels
configured_channels untracked_work s = record { in_app = true; overlay = false; native = false }

-- The lambda `silence`.
unfoldable pub silence : AlertRoute → AlertSuppression → AlertRoute
silence r why = record r { channels = no_channels; action = no_action; suppressed_by = why }

-- The last test of `route_alert`, once snooze and quiet hours have let the alert pass.
unfoldable pub finish_route : AlertRoute → AlertRoute
finish_route r =
    if not (any r.channels)
    then record r { suppressed_by = channels_off; action = no_action }
    else r

unfoldable pub quiet_route : AlertRoute → AlertDeliverySettings → Option ℤ → AlertRoute
quiet_route r s none = record r { suppressed_by = conversion_failed }
quiet_route r s (some minute) =
    if minute_in_quiet_range minute s.quiet_hours_start_min s.quiet_hours_end_min
    then silence r quiet_hours
    else finish_route r

unfoldable pub route_alert : AlertEvent → AlertDeliverySettings → ℤ → Option ℤ → AlertRoute
route_alert event s now_wall_ms local_minute_of_day =
    let route : AlertRoute = record {
      channels = configured_channels event s;
      preview = s.preview;
      suppressed_by = unsuppressed;
      action = alert_action_for event;
    } in
    if ltb_ℤ (pos 0) s.snoozed_until_wall_ms && ltb_ℤ now_wall_ms s.snoozed_until_wall_ms
    then silence route snoozed
    else if s.quiet_hours_enabled
    then quiet_route route s local_minute_of_day
    else finish_route route

unfoldable pub alert_action_as_str : AlertAction → String
alert_action_as_str return_to_work = "return to work"
alert_action_as_str open_session_composer = "open session composer"
alert_action_as_str open_pomodoro = "open pomodoro"
alert_action_as_str no_action = "none"

-- The loop over the destinations in `from_json`: a later match would win.
unfoldable pub alert_action_from_str : String → AlertAction
alert_action_from_str action =
    if str_eq action (alert_action_as_str open_pomodoro)
    then open_pomodoro
    else if str_eq action (alert_action_as_str open_session_composer)
    then open_session_composer
    else if str_eq action (alert_action_as_str return_to_work)
    then return_to_work
    else no_action
