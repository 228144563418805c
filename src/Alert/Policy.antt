-- ===== src/Alert/Policy.antt =====
-- src/app/alert_routing.hpp: when an alert is delivered, and what an undelivered one keeps.
use snapback.Prelude.{
  ◌||◌, if◌then◌else◌, ℕ, ◌+◌, ◌-◌, ◌%◌, ◌<◌, ◌≡◌, ◌≢◌, refl, Bool, true, false, ◌&&◌, not, Option,
  none, some, arith, ltb,
}
use snapback.Prelude.Int.{ℤ, pos, ltb_ℤ}
use snapback.Alert.Routing.{
  no_channels, AlertEvent, conversion_failed, AlertAction, no_action, return_to_work,
  open_session_composer, open_pomodoro, AlertDeliverySettings, any, visible, alert_action_for,
  minute_in_quiet_range, configured_channels, silence, finish_route, quiet_route, route_alert,
  alert_action_as_str, alert_action_from_str,
}

-- For minutes of a day: a minute lies in a quiet range exactly when, counted on from its start round the
-- day, it comes before its end.
pub minute_in_quiet_range_circular :
    (m s e : ℕ)
    → m < 1440
    → s < 1440
    → e < 1440
    → minute_in_quiet_range (pos m) (pos s) (pos e)
      ≡ ltb ((m + 1440 - s) % 1440) ((e + 1440 - s) % 1440)
unfolding minute_in_quiet_range
minute_in_quiet_range_circular m s e hm hs he = ground arith

abbrev pub is_snoozed : AlertDeliverySettings → ℤ → Bool
is_snoozed s now = ltb_ℤ (pos 0) s.snoozed_until_wall_ms && ltb_ℤ now s.snoozed_until_wall_ms

-- Quiet hours hold back an alert only where the local time is known.
abbrev pub is_quiet : AlertDeliverySettings → Option ℤ → Bool
is_quiet s none = false
is_quiet s (some m) =
    s.quiet_hours_enabled && minute_in_quiet_range m s.quiet_hours_start_min s.quiet_hours_end_min

-- An alert that is delivered without the check of quiet hours, since the local time is not known.
abbrev pub is_unchecked : AlertDeliverySettings → ℤ → Option ℤ → Bool
is_unchecked s now none = s.quiet_hours_enabled && not (is_snoozed s now)
is_unchecked s now (some m) = false

-- An alert is visible exactly when its event has a channel, it is not snoozed and it is not in quiet hours. It is
-- delivered by all the channels of its event or by none. It has its event's destination if it is visible, and none if it is
-- not, except where quiet hours are on, the local time is unknown and it is not snoozed.
pub route_alert-visible :
    (event : AlertEvent) (s : AlertDeliverySettings) (now : ℤ) (m : Option ℤ)
    → let r = route_alert event s now m in
      (visible r
        ≡ (any (configured_channels event s) && not (is_snoozed s now) && not (is_quiet s m)))
      × (r.channels ≡ (if visible r then configured_channels event s else no_channels))
      × (r.action
          ≡ (if visible r || is_unchecked s now m then alert_action_for event else no_action))
unfolding route_alert visible quiet_route finish_route silence any
route_alert-visible event s now none = ground arith
route_alert-visible event s now (some m) = ground arith

-- With quiet hours on, the local time unknown and no snooze, an alert whose event has no channel is not
-- visible, and yet it keeps a destination and is marked as delivered without the check of quiet hours.
pub route_alert_unknown_time :
    (event : AlertEvent) (s : AlertDeliverySettings) (now : ℤ)
    → s.quiet_hours_enabled ≡ true
    → is_snoozed s now ≡ false
    → any (configured_channels event s) ≡ false
    → let r = route_alert event s now none in
      (visible r ≡ false) × (r.suppressed_by ≡ conversion_failed) × (r.action ≢ no_action)
unfolding route_alert visible quiet_route any alert_action_for
route_alert_unknown_time event s now q z off = ground arith

-- The destination survives the wire.
pub alert_action_roundtrip : (a : AlertAction) → alert_action_from_str (alert_action_as_str a) ≡ a
unfolding alert_action_from_str alert_action_as_str
alert_action_roundtrip no_action = refl
alert_action_roundtrip return_to_work = refl
alert_action_roundtrip open_session_composer = refl
alert_action_roundtrip open_pomodoro = refl
