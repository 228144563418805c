-- ===== src/Alert/Tests.antt =====
-- A night's alerts, and the theorems at them.
use snapback.Prelude.{◌≡◌, refl, true, false, [], ◌∷◌, Option, some}
use snapback.Prelude.Int.{◌+ℤ◌, ℤ, pos}
use snapback.Alert.Routing.{
  silence, quiet_route, configured_channels, snapback_return, pomodoro, unsuppressed, no_action,
  return_to_work, AlertChannels, AlertDeliverySettings, AlertRoute, detailed, any, visible,
  alert_event_index, minute_in_quiet_range, route_alert,
}
use snapback.Alert.Ids.{AlertIds, no_ids, issue_alert_id, outstanding_alert_id, claim_alert_action}
use snapback.Alert.Claims.{issues, apply_op, apply_ops, claim_once}
use snapback.Alert.Policy.{route_alert-visible}

abbrev everywhere : AlertChannels
everywhere = record { in_app = true; overlay = true; native = true }

abbrev nowhere : AlertChannels
nowhere = record { in_app = false; overlay = false; native = false }

abbrev nightly : AlertDeliverySettings
nightly = record {
  snapback_channels = everywhere;
  hyperfocus_channels = nowhere;
  pomodoro_channels = everywhere;
  preview = detailed;
  quiet_hours_enabled = true;
  quiet_hours_start_min = pos 1320;
  quiet_hours_end_min = pos 420;
  snoozed_until_wall_ms = pos 0;
}

-- one in the morning, within quiet hours that run from ten at night to seven
abbrev one_o_clock : Option ℤ
one_o_clock = some (pos 60)

route_alert-visible_example :
    let r = route_alert pomodoro nightly (pos 5) one_o_clock in
    (visible r ≡ false) × (r.channels ≡ nowhere) × (r.action ≡ no_action)
unfolding any visible configured_channels route_alert minute_in_quiet_range quiet_route silence
route_alert-visible_example = route_alert-visible pomodoro nightly (pos 5) one_o_clock

abbrev shown : AlertRoute
shown = record {
  channels = everywhere;
  preview = detailed;
  suppressed_by = unsuppressed;
  action = return_to_work;
}

abbrev one_issued : AlertIds
one_issued = apply_ops no_ids (issues snapback_return shown ∷ [])

abbrev one_claimed : AlertIds
one_claimed = (claim_alert_action one_issued snapback_return (pos 1)).0

one_claims : claim_alert_action one_issued snapback_return (pos 1) ≡ (one_claimed, true)
unfolding claim_alert_action apply_ops apply_op issue_alert_id no_ids alert_event_index visible any
    ◌+ℤ◌
one_claims = refl

one_held : outstanding_alert_id one_issued snapback_return ≡ pos 1
unfolding outstanding_alert_id apply_ops apply_op issue_alert_id no_ids alert_event_index visible
    any ◌+ℤ◌
one_held = refl

claim_once_example :
    claim_alert_action (apply_ops one_claimed (issues pomodoro shown ∷ [])) pomodoro (pos 1)
    ≡ (apply_ops one_claimed (issues pomodoro shown ∷ []), false)
claim_once_example =
    claim_once (issues snapback_return shown ∷ []) (issues pomodoro shown ∷ []) one_claimed
      snapback_return pomodoro (pos 1) one_claims
