-- ===== src/Alert/Ids.antt =====
-- src/app/state.cpp: the alert ids that `AppState` issues and a click claims.
use snapback.Prelude.{ℕ, Bool, true, false, ◌||◌, not, if◌then◌else◌, update}
use snapback.Prelude.Int.{ℤ, pos, ◌+ℤ◌, leb_ℤ, eqb_ℤ}
use snapback.Alert.Routing.{
  AlertEvent, alert_event_index, AlertAction, no_action, return_to_work, open_session_composer,
  open_pomodoro, AlertRoute, visible,
}

-- `next_alert_id_` and `actionable_alert_ids_`, an array as a function of the event's index.
pub record AlertIds : Type 0 where
  pub next_alert_id : ℤ
  pub actionable_alert_ids : ℕ → ℤ

abbrev pub is_no_action : AlertAction → Bool
is_no_action no_action = true
is_no_action return_to_work = false
is_no_action open_session_composer = false
is_no_action open_pomodoro = false

unfoldable pub no_ids : AlertIds
no_ids = record { next_alert_id = pos 0; actionable_alert_ids = λ _. pos 0 }

unfoldable pub issue_alert_id : AlertIds → AlertEvent → AlertRoute → AlertIds × ℤ
issue_alert_id s event route =
    let id = s.next_alert_id +ℤ pos 1 in
    if not (visible route) || is_no_action route.action
    then (
      record s {
        actionable_alert_ids = update s.actionable_alert_ids (alert_event_index event) (pos 0);
      },
      pos 0,
    )
    else (
      record s {
        next_alert_id = id;
        actionable_alert_ids = update s.actionable_alert_ids (alert_event_index event) id;
      },
      id,
    )

unfoldable pub outstanding_alert_id : AlertIds → AlertEvent → ℤ
outstanding_alert_id s event = s.actionable_alert_ids (alert_event_index event)

unfoldable pub claim_alert_action : AlertIds → AlertEvent → ℤ → AlertIds × Bool
claim_alert_action s event alert_id =
    if leb_ℤ alert_id (pos 0)
    then (s, false)
    else if not (eqb_ℤ (s.actionable_alert_ids (alert_event_index event)) alert_id)
    then (s, false)
    else (
      record s {
        actionable_alert_ids = update s.actionable_alert_ids (alert_event_index event) (pos 0);
      },
      true,
    )
