-- ===== src/Engine/Privacy.antt =====
-- src/app/state.cpp and src/types.hpp: the privacy pause, and what the application says about recording. Whether a save of the
-- settings goes through is an argument; `none` is an exception, which changes nothing.
use snapback.Prelude.{◌*◌, Bool, true, false, not, ◌&&◌, ◌||◌, Option, none, some, if◌then◌else◌}
use snapback.Prelude.Int.{ℤ, pos, ◌+ℤ◌, ◌-ℤ◌, ltb_ℤ, leb_ℤ, eqb_ℤ, pos_part}

-- The two fields of `settings_`, and `privacy_lapse_retry_at_ms_`.
pub record Privacy : Type 0 where
  pub private_mode : Bool
  pub private_until_wall_ms : ℤ
  pub lapse_retry_at_ms : ℤ

pub data RecordingState : Type 0 where
  blocked paused_private no_session paused_idle recording : RecordingState

pub record RecordingInputs : Type 0 where
  pub capture_failed : Bool
  pub capture_permitted : Bool
  pub private_mode : Bool
  pub has_active_session : Bool
  pub idle : Bool

unfoldable pub derive_recording_state : RecordingInputs → RecordingState
derive_recording_state i =
    if i.capture_failed || not i.capture_permitted
    then blocked
    else if i.private_mode
    then paused_private
    else if not i.has_active_session
    then no_session
    else if i.idle
    then paused_idle
    else recording

abbrev pub minutes_ms : ℤ → ℤ
minutes_ms minutes = pos (pos_part minutes * 60 * 1000)

-- A save that fails leaves the pause in force.
unfoldable pub lapse_private_pause : Privacy → ℤ → Bool → Privacy × Bool
lapse_private_pause s wall saved =
    if not s.private_mode || eqb_ℤ s.private_until_wall_ms (pos 0)
    then (s, false)
    else if ltb_ℤ wall s.private_until_wall_ms
    then (s, false)
    else if saved
    then (record s { private_mode = false; private_until_wall_ms = pos 0 }, true)
    else (s, false)

-- The handlers end with `announce_recording_status`, which reads the clock again and may save once more.
unfoldable pub announce : Privacy → ℤ → Bool → Privacy
announce s wall saved = (lapse_private_pause s wall saved).0

unfoldable pub pause_privately_for : Privacy → ℤ → ℤ → Bool → ℤ → Bool → Option Privacy
pause_privately_for s minutes wall saved wall_after saved_after =
    let until = if ltb_ℤ (pos 0) minutes then wall +ℤ minutes_ms minutes else pos 0 in
    let paused : Privacy = record s { private_mode = true; private_until_wall_ms = until } in
    if ltb_ℤ minutes (pos 0)
    then none
    else if saved
    then some (announce paused wall_after saved_after)
    else none

unfoldable pub resume_from_private_pause : Privacy → Bool → ℤ → Bool → Option Privacy
resume_from_private_pause s saved wall_after saved_after =
    let resumed : Privacy = record s { private_mode = false; private_until_wall_ms = pos 0 } in
    if saved then some (announce resumed wall_after saved_after) else none

unfoldable pub set_private_mode : Privacy → Bool → Bool → ℤ → Bool → Option Privacy
set_private_mode s enabled saved wall_after saved_after =
    let switched : Privacy = record s { private_mode = enabled } in
    if saved then some (announce switched wall_after saved_after) else none

-- The part of `engine_tick` on the pause: after a save that fails, no other attempt for half a minute.
unfoldable pub tick_privacy : Privacy → ℤ → ℤ → Bool → Privacy
tick_privacy s wall now saved =
    let (lapsed, changed) = lapse_private_pause s wall saved in
    if s.private_mode
      && ltb_ℤ (pos 0) s.private_until_wall_ms
      && leb_ℤ s.private_until_wall_ms wall
      && leb_ℤ s.lapse_retry_at_ms now
    then record lapsed { lapse_retry_at_ms = if changed then pos 0 else now +ℤ pos 30000 }
    else s

-- The remaining time that is shown.
unfoldable pub private_pause_remaining_ms : Privacy → ℤ → ℤ
private_pause_remaining_ms s wall =
    let left = s.private_until_wall_ms -ℤ wall in
    if s.private_mode && ltb_ℤ (pos 0) s.private_until_wall_ms
    then (if ltb_ℤ (pos 0) left then left else pos 0)
    else pos 0

-- The pause behind the call, the state of recording, and the time left, for the readings of the clock for the lapse and for the
-- rest; what the snooze of alerts has left is not in it.
unfoldable pub recording_status :
    Privacy → RecordingInputs → ℤ → Bool → ℤ → Privacy × RecordingState × ℤ
recording_status s i wall saved wall_after =
    let s' = announce s wall saved in
    let inputs : RecordingInputs = record i { private_mode = s'.private_mode } in
    (s', derive_recording_state inputs, private_pause_remaining_ms s' wall_after)
