-- ===== src/Engine/Timer.antt =====
-- src/app/state.cpp: the handlers of the Pomodoro timer, and what of it is saved. Whether a save of the settings goes through is an argument.
use snapback.Prelude.{Bool, not, ◌||◌, Option, none, some, if◌then◌else◌}
use snapback.Prelude.Int.{ℤ, pos, leb_ℤ, ltb_ℤ}
use snapback.Pomodoro.Phase.{
  PomodoroConfig, PomodoroStatus, PomodoroTimer, new_timer, status, start, stop, pause, resume,
  skip, restart_phase, acknowledge, set_config,
}
use snapback.Pomodoro.Persist.{PomodoroSnapshot, snapshot, restore}

-- `app_data_dir_.empty()`, `active_session_.has_value()`, `pomodoro_`, and the two fields of `settings_`.
pub record TimerState : Type 0 where
  pub no_data_dir : Bool
  pub has_session : Bool
  pub pomodoro : PomodoroTimer
  pub config : PomodoroConfig
  pub pomodoro_state : PomodoroSnapshot

-- One instant on both clocks.
pub record Instant : Type 0 where
  pub wall : ℤ
  pub steady : ℤ

-- The timer that the constructor of `AppState` makes from the settings.
unfoldable pub hydrate : TimerState → Instant → PomodoroTimer
hydrate s at = restore (new_timer s.config) s.pomodoro_state at.wall at.steady

unfoldable pub persist_pomodoro : TimerState → Instant → Bool → TimerState
persist_pomodoro s at saved =
    if s.no_data_dir || not saved
    then s
    else record s { pomodoro_state = snapshot s.pomodoro at.wall at.steady }

unfoldable pub mutate_pomodoro :
    TimerState → (PomodoroTimer → ℤ → PomodoroTimer) → Instant → Bool → TimerState × PomodoroStatus
mutate_pomodoro s apply at saved =
    let t = apply s.pomodoro at.steady in
    (persist_pomodoro (record s { pomodoro = t }) at saved, status t at.steady)

abbrev pub pause_pomodoro : TimerState → Instant → Bool → TimerState × PomodoroStatus
pause_pomodoro s at saved = mutate_pomodoro s pause at saved

abbrev pub resume_pomodoro : TimerState → Instant → Bool → TimerState × PomodoroStatus
resume_pomodoro s at saved = mutate_pomodoro s resume at saved

abbrev pub skip_pomodoro_phase : TimerState → Instant → Bool → TimerState × PomodoroStatus
skip_pomodoro_phase s at saved = mutate_pomodoro s skip at saved

abbrev pub restart_pomodoro_phase : TimerState → Instant → Bool → TimerState × PomodoroStatus
restart_pomodoro_phase s at saved = mutate_pomodoro s restart_phase at saved

abbrev pub acknowledge_pomodoro_phase : TimerState → Instant → Bool → TimerState × PomodoroStatus
acknowledge_pomodoro_phase s at saved = mutate_pomodoro s acknowledge at saved

-- `none` is the exception "no active session".
unfoldable pub start_pomodoro : TimerState → Instant → Option (TimerState × PomodoroStatus)
start_pomodoro s at =
    let t = start s.pomodoro at.steady in
    if not s.has_session then none else some (record s { pomodoro = t }, status t at.steady)

unfoldable pub stop_pomodoro : TimerState → Instant → TimerState × PomodoroStatus
stop_pomodoro s at = let t = stop s.pomodoro in (record s { pomodoro = t }, status t at.steady)

-- `none` is one of the two exceptions, before anything moves, or a failed save.
unfoldable pub set_pomodoro_config :
    TimerState → PomodoroConfig → Instant → Bool → Option (TimerState × PomodoroStatus)
set_pomodoro_config s config at saved =
    let t = set_config s.pomodoro config in
    if leb_ℤ config.work_ms (pos 0)
      || leb_ℤ config.short_break_ms (pos 0)
      || leb_ℤ config.long_break_ms (pos 0)
    then none
    else if ltb_ℤ config.intervals_before_long_break (pos 0)
    then none
    else if not saved
    then none
    else some (record s { pomodoro = t; config = config }, status t at.steady)
