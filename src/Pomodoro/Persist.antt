-- ===== src/Pomodoro/Persist.antt =====
-- src/engine/pomodoro.hpp: what of a timer survives a relaunch.
use snapback.Prelude.{Bool, true, not, if◌then◌else◌}
use snapback.Prelude.Int.{ℤ, pos, ◌+ℤ◌, ◌-ℤ◌, ltb_ℤ}
use snapback.Pomodoro.Phase.{PomodoroPhase, PomodoroTimer, next_phase_after, reset}

pub record PomodoroSnapshot : Type 0 where
  pub running : Bool
  pub paused : Bool
  pub awaiting_acknowledgement : Bool
  pub phase : PomodoroPhase
  pub completed_work_intervals : ℤ
  pub deadline_wall_ms : ℤ
  pub paused_remaining_ms : ℤ

unfoldable pub snapshot : PomodoroTimer → ℤ → ℤ → PomodoroSnapshot
snapshot t now_wall_ms now_steady_ms = record {
  running = t.running;
  paused = t.paused;
  awaiting_acknowledgement = t.awaiting;
  phase = if t.awaiting then t.pending_phase else t.phase;
  completed_work_intervals = t.completed_work_intervals;
  deadline_wall_ms = now_wall_ms +ℤ (t.phase_end_ms -ℤ now_steady_ms);
  paused_remaining_ms = t.paused_remaining_ms;
}

unfoldable pub restore : PomodoroTimer → PomodoroSnapshot → ℤ → ℤ → PomodoroTimer
restore t snap now_wall_ms now_steady_ms =
    let r = record (reset t) {
      running = true;
      phase = snap.phase;
      completed_work_intervals = snap.completed_work_intervals;
    } in
    let left = snap.deadline_wall_ms -ℤ now_wall_ms in
    if not snap.running
    then reset t
    else if snap.paused
    then record r {
      paused = true;
      paused_remaining_ms = snap.paused_remaining_ms;
      phase_start_ms = now_steady_ms;
      phase_end_ms = now_steady_ms +ℤ snap.paused_remaining_ms;
    }
    else if snap.awaiting_acknowledgement
    then record r { awaiting = true; pending_phase = snap.phase; phase_end_ms = now_steady_ms }
    else if ltb_ℤ (pos 0) left
    then record r { phase_start_ms = now_steady_ms; phase_end_ms = now_steady_ms +ℤ left }
    else record r {
      awaiting = true;
      pending_phase = next_phase_after t.config snap.phase snap.completed_work_intervals;
      phase_end_ms = now_steady_ms;
    }
