-- ===== src/Pomodoro/Poll.antt =====
-- src/engine/pomodoro.hpp: `advance_from_end` and the catch-up loop of `poll`.
use snapback.Prelude.{ℕ, zero, suc, Bool, true, false, ◌||◌, not, Option, none, some, if◌then◌else◌}
use snapback.Prelude.Int.{ℤ, pos, pos_part, ◌+ℤ◌, ◌-ℤ◌, leb_ℤ}
use snapback.Pomodoro.Phase.{
  PomodoroPhase, PomodoroTimer, work, is_work, duration_of, next_break_phase,
}

-- The count of work blocks and the phase behind the end of the current phase.
unfoldable pub counted : PomodoroTimer → ℤ
counted t =
    if is_work t.phase then t.completed_work_intervals +ℤ pos 1 else t.completed_work_intervals

unfoldable pub following : PomodoroTimer → PomodoroPhase
following t = if is_work t.phase then next_break_phase t.config (counted t) else work

unfoldable pub advance_from_end : PomodoroTimer → PomodoroTimer
advance_from_end t =
    if not t.config.auto_start_next_phase
    then record t {
      completed_work_intervals = counted t;
      awaiting = true;
      pending_phase = following t;
    }
    else record t {
      completed_work_intervals = counted t;
      phase_start_ms = t.phase_end_ms;
      phase_end_ms = t.phase_end_ms +ℤ duration_of t.config (following t);
      phase = following t;
    }

-- `while (now_ms >= phase_end_ms_)`, with `changed`; `none` when the fuel runs out.
unfoldable pub poll_loop : ℕ → PomodoroTimer → ℤ → Bool → Option (PomodoroTimer × Bool)
poll_loop zero t now changed = none
poll_loop (suc f) t now changed =
    let t' = advance_from_end t in
    let rest = poll_loop f t' now true in
    if leb_ℤ t.phase_end_ms now
    then (if t'.awaiting then some (t', true) else rest)
    else some (t, changed)

-- Enough for durations of at least a millisecond: one round for each millisecond of lateness.
abbrev pub poll_fuel : PomodoroTimer → ℤ → ℕ
poll_fuel t now = suc (suc (pos_part (now -ℤ t.phase_end_ms)))

unfoldable pub poll : PomodoroTimer → ℤ → Option (PomodoroTimer × Bool)
poll t now =
    if not t.running || t.paused || t.awaiting
    then some (t, false)
    else poll_loop (poll_fuel t now) t now false
