-- ===== src/Pomodoro/Phase.antt =====
-- src/engine/pomodoro.hpp: the timer's data, its private transitions and the operations that a
-- user's click makes.
use snapback.Prelude.{
  ◌%◌, Bool, true, false, ◌&&◌, ◌||◌, not, Option, none, some, ◌==◌, if◌then◌else◌,
}
use snapback.Prelude.Int.{ℤ, pos, pos_part, ◌+ℤ◌, ◌-ℤ◌, ltb_ℤ}

pub data PomodoroPhase : Type 0 where
  work short_break long_break : PomodoroPhase

pub record PomodoroConfig : Type 0 where
  pub work_ms : ℤ
  pub short_break_ms : ℤ
  pub long_break_ms : ℤ
  pub intervals_before_long_break : ℤ
  pub auto_start_next_phase : Bool

pub record PomodoroStatus : Type 0 where
  pub running : Bool
  pub paused : Bool
  pub awaiting_acknowledgement : Bool
  pub phase : PomodoroPhase
  pub completed_work_intervals : ℤ
  pub remaining_ms : ℤ

-- The private fields of `PomodoroTimer`.
pub record PomodoroTimer : Type 0 where
  pub config : PomodoroConfig
  pub running : Bool
  pub paused : Bool
  pub awaiting : Bool
  pub phase : PomodoroPhase
  pub pending_phase : PomodoroPhase
  pub completed_work_intervals : ℤ
  pub phase_start_ms : ℤ
  pub phase_end_ms : ℤ
  pub paused_remaining_ms : ℤ

-- The constructor `PomodoroTimer(config)`.
abbrev pub new_timer : PomodoroConfig → PomodoroTimer
new_timer c = record {
  config = c;
  running = false;
  paused = false;
  awaiting = false;
  phase = work;
  pending_phase = work;
  completed_work_intervals = pos 0;
  phase_start_ms = pos 0;
  phase_end_ms = pos 0;
  paused_remaining_ms = pos 0;
}

unfoldable pub duration_of : PomodoroConfig → PomodoroPhase → ℤ
duration_of c work = c.work_ms
duration_of c short_break = c.short_break_ms
duration_of c long_break = c.long_break_ms

-- `completed > 0 && intervals > 0 && completed % intervals == 0`; both are positive where the
-- remainder is read.
unfoldable pub long_due : PomodoroConfig → ℤ → Bool
long_due c completed =
    ltb_ℤ (pos 0) c.intervals_before_long_break
    && ltb_ℤ (pos 0) completed
    && pos_part completed % pos_part c.intervals_before_long_break == 0

unfoldable pub next_break_phase : PomodoroConfig → ℤ → PomodoroPhase
next_break_phase c completed = if long_due c completed then long_break else short_break

abbrev pub is_work : PomodoroPhase → Bool
is_work work = true
is_work short_break = false
is_work long_break = false

unfoldable pub next_phase_after : PomodoroConfig → PomodoroPhase → ℤ → PomodoroPhase
next_phase_after c p completed = if is_work p then next_break_phase c (completed +ℤ pos 1) else work

unfoldable pub begin_phase : PomodoroTimer → PomodoroPhase → ℤ → PomodoroTimer
begin_phase t next now = record t {
  phase = next;
  paused = false;
  awaiting = false;
  paused_remaining_ms = pos 0;
  phase_start_ms = now;
  phase_end_ms = now +ℤ duration_of t.config next;
}

unfoldable pub remaining_ms : PomodoroTimer → ℤ → ℤ
remaining_ms t now =
    if not t.running
    then pos 0
    else if t.paused
    then t.paused_remaining_ms
    else if t.awaiting
    then pos 0
    else let left = t.phase_end_ms -ℤ now in if ltb_ℤ (pos 0) left then left else pos 0

unfoldable pub next_deadline_ms : PomodoroTimer → Option ℤ
next_deadline_ms t = if not t.running || t.paused || t.awaiting then none else some t.phase_end_ms

unfoldable pub status : PomodoroTimer → ℤ → PomodoroStatus
status t now = record {
  running = t.running;
  paused = t.paused;
  awaiting_acknowledgement = t.awaiting;
  phase = if t.awaiting then t.pending_phase else t.phase;
  completed_work_intervals = t.completed_work_intervals;
  remaining_ms = remaining_ms t now;
}

unfoldable pub start : PomodoroTimer → ℤ → PomodoroTimer
start t now = begin_phase (record t { running = true; completed_work_intervals = pos 0 }) work now

unfoldable pub stop : PomodoroTimer → PomodoroTimer
stop t = record t { running = false; paused = false; awaiting = false }

unfoldable pub pause : PomodoroTimer → ℤ → PomodoroTimer
pause t now =
    if not t.running || t.paused || t.awaiting
    then t
    else record t { paused_remaining_ms = remaining_ms t now; paused = true }

unfoldable pub resume : PomodoroTimer → ℤ → PomodoroTimer
resume t now = if not t.running || not t.paused then t else record t {
  paused = false;
  phase_start_ms = now;
  phase_end_ms = now +ℤ t.paused_remaining_ms;
  paused_remaining_ms = pos 0;
}

unfoldable pub skip : PomodoroTimer → ℤ → PomodoroTimer
skip t now =
    if not t.running
    then t
    else begin_phase t
        (if is_work t.phase then next_break_phase t.config t.completed_work_intervals else work) now

unfoldable pub restart_phase : PomodoroTimer → ℤ → PomodoroTimer
restart_phase t now = if not t.running then t else begin_phase t t.phase now

unfoldable pub acknowledge : PomodoroTimer → ℤ → PomodoroTimer
acknowledge t now =
    if not t.running || not t.awaiting
    then t
    else begin_phase (record t { awaiting = false }) t.pending_phase now

-- `pending_phase_` is not among the fields that `reset` clears.
unfoldable pub reset : PomodoroTimer → PomodoroTimer
reset t = record t {
  running = false;
  paused = false;
  awaiting = false;
  phase = work;
  completed_work_intervals = pos 0;
  phase_start_ms = pos 0;
  phase_end_ms = pos 0;
  paused_remaining_ms = pos 0;
}

unfoldable pub set_config : PomodoroTimer → PomodoroConfig → PomodoroTimer
set_config t c = record t { config = c }
