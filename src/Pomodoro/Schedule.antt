-- ===== src/Pomodoro/Schedule.antt =====
-- src/engine/pomodoro.hpp: the cycle of work blocks and breaks that follows `start`.
use snapback.Prelude.{ℕ, zero, suc, ◌*◌, ◌%◌, ◌≡◌, refl, true, ◌&&◌, arith, ◌==◌, if◌then◌else◌}
use snapback.Prelude.Int.{ℤ, pos, ◌+ℤ◌, pos_part, ltb_ℤ}
use snapback.Pomodoro.Phase.{
  PomodoroConfig, PomodoroPhase, PomodoroTimer, work, short_break, long_break, start, begin_phase,
  next_break_phase, long_due,
}
use snapback.Pomodoro.Poll.{counted, following, advance_from_end}

-- `n` phase ends in a row.
unfoldable pub advances : ℕ → PomodoroTimer → PomodoroTimer
advances zero t = t
advances (suc n) t = advance_from_end (advances n t)

-- The break behind the `k`th finished work block: a long one at each multiple of the interval.
unfoldable pub break_after : PomodoroConfig → ℕ → PomodoroPhase
break_after c k =
    if ltb_ℤ (pos 0) c.intervals_before_long_break
      && k % pos_part c.intervals_before_long_break == 0
    then long_break
    else short_break

next_break-break_after :
    (c : PomodoroConfig) (k : ℕ) → next_break_phase c (pos (suc k)) ≡ break_after c (suc k)
unfolding next_break_phase break_after long_due
next_break-break_after c k = ground arith

-- Two phase ends from the start of a work block: a break, then work again, with one more block done.
record Stands (c : PomodoroConfig) (t : PomodoroTimer) (p : PomodoroPhase) (k : ℕ) : Type 0 where
  phase_eq : t.phase ≡ p
  count_eq : t.completed_work_intervals ≡ pos k
  config_eq : t.config ≡ c

pub suc_pos : (k : ℕ) → pos k +ℤ pos 1 ≡ pos (suc k)
unfolding ◌+ℤ◌
suc_pos k = ground arith

step_of_work :
    (c : PomodoroConfig) (t : PomodoroTimer) (k : ℕ)
    → c.auto_start_next_phase ≡ true
    → Stands c t work k
    → Stands c (advance_from_end t) (break_after c (suc k)) (suc k)
unfolding advance_from_end following counted
step_of_work c t k auto s =
    ground (arith, s.phase_eq, s.count_eq, s.config_eq, suc_pos k, next_break-break_after c k)

step_of_break :
    (c : PomodoroConfig) (t : PomodoroTimer) (k : ℕ)
    → c.auto_start_next_phase ≡ true
    → Stands c t (break_after c k) k
    → Stands c (advance_from_end t) work k
unfolding advance_from_end following counted break_after
step_of_break c t k auto s = ground (arith, s.phase_eq, s.count_eq, s.config_eq)

start-Stands : (t : PomodoroTimer) (now : ℤ) → Stands t.config (start t now) work 0
unfolding start begin_phase
start-Stands t now = record { phase_eq = refl; count_eq = refl; config_eq = refl }

work_Stands :
    (t : PomodoroTimer) (now : ℤ) (k : ℕ)
    → t.config.auto_start_next_phase ≡ true
    → Stands t.config (advances (k * 2) (start t now)) work k
unfolding advances
work_Stands t now zero auto = start-Stands t now
work_Stands t now (suc k) auto = rw (double k) (
    step_of_break t.config _ (suc k) auto
      (step_of_work t.config _ k auto (work_Stands t now k auto)))
  where
    double : (k : ℕ) → suc k * 2 ≡ suc (suc (k * 2))
    double k = omega arith

-- With automatic phases, `start` sets off work blocks and breaks in turn: behind 2k phase ends the
-- timer is in work block k + 1 with k blocks counted, and one end later it is in the break behind
-- k + 1 blocks, which is long exactly when the interval is positive and divides k + 1.
pub start_schedule :
    (t : PomodoroTimer) (now : ℤ) (k : ℕ)
    → t.config.auto_start_next_phase ≡ true
    → let s = start t now in
      ((advances (k * 2) s).phase ≡ work)
      × ((advances (k * 2) s).completed_work_intervals ≡ pos k)
      × ((advances (suc (k * 2)) s).phase ≡ break_after t.config (suc k))
      × ((advances (suc (k * 2)) s).completed_work_intervals ≡ pos (suc k))
unfolding advances
start_schedule t now k auto =
    let w = work_Stands t now k auto in
    let b = step_of_work t.config _ k auto w in (w.phase_eq, w.count_eq, b.phase_eq, b.count_eq)
