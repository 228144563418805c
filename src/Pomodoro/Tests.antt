-- ===== src/Pomodoro/Tests.antt =====
-- Runs of the Pomodoro timer, and its theorems at concrete timers.
use snapback.Prelude.{◌*◌, ℕ, suc, ◌≡◌, refl, true, false, List, [], ◌∷◌, some, arith, ltb}
use snapback.Prelude.Int.{pos, ◌+ℤ◌, ◌-ℤ◌}
use snapback.Pomodoro.Phase.{
  PomodoroConfig, PomodoroTimer, work, long_break, new_timer, duration_of, long_due,
  next_break_phase, begin_phase, start, acknowledge,
}
use snapback.Pomodoro.Poll.{counted, following, advance_from_end, poll_loop, poll}
use snapback.Pomodoro.Persist.{snapshot, restore}
use snapback.Pomodoro.Boundaries.{HasPositiveLengths, IsCounting, Crosses, poll-Crosses}
use snapback.Pomodoro.Late.{poll-poll}
use snapback.Pomodoro.Schedule.{advances, break_after, start_schedule}
use snapback.Pomodoro.Clicks.{IsConsistent, pauses, stops, skips}
use snapback.Pomodoro.History.{
  Event, click, ticks, run, run-IsConsistent, ConfiguresPositive, AllConfigurePositive,
}
use snapback.Pomodoro.Relaunch.{relaunch_long_break_twice}

-- 25 ms of work, breaks of 5 and 15 ms, a long break behind every second block.
abbrev short_cycle : PomodoroConfig
short_cycle = record {
  work_ms = pos 25;
  short_break_ms = pos 5;
  long_break_ms = pos 15;
  intervals_before_long_break = pos 2;
  auto_start_next_phase = true;
}

abbrev begun : PomodoroTimer
begun = record (new_timer short_cycle) {
  running = true;
  phase_start_ms = pos 100;
  phase_end_ms = pos 125;
}

abbrev third : PomodoroTimer
third = record begun {
  phase = long_break;
  completed_work_intervals = pos 2;
  phase_start_ms = pos 155;
  phase_end_ms = pos 170;
}

start-begun : start (new_timer short_cycle) (pos 100) ≡ begun
unfolding start begin_phase duration_of ◌+ℤ◌
start-begun = refl

poll_far : poll begun (pos 160) ≡ some (third, true)
unfolding poll poll_loop advance_from_end following counted next_break_phase long_due duration_of
    ◌+ℤ◌ ◌-ℤ◌
poll_far = refl

short_cycle-HasPositiveLengths : HasPositiveLengths short_cycle
short_cycle-HasPositiveLengths = omega arith

begun-IsCounting : IsCounting begun
begun-IsCounting = record { runs = refl; unpaused = refl; unawaited = refl }

begun-IsConsistent : IsConsistent begun
begun-IsConsistent = ground arith

poll-Crosses_example :
    (n : ℕ) × (u : PomodoroTimer) × (poll begun (pos 160) ≡ some (u, ltb 0 n))
    × Crosses (pos 160) n begun u
poll-Crosses_example = poll-Crosses begun (pos 160) short_cycle-HasPositiveLengths begun-IsCounting

poll-poll_example : poll begun (pos 161) ≡ some (third, true)
unfolding poll poll_loop advance_from_end following counted next_break_phase long_due duration_of
    ◌+ℤ◌ ◌-ℤ◌
poll-poll_example =
    poll-poll begun third third (pos 160) (pos 161) true false short_cycle-HasPositiveLengths
      begun-IsCounting (omega arith) refl refl

abbrev empty_cycle : PomodoroTimer
empty_cycle = record begun {
  config = record short_cycle { work_ms = pos 0; short_break_ms = pos 0; long_break_ms = pos 0 };
}

start_schedule_example :
    let s = start begun (pos 7) in
    ((advances (3 * 2) s).phase ≡ work)
    × ((advances (3 * 2) s).completed_work_intervals ≡ pos 3)
    × ((advances (suc (3 * 2)) s).phase ≡ break_after short_cycle 4)
    × ((advances (suc (3 * 2)) s).completed_work_intervals ≡ pos 4)
start_schedule_example = start_schedule begun (pos 7) 3 refl

break_after_four : break_after short_cycle 4 ≡ long_break
unfolding break_after
break_after_four = refl

abbrev history : List Event
history = click (pauses (pos 110)) ∷ ticks (pos 300) ∷ click stops ∷ click (skips (pos 301)) ∷ []

history-fine : AllConfigurePositive history
unfolding AllConfigurePositive ConfiguresPositive
history-fine =
    let one : Unit × Unit = (tt, tt) in let two : Unit × (Unit × Unit) = (tt, one) in (tt, two)

run-IsConsistent_example : (u : PomodoroTimer) × (run begun history ≡ some u) × IsConsistent u
run-IsConsistent_example =
    run-IsConsistent begun history short_cycle-HasPositiveLengths history-fine begun-IsConsistent

abbrev held : PomodoroTimer
held = record begun { paused = true; paused_remaining_ms = pos 12 }

abbrev second_block : PomodoroTimer
second_block = record begun { completed_work_intervals = pos 1 }

relaunch_long_break_twice_example :
    let u =
      (acknowledge
        (restore
          (new_timer short_cycle)
          (snapshot second_block (pos 1000) (pos 110))
          (pos 2000)
          (pos 3))
        (pos 9)) in
    (u.phase ≡ long_break)
    × (u.completed_work_intervals ≡ pos 1)
    × ((advance_from_end u).phase ≡ work)
    × ((advance_from_end (advance_from_end u)).phase ≡ long_break)
unfolding ◌-ℤ◌
relaunch_long_break_twice_example =
    relaunch_long_break_twice second_block (new_timer short_cycle) (pos 1000) (pos 110) (pos 2000)
      (pos 3) (pos 9) 1 1 (record { runs = refl; unpaused = refl; unawaited = refl }) refl refl refl
      refl refl (omega arith)
