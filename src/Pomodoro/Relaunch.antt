-- ===== src/Pomodoro/Relaunch.antt =====
-- src/engine/pomodoro.hpp: the timer across a relaunch, and src/types.cpp, which reads the settings
-- file's phase lengths.
use snapback.Prelude.{suc, ◌%◌, ℕ, ◌≡◌, true, false, ◌||◌, arith, if◌then◌else◌}
use snapback.Prelude.Int.{ℤ, pos, ◌+ℤ◌, ◌-ℤ◌, ◌≤ℤ◌, ◌<ℤ◌, ltb_ℤ, leb_ℤ, -ℤ_parts, int_laws}
use snapback.Pomodoro.Phase.{
  PomodoroConfig, PomodoroTimer, work, long_break, reset, acknowledge, begin_phase,
  next_break_phase, long_due, remaining_ms, status, next_phase_after,
}
use snapback.Pomodoro.Poll.{advance_from_end, following, counted}
use snapback.Pomodoro.Schedule.{suc_pos}
use snapback.Pomodoro.Persist.{snapshot, restore}
use snapback.Pomodoro.Boundaries.{HasPositiveLengths, IsCounting}
use snapback.Pomodoro.Clicks.{IsConsistent}

-- The lambda `positive` of `from_json`.
unfoldable pub positive : ℤ → ℤ → ℤ
positive value fallback = if ltb_ℤ (pos 0) value then value else fallback

-- `from_json` of the lengths: `v` holds what the file gives, `d` the defaults.
unfoldable pub config_from_json : PomodoroConfig → PomodoroConfig → PomodoroConfig
config_from_json d v = record {
  work_ms = positive v.work_ms d.work_ms;
  short_break_ms = positive v.short_break_ms d.short_break_ms;
  long_break_ms = positive v.long_break_ms d.long_break_ms;
  intervals_before_long_break =
      if leb_ℤ (pos 0) v.intervals_before_long_break
      then v.intervals_before_long_break
      else d.intervals_before_long_break;
  auto_start_next_phase = v.auto_start_next_phase;
}

-- If the phases of the defaults last, so do those that are read from the settings file, whatever it says.
pub config_from_json-HasPositiveLengths :
    (d v : PomodoroConfig) → HasPositiveLengths d → HasPositiveLengths (config_from_json d v)
unfolding config_from_json positive
config_from_json-HasPositiveLengths d v h = ground arith

cancel_steady : (s d : ℤ) → s +ℤ d -ℤ s ≡ d
cancel_steady s d = omega int_laws

-- What is left at the relaunch of a deadline saved as a wall-clock instant.
left_at_relaunch :
    (wall end steady wall' : ℤ)
    → wall +ℤ (end -ℤ steady) -ℤ wall' ≡ end -ℤ steady -ℤ (wall' -ℤ wall)
left_at_relaunch wall end steady wall' = omega int_laws

-- A timer that is paused, or waits for the user, shows after a relaunch what it showed when it was
-- saved, however long the application was closed.
pub relaunch_still :
    (t fresh : PomodoroTimer) (wall steady wall' steady' : ℤ)
    → IsConsistent t
    → t.running ≡ true
    → (t.paused || t.awaiting) ≡ true
    → status (restore fresh (snapshot t wall steady) wall' steady') steady' ≡ status t steady
unfolding restore snapshot status remaining_ms reset
relaunch_still t fresh wall steady wall' steady' h r still = ground (arith, h.one_stop)

module _ (t fresh : PomodoroTimer) (wall steady wall' steady' : ℤ) (h : IsCounting t) where
  -- A timer that counts down and whose phase end is still ahead at the relaunch goes on with what it had left
  -- at the save, less the time that the application was closed by the wall clock.
  pub relaunch_ahead :
      wall' -ℤ wall <ℤ t.phase_end_ms -ℤ steady
      → status (restore fresh (snapshot t wall steady) wall' steady') steady'
        ≡ record (status t steady) { remaining_ms = t.phase_end_ms -ℤ steady -ℤ (wall' -ℤ wall) }
  unfolding restore snapshot status remaining_ms reset
  relaunch_ahead ahead = ground (
    arith,
    h.runs,
    h.unpaused,
    h.unawaited,
    left_at_relaunch wall t.phase_end_ms steady wall',
    cancel_steady steady' (wall +ℤ (t.phase_end_ms -ℤ steady) -ℤ wall'),
    -ℤ_parts (t.phase_end_ms -ℤ steady) (wall' -ℤ wall),
  )

  -- A timer that counts down and whose phase ended while the application was closed waits for the user: the
  -- status shows the phase that follows it, no time left, and the count of blocks as it was saved.
  pub relaunch_past :
      t.phase_end_ms -ℤ steady ≤ℤ wall' -ℤ wall
      → status (restore fresh (snapshot t wall steady) wall' steady') steady' ≡ record {
        running = true;
        paused = false;
        awaiting_acknowledgement = true;
        phase = next_phase_after fresh.config t.phase t.completed_work_intervals;
        completed_work_intervals = t.completed_work_intervals;
        remaining_ms = pos 0;
      }
  unfolding restore snapshot status remaining_ms reset
  relaunch_past past = ground (
    arith,
    h.runs,
    h.unpaused,
    h.unawaited,
    left_at_relaunch wall t.phase_end_ms steady wall',
    -ℤ_parts (t.phase_end_ms -ℤ steady) (wall' -ℤ wall),
  )

-- With automatic phases and an interval above zero: when the work block that a timer counted down, and that
-- ended while the application was closed, was the one before a long break, the timer waits for that long
-- break but does not count the block; so the next block to end, counted from there, is followed by a long
-- break again.
pub relaunch_long_break_twice :
    (t fresh : PomodoroTimer) (wall steady wall' steady' click : ℤ) (k i : ℕ)
    → IsCounting t
    → fresh.config.auto_start_next_phase ≡ true
    → fresh.config.intervals_before_long_break ≡ pos (suc i)
    → t.phase ≡ work
    → t.completed_work_intervals ≡ pos k
    → suc k % suc i ≡ 0
    → t.phase_end_ms -ℤ steady ≤ℤ wall' -ℤ wall
    → let u = acknowledge (restore fresh (snapshot t wall steady) wall' steady') click in
      (u.phase ≡ long_break)
      × (u.completed_work_intervals ≡ pos k)
      × ((advance_from_end u).phase ≡ work)
      × ((advance_from_end (advance_from_end u)).phase ≡ long_break)
unfolding restore snapshot reset acknowledge begin_phase advance_from_end following counted
    next_phase_after next_break_phase long_due
relaunch_long_break_twice t fresh wall steady wall' steady' click k i h auto cadence w count due
      past =
    ground (
      arith,
      h.runs,
      h.unpaused,
      h.unawaited,
      suc_pos k,
      left_at_relaunch wall t.phase_end_ms steady wall',
      -ℤ_parts (t.phase_end_ms -ℤ steady) (wall' -ℤ wall),
    )
