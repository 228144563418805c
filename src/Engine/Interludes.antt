-- ===== src/Engine/Interludes.antt =====
-- A privacy pause of ten minutes and a stop with three events waiting, and the theorems on the pause and on the ring at them.
use snapback.Prelude.{List, ◌*◌, ℕ, some, ◌⊎◌, arith, ◌≡◌, refl, true, false, [], ◌∷◌}
use snapback.Prelude.Int.{ℤ, ◌+ℤ◌, eqb_ℤ, ◌≤ℤ◌, pos}
use snapback.Engine.Privacy.{
  Privacy, RecordingInputs, announce, pause_privately_for, set_private_mode, lapse_private_pause,
  tick_privacy, recording_status, derive_recording_state,
}
use snapback.Engine.Drain.{drain_all}
use snapback.Engine.Backlog.{drain_all-takes_all}
use snapback.Engine.Pause.{Tick, ticks, AllBefore, timed_pause, stale_deadline}
use snapback.Engine.Recording.{MayRecord, recording_is_allowed}

abbrev watched : Privacy
watched = record { private_mode = false; private_until_wall_ms = pos 0; lapse_retry_at_ms = pos 0 }

abbrev paused : Privacy
paused = record {
  private_mode = true;
  private_until_wall_ms = pos 1600000;
  lapse_retry_at_ms = pos 0;
}

abbrev off_again : Privacy
off_again = record {
  private_mode = false;
  private_until_wall_ms = pos 1600000;
  lapse_retry_at_ms = pos 0;
}

abbrev early : Tick
early = record { wall = pos 1100000; now = pos 600000; saved = true }

abbrev at_end : Tick
at_end = record { wall = pos 1600000; now = pos 1100000; saved = true }

abbrev at_work : RecordingInputs
at_work = record {
  capture_failed = false;
  capture_permitted = true;
  private_mode = true;
  has_active_session = true;
  idle = false;
}

timed_pause_example :
    ((ticks paused (early ∷ early ∷ [])).private_mode ≡ true)
    × ((tick_privacy
          (ticks paused (early ∷ early ∷ []))
          (pos 1600000)
          (pos 1100000)
          true).private_mode
        ≡ false)
unfolding AllBefore
timed_pause_example =
    timed_pause paused (early ∷ early ∷ []) at_end refl (omega arith)
      (omega arith, (omega arith, tt)) (omega arith) (omega arith)

stale_deadline_example :
    (paused.private_mode ≡ true)
    × ((tick_privacy paused (pos 1600000) (pos 1100000) true).private_mode ≡ false)
unfolding ◌+ℤ◌ pause_privately_for announce lapse_private_pause set_private_mode
stale_deadline_example =
    stale_deadline watched paused off_again paused (pos 10) (pos 1000000) (pos 1000000)
      (pos 1000000) (pos 1200000) (pos 1600000) (pos 1100000) true true true (omega arith)
      (omega arith) (omega arith) (omega arith) refl refl refl (omega arith) (omega arith)

recording_is_allowed_example :
    MayRecord at_work
    × ((recording_status paused at_work (pos 1600000) true (pos 1600000)).0.private_mode ≡ false)
    × ((paused.private_mode ≡ false)
        ⊎ ((paused.private_until_wall_ms ≤ℤ pos 1600000)
            × (eqb_ℤ paused.private_until_wall_ms (pos 0) ≡ false)
            × (true ≡ true)))
unfolding recording_status derive_recording_state announce lapse_private_pause
recording_is_allowed_example =
    recording_is_allowed paused at_work (pos 1600000) (pos 1600000) true refl

abbrev slow_clock : ℕ → ℕ → ℤ
slow_clock tick drained = pos (50 * drained)

abbrev three_events : List ℕ
three_events = 7 ∷ 8 ∷ 9 ∷ []

drain_all-takes_all_example : drain_all 4 slow_clock three_events ≡ some three_events
drain_all-takes_all_example = drain_all-takes_all 4 slow_clock three_events (omega arith)
