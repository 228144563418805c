-- ===== src/Engine/Tests.antt =====
-- An afternoon at the timer and in sessions, and the theorems at it.
use snapback.Prelude.{some, refl, ◌≡◌, true, false, ◌&&◌, not, List, [], ◌∷◌, none, arith}
use snapback.Prelude.Int.{ℤ, ◌≤ℤ◌, pos}
use snapback.Pomodoro.Phase.{
  PomodoroConfig, PomodoroTimer, new_timer, status, start, begin_phase, duration_of,
}
use snapback.Pomodoro.Persist.{snapshot}
use snapback.Pomodoro.Boundaries.{IsCounting}
use snapback.Pomodoro.Clicks.{IsConsistent}
use snapback.Idle.Detector.{new_detector, is_idle}
use snapback.Engine.Timer.{TimerState, Instant, hydrate, pause_pomodoro, stop_pomodoro}
use snapback.Engine.Saved.{pause_survives_relaunch, stop_forgotten_at_relaunch}
use snapback.Storage.Tables.{Tables}
use snapback.Engine.Attendance.{PendingSpanTransition, Attendance, has_session, detect}
use snapback.Engine.InStep.{Flips}
use snapback.Engine.Spans.{Application, tick_application}
use snapback.Engine.Stored.{one_if, Spanned, IsStored}
use snapback.Engine.Settled.{Event, ticks, starts, handle_all, open_of, attendance_settles}
use snapback.Engine.Nudge.{Untracked, Surroundings}
use snapback.Engine.Delay.{EngineView, next_engine_delay_ms, awake_at_phase_end}
use snapback.Wake.Deadlines.{wait_of, monotonic}
use snapback.Engine.Guardrails.{PredictionScores, deep_focus, model}

abbrev rhythm : PomodoroConfig
rhythm = record {
  work_ms = pos 25;
  short_break_ms = pos 5;
  long_break_ms = pos 15;
  intervals_before_long_break = pos 4;
  auto_start_next_phase = true;
}

abbrev begun : PomodoroTimer
begun = start (new_timer rhythm) (pos 100)

abbrev desk : TimerState
desk = record {
  no_data_dir = false;
  has_session = true;
  pomodoro = begun;
  config = rhythm;
  pomodoro_state = snapshot (new_timer rhythm) (pos 0) (pos 0);
}

begun-IsCounting : IsCounting begun
unfolding start begin_phase
begun-IsCounting = record { runs = refl; unpaused = refl; unawaited = refl }

begun-IsConsistent : IsConsistent begun
unfolding start begin_phase duration_of
begun-IsConsistent = ground arith

abbrev noon : Instant
noon = record { wall = pos 5000; steady = pos 110 }

abbrev next_day : Instant
next_day = record { wall = pos 90000; steady = pos 3 }

pause_survives_relaunch_example :
    status (hydrate (pause_pomodoro desk noon true).0 next_day) (pos 3)
    ≡ (pause_pomodoro desk noon true).1
pause_survives_relaunch_example =
    pause_survives_relaunch desk noon next_day refl begun-IsCounting begun-IsConsistent

stop_forgotten_at_relaunch_example :
    let stopped = stop_pomodoro (pause_pomodoro desk noon true).0 noon in
    (stopped.1.running ≡ false)
    × (status (hydrate stopped.0 next_day) (pos 3) ≡ (pause_pomodoro desk noon true).1)
stop_forgotten_at_relaunch_example =
    stop_forgotten_at_relaunch desk noon noon next_day refl begun-IsCounting begun-IsConsistent

abbrev nobody : Attendance
nobody = record {
  active_session = none;
  session_attended = false;
  committed_session_attended = false;
  idle_detector = new_detector (pos 300);
  pending_span_transitions = [];
  next_span_transition_id = 0;
}

abbrev no_tables : Tables
no_tables = record { sessions = []; session_spans = [] }

abbrev fresh : Application
fresh = record { memory = nobody; storage = no_tables }

fresh-IsStored : IsStored fresh
unfolding Flips Spanned
fresh-IsStored = record { in_step = record { flips = refl; alone = refl }; spanned = tt }

abbrev wall_time : PendingSpanTransition → ℤ
wall_time u = pos 1000000

-- a session that is left for a while, with a transaction that fails
abbrev afternoon : List Event
afternoon =
    starts 7 (pos 10) (pos 900000) true
    ∷ ticks (pos 400) false wall_time false
    ∷ ticks (pos 420) true wall_time false
    ∷ []

attendance_settles_example :
    let u = handle_all fresh afternoon in
    let v = tick_application u (pos 430) false wall_time true in
    let attends =
      has_session u.memory.active_session
      && not (is_idle (detect u.memory.idle_detector (pos 430) false).state) in
    (v.memory.pending_span_transitions ≡ [])
    × (v.memory.session_attended ≡ attends)
    × (v.memory.active_session ≡ u.memory.active_session)
    × (open_of u.memory.active_session v.storage ≡ one_if attends)
attendance_settles_example =
    attendance_settles fresh afternoon (pos 430) false wall_time fresh-IsStored

abbrev keen : PredictionScores
keen = record {
  focus_score = 80;
  distraction_risk = 72;
  thrash_score = 10;
  drift_score = 5;
  goal_alignment = 50;
  focus_state = deep_focus;
  state_source = model;
}

abbrev unnoticed : Untracked
unnoticed = record { since_ms = none; latched = false; minutes = none }

abbrev after : ℤ → Surroundings
after now = record {
  now_ms = now;
  nothing_to_nudge = false;
  dismissal_active = false;
  route_visible = true;
}

abbrev asleep : EngineView
asleep = record {
  idle_deadline = some (pos 9000);
  pomodoro_deadline = some (pos 700);
  has_session = true;
  idle = false;
  untracked_since = none;
  untracked_latched = false;
  untracked_nudge_until_wall = pos 0;
  private_mode = false;
  private_until_wall = pos 0;
  privacy_lapse_retry_at = pos 0;
  snoozed_until_wall = pos 0;
  persistence_retries = false;
  persistence_retry_at = pos 0;
  prune_due_from = none;
}

awake_at_phase_end_example :
    (w : ℤ) × (next_engine_delay_ms asleep (pos 200) (pos 1000) ≡ some w)
    × (w ≤ℤ wait_of (pos 200) (pos 1000) (monotonic (pos 700)))
awake_at_phase_end_example = awake_at_phase_end asleep (pos 200) (pos 1000) (pos 700) refl
