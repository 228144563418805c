-- ===== src/Wire/Timer.antt =====
-- src/types.cpp and src/types.hpp: the lengths and the running timer of the settings file.
use snapback.Prelude.{
  if◌then◌else◌, subst, arith, ◌≡◌, ap, refl, ◌∙◌, true, false, [], ◌∷◌, Option, some,
}
use snapback.Prelude.Int.{◌≤ℤ◌, max_ℤ, pos}
use snapback.Prelude.Text.{text_eq, codes}
use snapback.Wire.Laws.{bind-some, some_inj, field}
use snapback.Pomodoro.Phase.{PomodoroConfig, PomodoroPhase, work, short_break, long_break}
use snapback.Pomodoro.Persist.{PomodoroSnapshot}
use snapback.Pomodoro.Boundaries.{HasPositiveLengths}
use snapback.Pomodoro.Relaunch.{config_from_json, config_from_json-HasPositiveLengths, positive}
use snapback.Wire.Json.{◌>>=◌, Text, Codec, JsonLibrary, JsonLaws, get_or}

-- The default values of the members.
abbrev pub default_config : PomodoroConfig
default_config = record {
  work_ms = pos 1500000;
  short_break_ms = pos 300000;
  long_break_ms = pos 900000;
  intervals_before_long_break = pos 4;
  auto_start_next_phase = true;
}

abbrev pub no_snapshot : PomodoroSnapshot
no_snapshot = record {
  running = false;
  paused = false;
  awaiting_acknowledgement = false;
  phase = work;
  completed_work_intervals = pos 0;
  deadline_wall_ms = pos 0;
  paused_remaining_ms = pos 0;
}

unfoldable pub pomodoro_phase_as_str : PomodoroPhase → Text
pomodoro_phase_as_str work = codes "work"
pomodoro_phase_as_str short_break = codes "shortBreak"
pomodoro_phase_as_str long_break = codes "longBreak"

unfoldable pub pomodoro_phase_from_string : Text → PomodoroPhase
pomodoro_phase_from_string s =
    if text_eq s (codes "shortBreak")
    then short_break
    else if text_eq s (codes "longBreak")
    then long_break
    else work

-- What `std::max` leaves of the numbers of a snapshot.
unfoldable pub floor_snapshot : PomodoroSnapshot → PomodoroSnapshot
floor_snapshot v = record v {
  completed_work_intervals = max_ℤ (pos 0) v.completed_work_intervals;
  paused_remaining_ms = max_ℤ (pos 0) v.paused_remaining_ms;
}

-- What the reader of the settings warrants of the lengths: phases last, and the interval is no negative number.
pub record IsUsable (v : PomodoroConfig) : Type 0 where
  pub lengths : HasPositiveLengths v
  pub interval : pos 0 ≤ℤ v.intervals_before_long_break

checked_config-IsUsable : (v : PomodoroConfig) → IsUsable (config_from_json default_config v)
unfolding config_from_json positive
checked_config-IsUsable v = record {
  lengths =
      config_from_json-HasPositiveLengths default_config v
        (record { work_pos = omega arith; short_pos = omega arith; long_pos = omega arith });
  interval = ground arith;
}

usable_config : (v : PomodoroConfig) → IsUsable v → config_from_json default_config v ≡ v
unfolding config_from_json positive
usable_config v h =
    ground (arith, h.lengths.work_pos, h.lengths.short_pos, h.lengths.long_pos, h.interval)

pub record IsFloored (v : PomodoroSnapshot) : Type 0 where
  pub intervals : pos 0 ≤ℤ v.completed_work_intervals
  pub left : pos 0 ≤ℤ v.paused_remaining_ms

floor_snapshot-IsFloored : (v : PomodoroSnapshot) → IsFloored (floor_snapshot v)
unfolding floor_snapshot
floor_snapshot-IsFloored v = record { intervals = ground arith; left = ground arith }

unchanged-IsFloored : (v : PomodoroSnapshot) → IsFloored v → floor_snapshot v ≡ v
unfolding floor_snapshot
unchanged-IsFloored v h = ground (arith, h.intervals, h.left)

pomodoro_phase_roundtrip :
    (p : PomodoroPhase) → pomodoro_phase_from_string (pomodoro_phase_as_str p) ≡ p
unfolding pomodoro_phase_from_string pomodoro_phase_as_str text_eq
pomodoro_phase_roundtrip work = refl
pomodoro_phase_roundtrip short_break = refl
pomodoro_phase_roundtrip long_break = refl

module _ (L : JsonLibrary) where
  unfoldable pub pomodoro_config_to_json : PomodoroConfig → L.Json
  pomodoro_config_to_json v = L.object (
      ("workMs", L.integer.write v.work_ms)
      ∷ ("shortBreakMs", L.integer.write v.short_break_ms)
      ∷ ("longBreakMs", L.integer.write v.long_break_ms)
      ∷ ("intervalsBeforeLongBreak", L.integer.write v.intervals_before_long_break)
      ∷ ("autoStartNextPhase", L.boolean.write v.auto_start_next_phase)
      ∷ [])

  unfoldable pub pomodoro_config_from_json : L.Json → Option PomodoroConfig
  pomodoro_config_from_json j = do
    work_ms ← get_or L L.integer j "workMs" default_config.work_ms
    short_break_ms ← get_or L L.integer j "shortBreakMs" default_config.short_break_ms
    long_break_ms ← get_or L L.integer j "longBreakMs" default_config.long_break_ms
    intervals_before_long_break ←
        get_or L L.integer j "intervalsBeforeLongBreak" default_config.intervals_before_long_break
    auto_start_next_phase ←
        get_or L L.boolean j "autoStartNextPhase" default_config.auto_start_next_phase
    some (
        config_from_json default_config (record {
          work_ms = work_ms;
          short_break_ms = short_break_ms;
          long_break_ms = long_break_ms;
          intervals_before_long_break = intervals_before_long_break;
          auto_start_next_phase = auto_start_next_phase;
        }))

  abbrev pub pomodoro_config_codec : Codec L.Json PomodoroConfig
  pomodoro_config_codec = record {
    write = pomodoro_config_to_json;
    read = pomodoro_config_from_json;
  }

  module _ (laws : JsonLaws L) where
    pub pomodoro_config_is_there :
        (v : PomodoroConfig) → L.is_null (pomodoro_config_to_json v) ≡ false
    unfolding pomodoro_config_to_json
    pomodoro_config_is_there v = laws.object_law _

    pub pomodoro_config_reads_back :
        (v : PomodoroConfig)
        → IsUsable v
        → pomodoro_config_from_json (pomodoro_config_to_json v) ≡ some v
    unfolding pomodoro_config_to_json pomodoro_config_from_json
    pomodoro_config_reads_back v h = field L laws L.integer laws.integer_law _ "workMs" _ _ refl (
        field L laws L.integer laws.integer_law _ "shortBreakMs" _ _ refl (
          field L laws L.integer laws.integer_law _ "longBreakMs" _ _ refl (
            field L laws L.integer laws.integer_law _ "intervalsBeforeLongBreak" _ _ refl (
              field L laws L.boolean laws.boolean_law _ "autoStartNextPhase" _ _ refl
                (ap some (usable_config v h))))))

  pub pomodoro_config_from_json-IsUsable :
      (j : L.Json) (v : PomodoroConfig) → pomodoro_config_from_json j ≡ some v → IsUsable v
  unfolding pomodoro_config_from_json
  pomodoro_config_from_json-IsUsable j v h =
      let (work_ms, e0, h0) = bind-some h in
      let (short_break_ms, e1, h1) = bind-some h0 in
      let (long_break_ms, e2, h2) = bind-some h1 in
      let (intervals_before_long_break, e3, h3) = bind-some h2 in
      let (auto_start_next_phase, e4, h4) = bind-some h3 in
      subst IsUsable (some_inj h4) (checked_config-IsUsable _)

module _ (L : JsonLibrary) where
  unfoldable pub pomodoro_state_to_json : PomodoroSnapshot → L.Json
  pomodoro_state_to_json v = L.object (
      ("running", L.boolean.write v.running)
      ∷ ("paused", L.boolean.write v.paused)
      ∷ ("awaitingAcknowledgement", L.boolean.write v.awaiting_acknowledgement)
      ∷ ("phase", L.text.write (pomodoro_phase_as_str v.phase))
      ∷ ("completedWorkIntervals", L.integer.write v.completed_work_intervals)
      ∷ ("deadlineWallMs", L.integer.write v.deadline_wall_ms)
      ∷ ("pausedRemainingMs", L.integer.write v.paused_remaining_ms)
      ∷ [])

  unfoldable pub pomodoro_state_from_json : L.Json → Option PomodoroSnapshot
  pomodoro_state_from_json j = do
    running ← get_or L L.boolean j "running" false
    paused ← get_or L L.boolean j "paused" false
    awaiting_acknowledgement ← get_or L L.boolean j "awaitingAcknowledgement" false
    phase ← get_or L L.text j "phase" (codes "work")
    completed_work_intervals ← get_or L L.integer j "completedWorkIntervals" (pos 0)
    deadline_wall_ms ← get_or L L.integer j "deadlineWallMs" (pos 0)
    paused_remaining_ms ← get_or L L.integer j "pausedRemainingMs" (pos 0)
    some (
        floor_snapshot (record {
          running = running;
          paused = paused;
          awaiting_acknowledgement = awaiting_acknowledgement;
          phase = pomodoro_phase_from_string phase;
          completed_work_intervals = completed_work_intervals;
          deadline_wall_ms = deadline_wall_ms;
          paused_remaining_ms = paused_remaining_ms;
        }))

  abbrev pub pomodoro_state_codec : Codec L.Json PomodoroSnapshot
  pomodoro_state_codec = record { write = pomodoro_state_to_json; read = pomodoro_state_from_json }

  module _ (laws : JsonLaws L) where
    pub pomodoro_state_is_there :
        (v : PomodoroSnapshot) → L.is_null (pomodoro_state_to_json v) ≡ false
    unfolding pomodoro_state_to_json
    pomodoro_state_is_there v = laws.object_law _

    pub pomodoro_state_reads_back :
        (v : PomodoroSnapshot)
        → IsFloored v
        → pomodoro_state_from_json (pomodoro_state_to_json v) ≡ some v
    unfolding pomodoro_state_to_json pomodoro_state_from_json
    pomodoro_state_reads_back v h = field L laws L.boolean laws.boolean_law _ "running" _ _ refl (
        field L laws L.boolean laws.boolean_law _ "paused" _ _ refl (
          field L laws L.boolean laws.boolean_law _ "awaitingAcknowledgement" _ _ refl (
            field L laws L.text laws.text_law _ "phase" _ _ refl (
              field L laws L.integer laws.integer_law _ "completedWorkIntervals" _ _ refl (
                field L laws L.integer laws.integer_law _ "deadlineWallMs" _ _ refl (
                  field L laws L.integer laws.integer_law _ "pausedRemainingMs" _ _ refl (
                    ap some (
                      ap (λ p. floor_snapshot (record v { phase = p }))
                        (pomodoro_phase_roundtrip v.phase)
                      ∙ unchanged-IsFloored v h))))))))

  pub pomodoro_state_from_json-IsFloored :
      (j : L.Json) (v : PomodoroSnapshot) → pomodoro_state_from_json j ≡ some v → IsFloored v
  unfolding pomodoro_state_from_json
  pomodoro_state_from_json-IsFloored j v h =
      let (running, e0, h0) = bind-some h in
      let (paused, e1, h1) = bind-some h0 in
      let (awaiting_acknowledgement, e2, h2) = bind-some h1 in
      let (phase, e3, h3) = bind-some h2 in
      let (completed_work_intervals, e4, h4) = bind-some h3 in
      let (deadline_wall_ms, e5, h5) = bind-some h4 in
      let (paused_remaining_ms, e6, h6) = bind-some h5 in
      subst IsFloored (some_inj h6) (floor_snapshot-IsFloored _)
