-- ===== src/Engine/Saved.antt =====
-- src/app/state.cpp: what a relaunch shows of the timer that the user left.
use snapback.Prelude.{◌≡◌, refl, true, false, ◌||◌, ◌∙◌, ap, arith}
use snapback.Prelude.Int.{ℤ}
use snapback.Pomodoro.Phase.{PomodoroTimer, new_timer, status, stop, pause}
use snapback.Pomodoro.Persist.{snapshot, restore}
use snapback.Pomodoro.Clicks.{IsConsistent, pauses, apply_click, apply_click-IsConsistent}
use snapback.Pomodoro.Boundaries.{IsCounting}
use snapback.Pomodoro.Relaunch.{relaunch_still}
use snapback.Engine.Timer.{
  TimerState, Instant, hydrate, persist_pomodoro, mutate_pomodoro, pause_pomodoro, stop_pomodoro,
}

hydrate-pause :
    (s : TimerState) (at later : Instant)
    → s.no_data_dir ≡ false
    → hydrate (pause_pomodoro s at true).0 later
      ≡ restore
          (new_timer s.config)
          (snapshot (pause s.pomodoro at.steady) at.wall at.steady)
          later.wall
          later.steady
unfolding hydrate mutate_pomodoro persist_pomodoro
hydrate-pause s at later dir = rw dir refl

paused_now :
    (t : PomodoroTimer) (now : ℤ)
    → IsCounting t
    → ((pause t now).running ≡ true) × (((pause t now).paused || (pause t now).awaiting) ≡ true)
unfolding pause
paused_now t now c = ground (arith, c.runs, c.unpaused, c.unawaited)

-- With a data directory: a consistent timer that counts down and is paused, with the save going through,
-- shows after a relaunch at any time what the handler returned.
pub pause_survives_relaunch :
    (s : TimerState) (at later : Instant)
    → s.no_data_dir ≡ false
    → IsCounting s.pomodoro
    → IsConsistent s.pomodoro
    → status (hydrate (pause_pomodoro s at true).0 later) later.steady
      ≡ (pause_pomodoro s at true).1
unfolding mutate_pomodoro apply_click
pause_survives_relaunch s at later dir counts ok =
    ap (λ t. status t later.steady) (hydrate-pause s at later dir)
    ∙ relaunch_still (pause s.pomodoro at.steady) (new_timer s.config) at.wall at.steady later.wall
        later.steady (apply_click-IsConsistent s.pomodoro (pauses at.steady) ok)
        (paused_now s.pomodoro at.steady counts).0 (paused_now s.pomodoro at.steady counts).1

stop-kept :
    (s : TimerState) (at later : Instant)
    → (hydrate (stop_pomodoro s at).0 later ≡ hydrate s later)
      × ((stop_pomodoro s at).1.running ≡ false)
unfolding hydrate stop_pomodoro stop status
stop-kept s at later = (refl, refl)

-- With a data directory: a consistent timer that counts down, is paused with the save going through, and is
-- then stopped, is back after a relaunch as the pause left it, running and paused, although the stop
-- reported that it does not run.
pub stop_forgotten_at_relaunch :
    (s : TimerState) (at then_ later : Instant)
    → s.no_data_dir ≡ false
    → IsCounting s.pomodoro
    → IsConsistent s.pomodoro
    → let stopped = stop_pomodoro (pause_pomodoro s at true).0 then_ in
      (stopped.1.running ≡ false)
      × (status (hydrate stopped.0 later) later.steady ≡ (pause_pomodoro s at true).1)
stop_forgotten_at_relaunch s at then_ later dir counts ok = (
  (stop-kept (pause_pomodoro s at true).0 then_ later).1,
  ap (λ t. status t later.steady) (stop-kept (pause_pomodoro s at true).0 then_ later).0
      ∙ pause_survives_relaunch s at later dir counts ok,
)
