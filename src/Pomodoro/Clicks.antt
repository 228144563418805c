-- ===== src/Pomodoro/Clicks.antt =====
-- src/engine/pomodoro.hpp: the operations behind the user's clicks: which timers they can leave,
-- and what a pause costs.
use snapback.Prelude.{
  ℕ, zero, suc, ◌⊎◌, subst, ◌≡◌, Bool, true, false, ◌&&◌, ◌||◌, not, some, arith, Bool-cases, inl,
  inr,
}
use snapback.Prelude.Int.{ℤ, pos, ◌+ℤ◌, ◌≤ℤ◌, leb_ℤ, +ℤ_parts, -ℤ_parts}
use snapback.Pomodoro.Phase.{
  PomodoroConfig, PomodoroTimer, start, stop, pause, resume, skip, restart_phase, acknowledge,
  reset, set_config, begin_phase, remaining_ms,
}
use snapback.Pomodoro.Poll.{advance_from_end, poll_loop, poll_fuel, poll}
use snapback.Pomodoro.Boundaries.{IsCounting}

-- A timer is never paused and waiting at once, and neither while it is stopped; what is left of a
-- paused phase is not negative.
pub record IsConsistent (t : PomodoroTimer) : Type 0 where
  pub one_stop : (t.paused && t.awaiting) ≡ false
  pub stopped_unpaused : (not t.running && t.paused) ≡ false
  pub stopped_unawaited : (not t.running && t.awaiting) ≡ false
  pub left_nonneg : pos 0 ≤ℤ t.paused_remaining_ms

-- The calls that the application makes.
pub data Click : Type 0 where
  starts pauses resumes skips restarts acknowledges : ℤ → Click
  stops resets : Click
  configures : PomodoroConfig → Click

unfoldable pub apply_click : PomodoroTimer → Click → PomodoroTimer
apply_click t (starts now) = start t now
apply_click t (pauses now) = pause t now
apply_click t (resumes now) = resume t now
apply_click t (skips now) = skip t now
apply_click t (restarts now) = restart_phase t now
apply_click t (acknowledges now) = acknowledge t now
apply_click t stops = stop t
apply_click t resets = reset t
apply_click t (configures c) = set_config t c

-- Every call keeps a timer consistent.
pub apply_click-IsConsistent :
    (t : PomodoroTimer) (c : Click) → IsConsistent t → IsConsistent (apply_click t c)
unfolding apply_click start pause resume skip restart_phase acknowledge stop reset set_config
    begin_phase remaining_ms
apply_click-IsConsistent t (starts now) h = ground arith
apply_click-IsConsistent t _ h = ground arith

record IsGoing (t : PomodoroTimer) : Type 0 where
  runs : t.running ≡ true
  unpaused : t.paused ≡ false
  consistent : IsConsistent t

advance-IsGoing : (t : PomodoroTimer) → IsGoing t → IsGoing (advance_from_end t)
unfolding advance_from_end
advance-IsGoing t h = ground (arith, h.runs, h.unpaused, h.consistent)

poll_loop-IsConsistent :
    (f : ℕ) (t u : PomodoroTimer) (now : ℤ) (b c : Bool)
    → IsGoing t
    → poll_loop f t now b ≡ some (u, c)
    → IsConsistent u
unfolding poll_loop
poll_loop-IsConsistent zero t u now b c h e = absurd (cc)
poll_loop-IsConsistent (suc f) t u now b c h e =
    by_cases (advance-IsGoing t h) (Bool-cases (leb_ℤ t.phase_end_ms now))
      (Bool-cases (advance_from_end t).awaiting)
      (poll_loop-IsConsistent f (advance_from_end t) u now true c (advance-IsGoing t h))
  where
    by_cases :
        IsGoing (advance_from_end t)
        → (leb_ℤ t.phase_end_ms now ≡ true) ⊎ (leb_ℤ t.phase_end_ms now ≡ false)
        → ((advance_from_end t).awaiting ≡ true) ⊎ ((advance_from_end t).awaiting ≡ false)
        → (poll_loop f (advance_from_end t) now true ≡ some (u, c) → IsConsistent u)
        → IsConsistent u
    by_cases g (inr early) _ _ = subst IsConsistent (ground arith) h.consistent
    by_cases g (inl late) (inl waiting) _ =
        subst IsConsistent {x = advance_from_end t} (ground arith) g.consistent
    by_cases g (inl late) (inr onward) rest = rest (ground arith)

-- So does polling, at any time and with any lengths, as far as it returns.
pub poll-IsConsistent :
    (t u : PomodoroTimer) (now : ℤ) (c : Bool)
    → IsConsistent t
    → poll t now ≡ some (u, c)
    → IsConsistent u
unfolding poll
poll-IsConsistent t u now c h e = by_cases (Bool-cases (not t.running || t.paused || t.awaiting))
  where
    by_cases :
        ((not t.running || t.paused || t.awaiting) ≡ true)
          ⊎ ((not t.running || t.paused || t.awaiting) ≡ false)
        → IsConsistent u
    by_cases (inl still) = subst IsConsistent {x = t} (ground arith) h
    by_cases (inr going) =
        poll_loop-IsConsistent (poll_fuel t now) t u now false c
          (record { runs = ground arith; unpaused = ground arith; consistent = h }) (ground arith)

-- For a timer that counts down a pause costs the phase nothing: while paused and when resumed, at any time,
-- it has as long to go as when it was paused, in the same phase and with the same count.
pub remaining-resume-pause :
    (t : PomodoroTimer) (paused_at resumed_at : ℤ)
    → IsCounting t
    → let u = resume (pause t paused_at) resumed_at in
      (remaining_ms u resumed_at ≡ remaining_ms t paused_at)
      × (remaining_ms (pause t paused_at) resumed_at ≡ remaining_ms t paused_at)
      × (u.phase ≡ t.phase)
      × (u.completed_work_intervals ≡ t.completed_work_intervals)
unfolding pause resume remaining_ms
remaining-resume-pause t p r c = ground (
  arith,
  +ℤ_parts r (remaining_ms t p),
  -ℤ_parts t.phase_end_ms p,
  -ℤ_parts (r +ℤ remaining_ms t p) r,
)
