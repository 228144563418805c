-- ===== src/Pomodoro/History.antt =====
-- src/engine/pomodoro.hpp: any history of clicks and polls goes through, and leaves a consistent timer.
use snapback.Prelude.{
  ap, refl, sym, ◌∙◌, subst, ltb, ℕ, Option, none, some, List, [], ◌∷◌, ◌⊎◌, inl, inr, ◌≡◌, Bool,
  true, false, ◌||◌, not, arith, Bool-cases,
}
use snapback.Prelude.Int.{ℤ}
use snapback.Pomodoro.Phase.{
  PomodoroTimer, start, stop, pause, resume, skip, restart_phase, acknowledge, reset, set_config,
  begin_phase,
}
use snapback.Pomodoro.Poll.{poll}
use snapback.Pomodoro.Boundaries.{
  config-advance_from_end, HasPositiveLengths, Crosses, settled, waits, chains, poll-Crosses,
}
use snapback.Pomodoro.Clicks.{
  IsConsistent, Click, configures, starts, apply_click, apply_click-IsConsistent, poll-IsConsistent,
}

-- What happens to a timer: clicks, and the engine's polls.
pub data Event : Type 0 where
  click : Click → Event
  ticks : ℤ → Event

unfoldable pub run : PomodoroTimer → List Event → Option PomodoroTimer
run t [] = some t
run t (click c ∷ es) = run (apply_click t c) es
run t (ticks now ∷ es) = elim (poll t now) [ none ↦ none | some (u, changed) ↦ run u es ]

-- No settings with an empty phase are set.
unfoldable pub ConfiguresPositive : Click → Type 0
ConfiguresPositive (configures c) = HasPositiveLengths c
ConfiguresPositive _ = Unit

unfoldable pub AllConfigurePositive : List Event → Type 0
AllConfigurePositive [] = Unit
AllConfigurePositive (click c ∷ es) = ConfiguresPositive c × AllConfigurePositive es
AllConfigurePositive (ticks now ∷ es) = AllConfigurePositive es

apply_click-HasPositiveLengths :
    (t : PomodoroTimer) (c : Click)
    → HasPositiveLengths t.config
    → ConfiguresPositive c
    → HasPositiveLengths (apply_click t c).config
unfolding ConfiguresPositive apply_click start pause resume skip restart_phase acknowledge stop
    reset set_config begin_phase
apply_click-HasPositiveLengths t (configures d) h p = p
apply_click-HasPositiveLengths t (starts now) h p = h
apply_click-HasPositiveLengths t _ h p = subst HasPositiveLengths {x = t.config} (ground arith) h

Crosses-config : {now : ℤ} {n : ℕ} {t u : PomodoroTimer} → Crosses now n t u → u.config ≡ t.config
Crosses-config (settled _) = refl
Crosses-config {t = t} (waits _ _) = config-advance_from_end t
Crosses-config {t = t} (chains _ _ rest) = Crosses-config rest ∙ config-advance_from_end t

-- A poll returns, and keeps the settings.
pub poll_returns :
    (t : PomodoroTimer) (now : ℤ)
    → HasPositiveLengths t.config
    → (u : PomodoroTimer) × (b : Bool) × (poll t now ≡ some (u, b)) × (u.config ≡ t.config)
unfolding poll
poll_returns t now h = by_cases (Bool-cases (not t.running || t.paused || t.awaiting))
  where
    by_cases :
        ((not t.running || t.paused || t.awaiting) ≡ true)
          ⊎ ((not t.running || t.paused || t.awaiting) ≡ false)
        → (u : PomodoroTimer) × (b : Bool) × (poll t now ≡ some (u, b)) × (u.config ≡ t.config)
    by_cases (inl still) = (t, false, ground arith, refl)
    by_cases (inr going) =
        let (n, u, went, crossed) =
          poll-Crosses t now h
            (record { runs = ground arith; unpaused = ground arith; unawaited = ground arith }) in
        (u, ltb 0 n, went, Crosses-config crossed)

-- Any history of clicks and polls goes through and leaves a consistent timer, if it starts from one with phases that last and
-- the user sets no phase of no length.
pub run-IsConsistent :
    (t : PomodoroTimer) (es : List Event)
    → HasPositiveLengths t.config
    → AllConfigurePositive es
    → IsConsistent t
    → (u : PomodoroTimer) × (run t es ≡ some u) × IsConsistent u
unfolding run AllConfigurePositive
run-IsConsistent t [] h p ok = (t, refl, ok)
run-IsConsistent t (click c ∷ es) h p ok =
    run-IsConsistent (apply_click t c) es (apply_click-HasPositiveLengths t c h p.0) p.1
      (apply_click-IsConsistent t c ok)
run-IsConsistent t (ticks now ∷ es) h p ok =
    by_poll (poll_returns t now h) (λ v. run-IsConsistent v es)
  where
    by_poll :
        (v : PomodoroTimer) × (b : Bool) × (poll t now ≡ some (v, b)) × (v.config ≡ t.config)
        → ((v : PomodoroTimer)
            → HasPositiveLengths v.config
            → AllConfigurePositive es
            → IsConsistent v
            → (u : PomodoroTimer) × (run v es ≡ some u) × IsConsistent u)
        → (u : PomodoroTimer) × (run t (ticks now ∷ es) ≡ some u) × IsConsistent u
    by_poll (v, b, went, same) rest =
        let (u, ran, fine) =
          rest v (subst HasPositiveLengths (sym same) h) p (poll-IsConsistent t v now b ok went) in
        (u, ap (λ r. elim r [ none ↦ none | some (w, changed) ↦ run w es ]) went ∙ ran, fine)
