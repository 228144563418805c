-- ===== src/Pomodoro/Boundaries.antt =====
-- src/engine/pomodoro.hpp: what `poll` does to a timer that is late by any number of phases.
use snapback.Prelude.{
  refl, none, ℕ, zero, suc, ◌+◌, ◌<◌, ◌≡◌, inl, inr, Bool, true, false, ◌||◌, some, arith,
  Bool-cases, ltb, ◌∙◌, ap,
}
use snapback.Prelude.Int.{ℤ, pos, pos_part, neg_part, ◌-ℤ◌, ◌≤ℤ◌, ◌<ℤ◌, leb_ℤ, +ℤ_parts, -ℤ_parts}
use snapback.Pomodoro.Phase.{
  PomodoroConfig, PomodoroPhase, PomodoroTimer, work, short_break, long_break, duration_of,
}
use snapback.Pomodoro.Poll.{following, advance_from_end, poll_loop, poll_fuel, poll}

-- Every phase lasts at least a millisecond.
pub record HasPositiveLengths (c : PomodoroConfig) : Type 0 where
  pub work_pos : pos 0 <ℤ c.work_ms
  pub short_pos : pos 0 <ℤ c.short_break_ms
  pub long_pos : pos 0 <ℤ c.long_break_ms

pub duration_of_pos :
    (c : PomodoroConfig) (p : PomodoroPhase) → HasPositiveLengths c → pos 0 <ℤ duration_of c p
unfolding duration_of
duration_of_pos c work h = h.work_pos
duration_of_pos c short_break h = h.short_pos
duration_of_pos c long_break h = h.long_pos

-- A timer that counts down.
pub record IsCounting (t : PomodoroTimer) : Type 0 where
  pub runs : t.running ≡ true
  pub unpaused : t.paused ≡ false
  pub unawaited : t.awaiting ≡ false

-- `Crosses now n t u`: by `now` exactly `n` phase ends have passed, one after the other from `t`,
-- and `u` is the timer behind them: in a phase that has not ended, or waiting for the user.
pub data Crosses (now : ℤ) : ℕ → PomodoroTimer → PomodoroTimer → Type 0 where
  settled : {t : PomodoroTimer} → now <ℤ t.phase_end_ms → Crosses now zero t t
  waits :
      {t : PomodoroTimer}
      → t.phase_end_ms ≤ℤ now
      → (advance_from_end t).awaiting ≡ true
      → Crosses now (suc zero) t (advance_from_end t)
  chains :
      {n : ℕ} {t u : PomodoroTimer}
      → t.phase_end_ms ≤ℤ now
      → (advance_from_end t).awaiting ≡ false
      → Crosses now n (advance_from_end t) u
      → Crosses now (suc n) t u

pub config-advance_from_end : (t : PomodoroTimer) → (advance_from_end t).config ≡ t.config
unfolding advance_from_end
config-advance_from_end t = ground arith

-- The end of the next phase is strictly later, if that phase starts by itself.
advance_later :
    (t : PomodoroTimer)
    → HasPositiveLengths t.config
    → t.awaiting ≡ false
    → (advance_from_end t).awaiting ≡ false
    → t.phase_end_ms <ℤ (advance_from_end t).phase_end_ms
unfolding advance_from_end
advance_later t h e w = ground (
  arith,
  +ℤ_parts t.phase_end_ms (duration_of t.config (following t)),
  duration_of_pos t.config (following t) h,
)

early_of_lt :
    (t : PomodoroTimer) (now : ℤ) → now <ℤ t.phase_end_ms → leb_ℤ t.phase_end_ms now ≡ false
early_of_lt t now h = ground arith

-- What a run of the loop returns.
abbrev Polled : ℕ → PomodoroTimer → ℤ → Bool → Type 0
Polled f t now b =
    (n : ℕ) × (u : PomodoroTimer) × (poll_loop f t now b ≡ some (u, b || ltb 0 n))
    × Crosses now n t u

poll_loop-suc :
    (f : ℕ) (t : PomodoroTimer) (now : ℤ) (b : Bool)
    → leb_ℤ t.phase_end_ms now ≡ true
    → (advance_from_end t).awaiting ≡ false
    → poll_loop (suc f) t now b ≡ poll_loop f (advance_from_end t) now true
unfolding poll_loop
poll_loop-suc f t now b late onward = ground arith

any_boundary : (b : Bool) (n : ℕ) → ◌≡◌ {A = Bool} true (b || ltb 0 (suc n))
any_boundary b n = ground arith

chain_Polled :
    (f : ℕ) (t : PomodoroTimer) (now : ℤ) (b : Bool)
    → leb_ℤ t.phase_end_ms now ≡ true
    → (advance_from_end t).awaiting ≡ false
    → Polled f (advance_from_end t) now true
    → Polled (suc f) t now b
chain_Polled f t now b late onward (n, u, run, crossed) = (
  suc n,
  u,
  poll_loop-suc f t now b late onward ∙ run ∙ ap (λ c. some (u, c)) (any_boundary b n),
  chains (ground arith) onward crossed,
)

-- With a round for each millisecond of lateness, and one more, the loop ends.
poll_loop-Crosses :
    (f : ℕ) (t : PomodoroTimer) (now : ℤ) (b : Bool)
    → HasPositiveLengths t.config
    → t.awaiting ≡ false
    → pos_part now + neg_part t.phase_end_ms < pos_part t.phase_end_ms + neg_part now + f
    → Polled (suc f) t now b
unfolding poll_loop
poll_loop-Crosses zero t now b h e room =
    (0, t, rw (early_of_lt t now (omega arith)) (ground arith), settled (omega arith))
poll_loop-Crosses (suc f) t now b h e room = elim (Bool-cases (leb_ℤ t.phase_end_ms now)) [
  | inr early ↦ (0, t, rw early (ground arith), settled (ground arith))
  | inl late ↦ elim (Bool-cases (advance_from_end t).awaiting) [
    | inl waiting ↦
        (1, advance_from_end t, rw (late, waiting) (ground arith), waits (ground arith) waiting)
    | inr onward ↦ chain_Polled (suc f) t now b late onward (
        poll_loop-Crosses f (advance_from_end t) now true (rw config-advance_from_end h) onward
          (omega (arith, advance_later t h e onward, room)))
  ]
]

pub poll_of_IsCounting :
    (t : PomodoroTimer) (now : ℤ)
    → IsCounting t
    → poll t now ≡ poll_loop (poll_fuel t now) t now false
unfolding poll
poll_of_IsCounting t now c = ground (arith, c.runs, c.unpaused, c.unawaited)

-- A timer that counts down, with phases that last, is advanced past exactly the phase ends that have come,
-- however many they are: `poll` returns the timer behind them, and says whether there was any.
pub poll-Crosses :
    (t : PomodoroTimer) (now : ℤ)
    → HasPositiveLengths t.config
    → IsCounting t
    → (n : ℕ) × (u : PomodoroTimer) × (poll t now ≡ some (u, ltb 0 n)) × Crosses now n t u
poll-Crosses t now h c = rw (poll_of_IsCounting t now c) (
    poll_loop-Crosses (suc (pos_part (now -ℤ t.phase_end_ms))) t now false h c.unawaited
      (omega (arith, -ℤ_parts now t.phase_end_ms)))

duration_of_empty :
    (c : PomodoroConfig) (p : PomodoroPhase)
    → c.work_ms ≡ pos 0
    → c.short_break_ms ≡ pos 0
    → c.long_break_ms ≡ pos 0
    → duration_of c p ≡ pos 0
unfolding duration_of
duration_of_empty c p w s l = ground arith

advance_of_empty :
    (t : PomodoroTimer) (now : ℤ)
    → t.config.auto_start_next_phase ≡ true
    → t.config.work_ms ≡ pos 0
    → t.config.short_break_ms ≡ pos 0
    → t.config.long_break_ms ≡ pos 0
    → t.awaiting ≡ false
    → t.phase_end_ms ≤ℤ now
    → ((advance_from_end t).awaiting ≡ false)
      × ((advance_from_end t).config ≡ t.config)
      × ((advance_from_end t).phase_end_ms ≤ℤ now)
unfolding advance_from_end
advance_of_empty t now auto w s l e late = ground (
  arith,
  duration_of_empty t.config (following t) w s l,
  +ℤ_parts t.phase_end_ms (duration_of t.config (following t)),
)

-- Phases of no length would never let the loop end: with automatic phases, and once the phase is
-- over, no number of rounds is enough.
pub poll_loop_diverges :
    (f : ℕ) (t : PomodoroTimer) (now : ℤ) (b : Bool)
    → t.config.auto_start_next_phase ≡ true
    → t.config.work_ms ≡ pos 0
    → t.config.short_break_ms ≡ pos 0
    → t.config.long_break_ms ≡ pos 0
    → t.awaiting ≡ false
    → t.phase_end_ms ≤ℤ now
    → poll_loop f t now b ≡ none
unfolding poll_loop
poll_loop_diverges zero t now b auto w s l e late = refl
poll_loop_diverges (suc f) t now b auto w s l e late =
    let (a, c, stays) = advance_of_empty t now auto w s l e late in
    poll_loop-suc f t now b (ground arith) a
    ∙ poll_loop_diverges f (advance_from_end t) now true
        (ap (λ k. k.auto_start_next_phase) c ∙ auto) (ap (λ k. k.work_ms) c ∙ w)
        (ap (λ k. k.short_break_ms) c ∙ s) (ap (λ k. k.long_break_ms) c ∙ l) a stays
