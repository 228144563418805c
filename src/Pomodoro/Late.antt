-- ===== src/Pomodoro/Late.antt =====
-- src/engine/pomodoro.hpp: polling late, or often, makes no difference to where the timer stands.
use snapback.Prelude.{
  ℕ, suc, ◌+◌, ◌≡◌, refl, Bool, true, false, ◌||◌, some, arith, Bool-cases, ltb, inl, inr, ◌∙◌, sym,
  ap, ap₂, subst, ◌⊎◌, Option,
}
use snapback.Prelude.Int.{ℤ, ◌≤ℤ◌}
use snapback.Pomodoro.Phase.{PomodoroTimer}
use snapback.Pomodoro.Poll.{advance_from_end, poll}
use snapback.Pomodoro.Boundaries.{
  HasPositiveLengths, IsCounting, Crosses, settled, waits, chains, config-advance_from_end,
  poll-Crosses,
}

advance-kept :
    (t : PomodoroTimer)
    → ((advance_from_end t).running ≡ t.running) × ((advance_from_end t).paused ≡ t.paused)
unfolding advance_from_end
advance-kept t = ground arith

-- What polling never touches.
pub Crosses-kept :
    {now : ℤ} {n : ℕ} {t u : PomodoroTimer}
    → Crosses now n t u
    → (u.config ≡ t.config) × (u.running ≡ t.running) × (u.paused ≡ t.paused)
Crosses-kept (settled early) = (refl, refl, refl)
Crosses-kept (waits {t} late waiting) =
    (config-advance_from_end t, (advance-kept t).0, (advance-kept t).1)
Crosses-kept (chains {n} {t} {u} late onward rest) =
    let kept = Crosses-kept rest in
    let step = advance-kept t in
    (kept.0 ∙ config-advance_from_end t, kept.1 ∙ step.0, kept.2 ∙ step.1)

-- Where a timer stands at a given time is determined.
Crosses-unique :
    {now : ℤ} {n m : ℕ} {t u v : PomodoroTimer}
    → Crosses now n t u
    → Crosses now m t v
    → (n ≡ m) × (u ≡ v)
Crosses-unique (settled early) (settled _) = (refl, refl)
Crosses-unique (settled early) (waits late _) = absurd (omega arith)
Crosses-unique (settled early) (chains late _ _) = absurd (omega arith)
Crosses-unique (waits late _) (settled early) = absurd (omega arith)
Crosses-unique (waits _ _) (waits _ _) = (refl, refl)
Crosses-unique (waits _ waiting) (chains _ onward _) = cc
Crosses-unique (chains late _ _) (settled early) = absurd (omega arith)
Crosses-unique (chains _ onward _) (waits _ waiting) = cc
Crosses-unique (chains _ _ rest) (chains _ _ rest') =
    let (e, p) = Crosses-unique rest rest' in (ap suc e, p)

Crosses-trans :
    {now later : ℤ} {n m : ℕ} {t u v : PomodoroTimer}
    → now ≤ℤ later
    → u.awaiting ≡ false
    → Crosses now n t u
    → Crosses later m u v
    → (k : ℕ) × (k ≡ n + m) × Crosses later k t v
Crosses-trans {m} h e (settled early) c = (m, omega arith, c)
Crosses-trans h e (waits late waiting) c = absurd (cc)
Crosses-trans h e (chains late onward rest) c =
    let (k, eq, all) = Crosses-trans h e rest c in
    (suc k, omega (arith, eq), chains (omega arith) onward all)

Crosses-waits :
    {now later : ℤ} {n : ℕ} {t u : PomodoroTimer}
    → now ≤ℤ later
    → t.awaiting ≡ false
    → u.awaiting ≡ true
    → Crosses now n t u
    → Crosses later n t u
Crosses-waits h e w (settled early) = absurd (cc)
Crosses-waits h e w (waits late waiting) = waits (omega arith) waiting
Crosses-waits h e w (chains late onward rest) =
    chains (omega arith) onward (Crosses-waits h onward w rest)

result_eq :
    {u v : PomodoroTimer} {b c : Bool}
    → ◌≡◌ {A = Option (PomodoroTimer × Bool)} (some (u, b)) (some (v, c))
    → (u ≡ v) × (b ≡ c)
result_eq e = (cc, cc)

module _ (t : PomodoroTimer) (now : ℤ) (h : HasPositiveLengths t.config) (c : IsCounting t) where
  pub poll_of_Crosses :
      {n : ℕ} {u : PomodoroTimer} → Crosses now n t u → poll t now ≡ some (u, ltb 0 n)
  poll_of_Crosses crossed = meet (poll-Crosses t now h c) crossed
    where
      meet :
          {n : ℕ} {u : PomodoroTimer}
          → ((m : ℕ) × (v : PomodoroTimer) × (poll t now ≡ some (v, ltb 0 m)) × Crosses now m t v)
          → Crosses now n t u
          → poll t now ≡ some (u, ltb 0 n)
      meet (m, v, run, other) one =
          let same = Crosses-unique other one in
          run ∙ ap₂ (λ w k. some (w, ltb 0 k)) (same.1) (same.0)

  pub Crosses-of_poll :
      {u : PomodoroTimer} {b : Bool}
      → poll t now ≡ some (u, b)
      → (n : ℕ) × Crosses now n t u × (b ≡ ltb 0 n)
  Crosses-of_poll {u} {b} e = meet (poll-Crosses t now h c)
    where
      meet :
          ((m : ℕ) × (v : PomodoroTimer) × (poll t now ≡ some (v, ltb 0 m)) × Crosses now m t v)
          → (n : ℕ) × Crosses now n t u × (b ≡ ltb 0 n)
      meet (m, v, run, crossed) =
          let same = result_eq (sym run ∙ e) in
          (m, subst (Crosses now m t) same.0 crossed, sym same.1)

any_of_sum : (n m k : ℕ) (b c : Bool) → b ≡ ltb 0 n → c ≡ ltb 0 m → k ≡ n + m → ltb 0 k ≡ (b || c)
any_of_sum n m k b c p q s = ground arith

-- A second poll of a timer that waits for the user does nothing.
poll_of_awaiting : (t : PomodoroTimer) (now : ℤ) → t.awaiting ≡ true → poll t now ≡ some (t, false)
unfolding poll
poll_of_awaiting t now w = ground arith

-- For a timer that counts down, with phases that last: polling it at one time, and what that leaves at a
-- later time, leaves the timer where one poll at the later time leaves it, and that one poll reports a
-- change exactly when either of the two does.
pub poll-poll :
    (t u v : PomodoroTimer) (now later : ℤ) (b c : Bool)
    → HasPositiveLengths t.config
    → IsCounting t
    → now ≤ℤ later
    → poll t now ≡ some (u, b)
    → poll u later ≡ some (v, c)
    → poll t later ≡ some (v, b || c)
poll-poll t u v now later b c h count le first second =
    by_cases (Crosses-of_poll t now h count first) (Bool-cases u.awaiting)
  where
    by_cases :
        ((n : ℕ) × Crosses now n t u × (b ≡ ltb 0 n))
        → (u.awaiting ≡ true) ⊎ (u.awaiting ≡ false)
        → poll t later ≡ some (v, b || c)
    by_cases (n, crossed, eb) (inl waiting) =
        let same = result_eq (sym (poll_of_awaiting u later waiting) ∙ second) in
        poll_of_Crosses t later h count (Crosses-waits le count.unawaited waiting crossed)
        ∙ ap₂ (λ w k. some (w, k)) same.0 (ground (arith, eb, same.1))
    by_cases (n, crossed, eb) (inr onward) =
        let kept = Crosses-kept crossed in
        let (m, rest, ec) =
          (Crosses-of_poll u later (subst HasPositiveLengths (sym kept.0) h)
            (record {
              runs = kept.1 ∙ count.runs;
              unpaused = kept.2 ∙ count.unpaused;
              unawaited = onward;
            })
            second) in
        let (k, sum, all) = Crosses-trans le onward crossed rest in
        poll_of_Crosses t later h count all ∙ ap (λ w. some (v, w)) (any_of_sum n m k b c eb ec sum)
