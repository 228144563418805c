-- ===== src/Engine/Delay.antt =====
-- src/app/state.cpp: `next_engine_delay_ms`, how long the engine sleeps when nothing wakes it.
use snapback.Prelude.{
  sym, ◌≡◌, Bool, ◌&&◌, ◌||◌, not, List, [], ◌∷◌, ◌++◌, Option, none, some, if◌then◌else◌, subst,
}
use snapback.Prelude.Int.{ℤ, pos, ◌+ℤ◌, ◌≤ℤ◌, ltb_ℤ, max_ℤ}
use snapback.Wake.Deadlines.{
  Deadline, monotonic, wall_clock, add_deadlines, new_deadlines, wait_of, IsIn, first, later,
  delay-bound,
}

-- What the function reads, besides the two clocks.
pub record EngineView : Type 0 where
  pub idle_deadline : Option ℤ
  pub pomodoro_deadline : Option ℤ
  pub has_session : Bool
  pub idle : Bool
  pub untracked_since : Option ℤ
  pub untracked_latched : Bool
  pub untracked_nudge_until_wall : ℤ
  pub private_mode : Bool
  pub private_until_wall : ℤ
  pub privacy_lapse_retry_at : ℤ
  pub snoozed_until_wall : ℤ
  pub persistence_retries : Bool
  pub persistence_retry_at : ℤ
  pub prune_due_from : Option ℤ

abbrev pub of_option : Option ℤ → List Deadline
of_option none = []
of_option (some d) = monotonic d ∷ []

unfoldable pub nudge_deadline : EngineView → ℤ → Option ℤ → List Deadline
nudge_deadline v wall none = []
nudge_deadline v wall (some since) =
    if v.has_session || v.idle || v.untracked_latched
    then []
    else if ltb_ℤ wall v.untracked_nudge_until_wall
    then wall_clock v.untracked_nudge_until_wall ∷ []
    else monotonic (since +ℤ pos 900000) ∷ []

unfoldable pub privacy_deadline : EngineView → ℤ → ℤ → List Deadline
privacy_deadline v now wall =
    if not (v.private_mode && ltb_ℤ (pos 0) v.private_until_wall)
    then []
    else if ltb_ℤ wall v.private_until_wall
    then wall_clock v.private_until_wall ∷ []
    else monotonic (max_ℤ now v.privacy_lapse_retry_at) ∷ []

-- The deadlines in the order of the source.
abbrev rest_of : EngineView → ℤ → ℤ → List Deadline
rest_of v now wall =
    nudge_deadline v wall v.untracked_since
    ++ (privacy_deadline v now wall
        ++ ((if ltb_ℤ wall v.snoozed_until_wall then wall_clock v.snoozed_until_wall ∷ [] else [])
            ++ ((if v.persistence_retries then monotonic v.persistence_retry_at ∷ [] else [])
                ++ of_option v.prune_due_from)))

abbrev others : EngineView → ℤ → ℤ → List Deadline
others v now wall = of_option v.pomodoro_deadline ++ rest_of v now wall

unfoldable pub engine_deadlines : EngineView → ℤ → ℤ → List Deadline
engine_deadlines v now wall = of_option v.idle_deadline ++ others v now wall

unfoldable pub next_engine_delay_ms : EngineView → ℤ → ℤ → Option ℤ
next_engine_delay_ms v now wall =
    (add_deadlines (new_deadlines now wall) (engine_deadlines v now wall)).delay

IsIn-append : (d : Deadline) (xs ys : List Deadline) → IsIn d ys → IsIn d (xs ++ ys)
IsIn-append d [] ys h = h
IsIn-append d (x ∷ xs) ys h = later (IsIn-append d xs ys h)

of_some :
    (o : Option ℤ) (e : ℤ) (rest : List Deadline)
    → o ≡ some e
    → IsIn (monotonic e) (of_option o ++ rest)
of_some o e rest at = subst (λ p. IsIn (monotonic e) (of_option p ++ rest)) (sym at) first

pomodoro_first :
    (v : EngineView) (now wall e : ℤ)
    → v.pomodoro_deadline ≡ some e
    → IsIn (monotonic e) (engine_deadlines v now wall)
unfolding engine_deadlines
pomodoro_first v now wall e at =
    IsIn-append (monotonic e) (of_option v.idle_deadline) (others v now wall)
      (of_some v.pomodoro_deadline e (rest_of v now wall) at)

-- The engine is never asleep past the end of a Pomodoro phase: if the timer has a deadline, the engine sleeps for a bounded time,
-- and no longer than to it.
pub awake_at_phase_end :
    (v : EngineView) (now wall e : ℤ)
    → v.pomodoro_deadline ≡ some e
    → (w : ℤ) × (next_engine_delay_ms v now wall ≡ some w) × (w ≤ℤ wait_of now wall (monotonic e))
unfolding next_engine_delay_ms
awake_at_phase_end v now wall e at =
    delay-bound now wall (engine_deadlines v now wall) (monotonic e)
      (pomodoro_first v now wall e at)
