-- ===== src/Wake/Tests.antt =====
-- The engine asleep and awake, and the theorems at it.
use snapback.Prelude.{◌≤◌, ◌≡◌, Bool, true, List, [], ◌∷◌, some}
use snapback.Prelude.Int.{ℤ, pos, ltb_ℤ}
use snapback.Wake.Signal.{
  new_signal, Access, exchanges, releases, acquires, access, run, one_if, tokens, no_lost_wake,
}
use snapback.Wake.Deadlines.{Deadline, monotonic, wall_clock}
use snapback.Wake.Probe.{CachedProbe}

-- a second notifier comes between the engine's acquire and its clearing of the flag
abbrev coalesced : List Access
coalesced = exchanges ∷ releases ∷ acquires ∷ exchanges ∷ []

no_lost_wake_example :
    let s = run new_signal coalesced in
    (s.permit ≤ 1) × (tokens s ≡ one_if s.pending) × (tokens (access s exchanges) ≡ 1)
no_lost_wake_example = no_lost_wake coalesced

abbrev two_deadlines : List Deadline
two_deadlines = wall_clock (pos 90000) ∷ monotonic (pos 700) ∷ []

-- installed from instant 100 on
abbrev installed : ℤ → Bool
installed now = ltb_ℤ (pos 99) now

abbrev old_answer : CachedProbe
old_answer = record { cached = some true; probed_at_ms = pos 0 }
