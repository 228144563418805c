-- ===== src/Wake/Signal.antt =====
-- src/util/engine_wake.hpp: `EngineWakeSignal`, access by access. Any number of threads notify; the engine waits.
use snapback.Prelude.{
  ℕ, ◌+◌, ◌-◌, ◌≤◌, ◌≡◌, refl, Bool, true, false, List, [], ◌∷◌, ltb, if◌then◌else◌, arith, ◌&&◌,
  not,
}

-- `releasing` notifiers are between `pending_.exchange` and `permit_.release`; the engine is `clearing` between a
-- successful acquire and `pending_.exchange(false)`.
pub record EngineWakeSignal : Type 0 where
  pub permit : ℕ
  pub pending : Bool
  pub releasing : ℕ
  pub clearing : Bool

unfoldable pub new_signal : EngineWakeSignal
new_signal = record { permit = 0; pending = false; releasing = 0; clearing = false }

pub data Access : Type 0 where
  exchanges releases acquires clears : Access

-- `notify`: `pending_.exchange(true)`, and for the one who found it false `permit_.release`.
-- `wait`: the permit, if there is one, and behind it `pending_.exchange(false)`; a wait that finds none times out or blocks.
unfoldable pub access : EngineWakeSignal → Access → EngineWakeSignal
access s exchanges =
    if s.pending then s else record s { pending = true; releasing = s.releasing + 1 }
access s releases =
    if ltb 0 s.releasing then record s { releasing = s.releasing - 1; permit = s.permit + 1 } else s
access s acquires =
    if ltb 0 s.permit && not s.clearing
    then record s { permit = s.permit - 1; clearing = true }
    else s
access s clears = if s.clearing then record s { pending = false; clearing = false } else s

unfoldable pub run : EngineWakeSignal → List Access → EngineWakeSignal
run s [] = s
run s (a ∷ xs) = run (access s a) xs

abbrev pub one_if : Bool → ℕ
one_if true = 1
one_if false = 0

unfoldable pub tokens : EngineWakeSignal → ℕ
tokens s = s.permit + s.releasing + one_if s.clearing

access-tokens :
    (s : EngineWakeSignal) (a : Access)
    → tokens s ≡ one_if s.pending
    → tokens (access s a) ≡ one_if (access s a).pending
unfolding tokens access
access-tokens s exchanges h = ground arith
access-tokens s releases h = ground arith
access-tokens s acquires h = ground arith
access-tokens s clears h = ground arith

run-tokens :
    (s : EngineWakeSignal) (xs : List Access)
    → tokens s ≡ one_if s.pending
    → tokens (run s xs) ≡ one_if (run s xs).pending
unfolding run
run-tokens s [] h = h
run-tokens s (a ∷ xs) h = run-tokens (access s a) xs (access-tokens s a h)

start-tokens : tokens new_signal ≡ one_if new_signal.pending
unfolding tokens new_signal
start-tokens = refl

permit_le_one : (s : EngineWakeSignal) → tokens s ≡ one_if s.pending → s.permit ≤ 1
unfolding tokens
permit_le_one s h = ground arith

exchanged-tokens :
    (s : EngineWakeSignal) → tokens s ≡ one_if s.pending → tokens (access s exchanges) ≡ 1
unfolding tokens access
exchanged-tokens s h = ground arith

-- However the accesses interleave, there is never more than the one permit that a binary semaphore can hold; permits, notifiers
-- about to release one, and the engine about to clear the flag are together one while the flag is set and none while it is not;
-- and they are one behind any notifier's exchange, so that no wake is lost.
pub no_lost_wake :
    (accesses : List Access)
    → let s = run new_signal accesses in
      (s.permit ≤ 1) × (tokens s ≡ one_if s.pending) × (tokens (access s exchanges) ≡ 1)
no_lost_wake accesses =
    let h = run-tokens new_signal accesses start-tokens in
    (permit_le_one (run new_signal accesses) h, h, exchanged-tokens (run new_signal accesses) h)
