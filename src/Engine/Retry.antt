-- ===== src/Engine/Retry.antt =====
-- src/app/state.cpp: how long the next attempt waits behind failures in a row.
use snapback.Prelude.{
  ◌<◌, length, ℕ, zero, suc, ◌*◌, ◌^◌, ◌≤◌, ◌≡◌, refl, ap, ◌∙◌, List, [], ◌∷◌, min, arith,
}
use native.Mathlib.Nat.{pow-suc}
use snapback.Prelude.Int.{ℤ, pos, ◌+ℤ◌}
use snapback.Engine.Flush.{PersistJob, Persistence, FailureCategory, failed, next_retry_delay}

-- A failed attempt: its jobs, the two clocks and the kind of failure.
pub record Attempt : Type 0 where
  pub jobs : List PersistJob
  pub wall : ℤ
  pub now : ℤ
  pub category : FailureCategory

-- Attempts that fail in a row, the last one first.
unfoldable pub fail_all : Persistence → List Attempt → Persistence
fail_all s [] = s
fail_all s (a ∷ rest) = failed (fail_all s rest) a.jobs a.wall a.now a.category

delay_doubles : (m : ℕ) → 0 < m → m ≤ 30000 → next_retry_delay (pos m) ≡ pos (min 30000 (2 * m))
unfolding next_retry_delay ◌+ℤ◌
delay_doubles m h k = ground (arith, h, k)

capped_twice : (x : ℕ) → 1 ≤ x → min 30000 (2 * min 30000 (1000 * x)) ≡ min 30000 (1000 * (2 * x))
capped_twice x h = omega (arith, h)

pow_pos : (n : ℕ) → 1 ≤ 2 ^ n
pow_pos zero = omega arith
pow_pos (suc n) = omega (arith, pow-suc 2 n, pow_pos n)

first_delay : next_retry_delay (pos 0) ≡ pos (min 30000 (1000 * 2 ^ 0))
unfolding next_retry_delay
first_delay = refl

later_delay :
    (n : ℕ) → next_retry_delay (pos (min 30000 (1000 * 2 ^ n))) ≡ pos (min 30000 (1000 * 2 ^ suc n))
later_delay n =
    delay_doubles (min 30000 (1000 * 2 ^ n)) (omega (arith, pow_pos n)) (omega arith)
    ∙ ap pos (capped_twice (2 ^ n) (pow_pos n))
    ∙ ap (λ x. pos (min 30000 (1000 * x))) (omega (arith, pow-suc 2 n))

-- The delay behind failures in a row, the first of them behind none.
delay_behind :
    (s : Persistence) (a : Attempt) (rest : List Attempt)
    → s.retry_delay_ms ≡ pos 0
    → (fail_all s (a ∷ rest)).retry_delay_ms ≡ pos (min 30000 (1000 * 2 ^ length rest))
unfolding fail_all failed
delay_behind s a [] h = ap next_retry_delay h ∙ first_delay
delay_behind s a (b ∷ rest) h =
    ap next_retry_delay (delay_behind s b rest h) ∙ later_delay (length rest)

-- When attempts fail in a row, the first of them with no delay set, the next attempt waits a second behind the first, twice as long
-- behind each further one, and never more than half a minute.
pub retry_doubles :
    (s : Persistence) (a : Attempt) (rest : List Attempt)
    → s.retry_delay_ms ≡ pos 0
    → (fail_all s (a ∷ rest)).retry_at_ms ≡ a.now +ℤ pos (min 30000 (1000 * 2 ^ length rest))
unfolding fail_all failed
retry_doubles s a rest h = ap (λ d. a.now +ℤ d) (delay_behind s a rest h)
