-- ===== src/Wake/Deadlines.antt =====
-- src/util/engine_wake.hpp: `EngineDeadlines`, how long the engine may sleep.
use snapback.Prelude.{
  ap₂, subst, Bool-cases, false, ◌∙◌, true, ◌≡◌, ◌⊎◌, inl, inr, refl, Option, none, some, List, [],
  ◌∷◌, if◌then◌else◌, arith,
}
use snapback.Prelude.Int.{ℤ, pos, ◌-ℤ◌, ◌≤ℤ◌, ltb_ℤ, max_ℤ, min_ℤ}

pub record EngineDeadlines : Type 0 where
  pub steady : ℤ
  pub wall : ℤ
  pub delay : Option ℤ

unfoldable pub new_deadlines : ℤ → ℤ → EngineDeadlines
new_deadlines steady_ms wall_ms = record { steady = steady_ms; wall = wall_ms; delay = none }

unfoldable pub sooner : Option ℤ → ℤ → Option ℤ
sooner none d = some d
sooner (some old) d = if ltb_ℤ d old then some d else some old

unfoldable pub include_delay : EngineDeadlines → ℤ → EngineDeadlines
include_delay e d = record e { delay = sooner e.delay (max_ℤ (pos 0) d) }

pub data Deadline : Type 0 where
  monotonic wall_clock : ℤ → Deadline

unfoldable pub add_deadline : EngineDeadlines → Deadline → EngineDeadlines
add_deadline e (monotonic d) = include_delay e (d -ℤ e.steady)
add_deadline e (wall_clock d) = include_delay e (min_ℤ (pos 30000) (d -ℤ e.wall))

unfoldable pub add_deadlines : EngineDeadlines → List Deadline → EngineDeadlines
add_deadlines e [] = e
add_deadlines e (d ∷ ds) = add_deadlines (add_deadline e d) ds

-- How long one deadline leaves: none if it is past, and half a minute at most if it is by the wall clock.
unfoldable pub wait_of : ℤ → ℤ → Deadline → ℤ
wait_of steady wall (monotonic d) = max_ℤ (pos 0) (d -ℤ steady)
wait_of steady wall (wall_clock d) = max_ℤ (pos 0) (min_ℤ (pos 30000) (d -ℤ wall))

-- A deadline of a list.
pub data IsIn (d : Deadline) : List Deadline → Type 0 where
  first : {ds : List Deadline} → IsIn d (d ∷ ds)
  later : {e : Deadline} {ds : List Deadline} → IsIn d ds → IsIn d (e ∷ ds)

add_deadline-delay :
    (e : EngineDeadlines) (d : Deadline)
    → ((add_deadline e d).delay ≡ sooner e.delay (wait_of e.steady e.wall d))
      × ((add_deadline e d).steady ≡ e.steady)
      × ((add_deadline e d).wall ≡ e.wall)
unfolding add_deadline include_delay wait_of
add_deadline-delay e (monotonic d) = (refl, refl, refl)
add_deadline-delay e (wall_clock d) = (refl, refl, refl)

-- A deadline leaves as long whatever was added before it.
kept :
    (e : EngineDeadlines) (d c : Deadline)
    → wait_of (add_deadline e d).steady (add_deadline e d).wall c ≡ wait_of e.steady e.wall c
kept e d c = ap₂ (λ s w. wait_of s w c) (add_deadline-delay e d).1 (add_deadline-delay e d).2

sooner-bound :
    (o : Option ℤ) (d : ℤ)
    → (w : ℤ) × (sooner o d ≡ some w) × (w ≤ℤ d) × (w ≤ℤ (elim o [ none ↦ d | some x ↦ x ]))
unfolding sooner
sooner-bound none d = (d, refl, ground arith, ground arith)
sooner-bound (some old) d = by_order (Bool-cases (ltb_ℤ d old))
  where
    by_order :
        (ltb_ℤ d old ≡ true) ⊎ (ltb_ℤ d old ≡ false)
        → (w : ℤ) × (sooner (some old) d ≡ some w) × (w ≤ℤ d) × (w ≤ℤ old)
    by_order (inl before) = (d, ground arith, ground arith, ground arith)
    by_order (inr behind) = (old, ground arith, ground arith, ground arith)

le_trans : (a b c : ℤ) → a ≤ℤ b → b ≤ℤ c → a ≤ℤ c
le_trans a b c h k = omega arith

-- More deadlines only bring the time forward.
add_deadlines-old :
    (e : EngineDeadlines) (ds : List Deadline) (o : ℤ)
    → e.delay ≡ some o
    → (w : ℤ) × ((add_deadlines e ds).delay ≡ some w) × (w ≤ℤ o)
unfolding add_deadlines
add_deadlines-old e [] o h = (o, h, ground arith)
add_deadlines-old e (d ∷ ds) o h =
    by_step (sooner-bound e.delay (wait_of e.steady e.wall d))
      (add_deadlines-old (add_deadline e d) ds)
  where
    by_step :
        (v : ℤ) × (sooner e.delay (wait_of e.steady e.wall d) ≡ some v)
          × (v ≤ℤ wait_of e.steady e.wall d)
          × (v ≤ℤ (elim e.delay [ none ↦ wait_of e.steady e.wall d | some x ↦ x ]))
        → ((v : ℤ)
            → (add_deadline e d).delay ≡ some v
            → (w : ℤ) × ((add_deadlines (add_deadline e d) ds).delay ≡ some w) × (w ≤ℤ v))
        → (w : ℤ) × ((add_deadlines (add_deadline e d) ds).delay ≡ some w) × (w ≤ℤ o)
    by_step (v, at, below_d, below_o) rest =
        let (w, got, below) = rest v ((add_deadline-delay e d).0 ∙ at) in
        (w, got, le_trans w v o below (ground (arith, below_o, h)))

add_deadlines-bound :
    (e : EngineDeadlines) (ds : List Deadline) (d : Deadline)
    → IsIn d ds
    → (w : ℤ) × ((add_deadlines e ds).delay ≡ some w) × (w ≤ℤ wait_of e.steady e.wall d)
unfolding add_deadlines
add_deadlines-bound e [] d x = elim x [ ]
add_deadlines-bound e (d ∷ ds) c first = by_step (sooner-bound e.delay (wait_of e.steady e.wall d))
  where
    by_step :
        (v : ℤ) × (sooner e.delay (wait_of e.steady e.wall d) ≡ some v)
          × (v ≤ℤ wait_of e.steady e.wall d)
          × (v ≤ℤ (elim e.delay [ none ↦ wait_of e.steady e.wall d | some x ↦ x ]))
        → (w : ℤ) × ((add_deadlines (add_deadline e d) ds).delay ≡ some w)
          × (w ≤ℤ wait_of e.steady e.wall d)
    by_step (v, at, below_d, below_o) =
        end_at (add_deadlines-old (add_deadline e d) ds v ((add_deadline-delay e d).0 ∙ at))
      where
        end_at :
            (w : ℤ) × ((add_deadlines (add_deadline e d) ds).delay ≡ some w) × (w ≤ℤ v)
            → (w : ℤ) × ((add_deadlines (add_deadline e d) ds).delay ≡ some w)
              × (w ≤ℤ wait_of e.steady e.wall d)
        end_at (w, got, below) = (w, got, omega (arith, below, below_d))
add_deadlines-bound e (d ∷ ds) c (later rest) =
    let (w, got, below) = add_deadlines-bound (add_deadline e d) ds c rest in
    (w, got, subst (λ v. w ≤ℤ v) (kept e d c) below)

-- The engine sleeps no longer than any of its deadlines leaves.
pub delay-bound :
    (steady wall : ℤ) (ds : List Deadline) (d : Deadline)
    → IsIn d ds
    → (w : ℤ) × ((add_deadlines (new_deadlines steady wall) ds).delay ≡ some w)
      × (w ≤ℤ wait_of steady wall d)
unfolding new_deadlines
delay-bound steady wall ds d x = add_deadlines-bound (new_deadlines steady wall) ds d x
