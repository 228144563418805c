-- ===== src/Idle/Edges.antt =====
-- src/engine/idle_detector.hpp: the edges that a detector reports over any sequence of calls.
use snapback.Prelude.{◌≡◌, ◌↔◌, ◌⊎◌, true, some, List, [], ◌∷◌, ◌+◌, arith}
use snapback.Prelude.Int.{ℤ, pos, ◌+ℤ◌, ◌-ℤ◌, ◌≤ℤ◌, pos_part, neg_part, +ℤ_parts, -ℤ_parts}
use snapback.Idle.Detector.{
  IdleState, active, idle, IdleTransition, no_edge, went_idle, woke_up, IdleDetector, on_activity,
  poll, next_deadline_ms, set_threshold_ms, idle_for_ms,
}

pub data Call : Type 0 where
  input polled threshold : ℤ → Call

unfoldable pub step : IdleDetector → Call → IdleDetector × IdleTransition
step d (input now) = on_activity d now
step d (polled now) = poll d now
step d (threshold t) = (set_threshold_ms d t, no_edge)

unfoldable pub edges : IdleDetector → List Call → List IdleTransition
edges d [] = []
edges d (c ∷ cs) = (step d c).1 ∷ edges (step d c).0 cs

-- The edges alternate, and begin with the one that leaves the given state.
abbrev pub Alternates : IdleState → List IdleTransition → Type 0
Alternates s [] = Unit {0}
Alternates s (no_edge ∷ es) = Alternates s es
Alternates s (went_idle ∷ es) = (s ≡ active) × Alternates idle es
Alternates s (woke_up ∷ es) = (s ≡ idle) × Alternates active es

step_edge :
    (d : IdleDetector) (c : Call)
    → (((step d c).1 ≡ no_edge) × ((step d c).0.state ≡ d.state))
      ⊎ (((step d c).1 ≡ went_idle) × (d.state ≡ active) × ((step d c).0.state ≡ idle))
      ⊎ (((step d c).1 ≡ woke_up) × (d.state ≡ idle) × ((step d c).0.state ≡ active))
unfolding step on_activity poll set_threshold_ms
step_edge d (input now) = ground arith
step_edge d (polled now) = ground arith
step_edge d (threshold t) = ground arith

-- Whatever the calls and their times, going idle and waking up are reported in turn, never twice
-- in a row, and each from the state that it leaves.
pub edges-Alternates : (d : IdleDetector) (cs : List Call) → Alternates d.state (edges d cs)
unfolding edges
edges-Alternates d [] = tt
edges-Alternates d (c ∷ cs) = ground (arith, step_edge d c, edges-Alternates (step d c).0 cs)

-- A poll reports that the user went idle exactly when there is a deadline and it has come.
pub poll-went_idle :
    (d : IdleDetector) (now : ℤ)
    → ((poll d now).1 ≡ went_idle) ↔ ((e : ℤ) × (next_deadline_ms d ≡ some e) × (e ≤ℤ now))
unfolding poll next_deadline_ms
poll-went_idle d now = (
  λ h. (d.last_activity_ms +ℤ d.threshold_ms, ground arith, ground (arith, sum, gap)),
  λ h. late_of_deadline h.0 h.1 h.2,
)
  where
    sum :
        pos_part (d.last_activity_ms +ℤ d.threshold_ms)
          + neg_part d.last_activity_ms
          + neg_part d.threshold_ms
        ≡ neg_part (d.last_activity_ms +ℤ d.threshold_ms)
          + pos_part d.last_activity_ms
          + pos_part d.threshold_ms
    sum = +ℤ_parts d.last_activity_ms d.threshold_ms

    gap :
        pos_part (now -ℤ d.last_activity_ms) + neg_part now + pos_part d.last_activity_ms
        ≡ neg_part (now -ℤ d.last_activity_ms) + pos_part now + neg_part d.last_activity_ms
    gap = -ℤ_parts now d.last_activity_ms

    late_of_deadline : (e : ℤ) → next_deadline_ms d ≡ some e → e ≤ℤ now → (poll d now).1 ≡ went_idle
    late_of_deadline e q le = ground (arith, sum, gap)

-- At a wake-up of a detector that has seen input, the stretch reported is the time since the last input
-- before it, and not negative.
pub on_activity_duration :
    (d : IdleDetector) (now : ℤ)
    → d.seen_activity ≡ true
    → d.state ≡ idle
    → ((on_activity d now).1 ≡ woke_up)
      × ((on_activity d now).0.last_idle_duration_ms ≡ idle_for_ms d now)
      × (pos 0 ≤ℤ (on_activity d now).0.last_idle_duration_ms)
      × (idle_for_ms (on_activity d now).0 now ≡ pos 0)
unfolding on_activity idle_for_ms
on_activity_duration d now seen s = ground (arith, -ℤ_parts now now)
