-- ===== src/Idle/Tests.antt =====
-- The idle detector's theorems at concrete calls.
use snapback.Prelude.{false, ◌≡◌, refl, true, List, [], ◌∷◌}
use snapback.Prelude.Int.{pos, ◌-ℤ◌}
use snapback.Idle.Detector.{
  IdleDetector, active, idle, went_idle, woke_up, no_edge, on_activity, poll,
}
use snapback.Idle.Edges.{Call, input, polled, Alternates, step, edges, edges-Alternates}

abbrev five_minutes : IdleDetector
five_minutes = record {
  threshold_ms = pos 300;
  last_activity_ms = pos 0;
  last_idle_duration_ms = pos 0;
  state = active;
  seen_activity = false;
}

abbrev away : IdleDetector
away = record five_minutes { last_activity_ms = pos 10; state = idle; seen_activity = true }

abbrev calls : List Call
calls =
    polled (pos 5)
    ∷ input (pos 10)
    ∷ polled (pos 309)
    ∷ polled (pos 310)
    ∷ polled (pos 400)
    ∷ input (pos 500)
    ∷ []

edges_of_calls :
    edges five_minutes calls ≡ no_edge ∷ no_edge ∷ no_edge ∷ went_idle ∷ no_edge ∷ woke_up ∷ []
unfolding edges step poll on_activity ◌-ℤ◌
edges_of_calls = refl

edges-Alternates_example : Alternates active (edges five_minutes calls)
edges-Alternates_example = edges-Alternates five_minutes calls
