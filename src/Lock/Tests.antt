-- ===== src/Lock/Tests.antt =====
-- Threads that use the locks of the engine, and the theorems at them.
use snapback.Prelude.{zero, suc, ℕ, refl, ◌≡◌, List, [], ◌∷◌, Option, none, some, arith}
use snapback.Prelude.Int.{pos}
use snapback.Lock.Held.{
  Op, state, storage, rank_value, HeldRank, locks, unlocks, apply_op, apply_ops, innermost,
  check_acquire, push, pop, take_rank, top_is,
}
use snapback.Lock.Order.{
  IsNested, Tracks, without, held_locks, all_held_locks, apply_ops-Tracks, Waits, no_deadlock,
}
use snapback.Lock.Metrics.{Thread}

abbrev persist : List Op
persist = locks state (pos 10) ∷ locks storage (pos 20) ∷ unlocks storage ∷ []

persist-quiet : (apply_ops [] persist).1 ≡ []
unfolding apply_ops apply_op check_acquire innermost push pop take_rank top_is rank_value
persist-quiet = refl

apply_ops-Tracks_example :
    IsNested (apply_ops [] persist).0 × Tracks (apply_ops [] persist).0 (state ∷ [])
unfolding all_held_locks held_locks without rank_value IsNested Tracks
apply_ops-Tracks_example = apply_ops-Tracks [] [] persist tt tt persist-quiet

-- thread 0 holds the state lock and wants the storage lock, which thread 1 holds
abbrev engine_held : ℕ → List HeldRank
engine_held zero = record { rank = 100; acquired_ns = pos 1 } ∷ []
engine_held (suc i) = record { rank = 300; acquired_ns = pos 2 } ∷ []

abbrev engine_wants : ℕ → Option ℕ
engine_wants zero = some 300
engine_wants (suc i) = none

engine-fine : (i r : ℕ) → engine_wants i ≡ some r → check_acquire (engine_held i) r ≡ []
unfolding check_acquire innermost
engine-fine zero r w = ground arith
engine-fine (suc i) r w = absurd (cc)

no_deadlock_example : ¬ Waits engine_held engine_wants 0 0
no_deadlock_example = no_deadlock engine_held engine_wants 0 engine-fine

abbrev unused : Thread
unused = record {
  metrics = record {
    acquisitions = 0;
    contended = 0;
    total_hold_us = 0;
    max_hold_us = 0;
    max_wait_us = 0;
    hold = λ i. 0;
    wait = λ i. 0;
  };
  held_ranks = [];
}
