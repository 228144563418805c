-- ===== src/Storage/Tests.antt =====
-- A store with one session and a crash, and the theorems at it.
use snapback.Prelude.{List, ◌+◌, ◌≡◌, refl, arith, [], ◌∷◌, none, some}
use snapback.Prelude.Int.{ℤ, pos, ◌-ℤ◌}
use snapback.Storage.Tables.{
  count_active_id, Tables, active, begin_session_span, close_dangling_session_span, Evidence,
  session_is_active,
}
use snapback.Storage.Sound.{IsSound, IsForward, EndsAfter, count_active, open_spans}
use snapback.Storage.Statements.{creates, begins, deletes, apply_all, apply_all-IsSound}
use snapback.Storage.Spans.{round_secs, sum_secs, active_secs}
use snapback.Storage.Signs.{IsLastSign}
use snapback.Storage.Credit.{crash_credits_evidence}
use snapback.Storage.Prune.{
  Round, goes, pauses, pauses_late, finished, expired, Runtime, prune_loop, prune_runtime_data,
  total_expired,
}
use snapback.Storage.Retention.{undisturbed, count_goes, prune_loop-prune_runtime_data}

abbrev working : Tables
working = record {
  sessions =
      record { session_id = 4; status = active; started_at = pos 1000; ended_at = none } ∷ [];
  session_spans =
      record { session_id = 4; started_at = pos 1000; ended_at = some (pos 61000) } ∷ [];
}

working-IsSound : IsSound working
unfolding count_active open_spans IsForward EndsAfter
working-IsSound = record {
  one_active = omega arith;
  one_open = λ id. ground arith;
  forward = (omega arith, tt);
}

apply_all-IsSound_example : IsSound (
    apply_all working (
      begins 4 (pos 70000)
      ∷ creates 5 (pos 80000) (pos 80000)
      ∷ begins 5 (pos 80000)
      ∷ deletes 4
      ∷ []))
apply_all-IsSound_example =
    apply_all-IsSound working
      (begins 4 (pos 70000)
        ∷ creates 5 (pos 80000) (pos 80000)
        ∷ begins 5 (pos 80000)
        ∷ deletes 4
        ∷ [])
      working-IsSound

abbrev before_crash : Evidence
before_crash = record {
  predictions = (4, pos 75000) ∷ (7, pos 95000) ∷ [];
  context_snapshots = (4, pos 90000) ∷ [];
  snapback_events = [];
}

crash_credits_evidence_example :
    let (u, told) =
      close_dangling_session_span (begin_session_span working 4 (pos 70000)).0 4 before_crash in
    (end : ℤ) × IsLastSign 4 (pos 70000) before_crash end
    × (told ≡ some end)
    × (active_secs u 4 (pos 9000000)
        ≡ some (sum_secs (pos 9000000) 4 working.session_spans + round_secs (end -ℤ pos 70000)))
    × (active_secs u 7 (pos 9000000) ≡ active_secs working 7 (pos 9000000))
unfolding session_is_active open_spans count_active_id
crash_credits_evidence_example =
    crash_credits_evidence working 4 7 (pos 70000) (pos 9000000) before_crash refl refl
      (λ e. ground (arith, e))

abbrev history : Runtime
history = record {
  predictions = pos 5 ∷ pos 90 ∷ pos 3 ∷ [];
  context_snapshots = pos 8 ∷ pos 2 ∷ [];
  feature_snapshots = pos 95 ∷ [];
}

abbrev paused_rounds : List Round
paused_rounds = goes ∷ pauses ∷ goes ∷ goes ∷ pauses_late ∷ goes ∷ goes ∷ []

prune_loop-prune_runtime_data_example :
    let r = history in
    prune_loop (pos 50) 1 paused_rounds r 0 ≡ record {
      left = prune_runtime_data (pos 50) r;
      deleted = total_expired (pos 50) r;
      ending = finished;
    }
unfolding total_expired expired undisturbed count_goes
prune_loop-prune_runtime_data_example =
    prune_loop-prune_runtime_data (pos 50) 1 paused_rounds history (omega arith) refl (omega arith)
