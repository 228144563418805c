-- ===== src/Engine/Storms.antt =====
-- A disk that is full for a while, and the theorems on persistence at it.
use snapback.Prelude.{
  ℕ, ◌*◌, ◌^◌, ◌≡◌, ◌++◌, refl, true, false, List, [], ◌∷◌, none, some, length, min,
}
use snapback.Prelude.Int.{ℤ, pos, ◌+ℤ◌}
use snapback.Engine.Flush.{
  deliver, tick_commits, next_retry_delay, failed, tick_throws, by_outcome, latch_snapback, Stored,
  SpanTransition, Episode, Persistence, commits, throws_sqlite, disk_full, holds_episode,
  engine_tick,
}
use snapback.Engine.Retry.{Attempt, fail_all, retry_doubles}
use snapback.Engine.Durable.{ids, history}
use snapback.Engine.Written.{
  handle, Event, decides, comes_back, ticks, handle_all, decided, all_written,
}
use snapback.Engine.Shown.{shows, shown_behind_commit}

abbrev empty_store : Stored
empty_store = record { context_snapshots = []; episodes = []; predictions = []; span_changes = [] }

abbrev calm : Persistence
calm = record {
  stored = empty_store;
  pending_span_transitions = [];
  pending_snapback_episode = none;
  failure = none;
  retry_at_ms = pos 0;
  retry_delay_ms = pos 0;
  failures = 0;
  dropped_predictions = 0;
  latest_snapback = none;
  snapback_emitted = false;
}

abbrev pause : ℕ → SpanTransition
pause id = record {
  id = id;
  session_id = 3;
  opens = false;
  millis_ago = pos 300000;
  timestamp_ms = none;
  decided_at_steady_ms = pos 40;
}

abbrev drift : Episode
drift = record { session_id = 3; started_at_ms = pos 500 }

abbrev storm : List Event
storm =
    decides (pause 1)
    ∷ ticks [] true false (pos 900) (pos 100) (throws_sqlite 13)
    ∷ decides (pause 2)
    ∷ comes_back drift 8 true
    ∷ ticks [] true false (pos 950) (pos 150) commits
    ∷ []

all_written_example :
    let v = (engine_tick (handle_all calm storm) [] true false (pos 9000) (pos 1100) commits).0 in
    (ids v.stored.span_changes ≡ history calm ++ decided storm)
    × (v.pending_span_transitions ≡ [])
    × (v.pending_snapback_episode ≡ none)
unfolding handle_all handle engine_tick latch_snapback by_outcome tick_throws failed ◌+ℤ◌
    next_retry_delay
all_written_example = all_written calm storm [] true (pos 9000) (pos 1100) refl

abbrev back : Persistence
back = record calm { pending_snapback_episode = some drift; latest_snapback = some 8 }

shown_behind_commit_example :
    let v = (engine_tick back [] true false (pos 9000) (pos 1100) commits).0 in
    (holds_episode drift v.stored.episodes ≡ true)
    × (back.snapback_emitted ≡ false)
    × (v.snapback_emitted ≡ true)
unfolding shows engine_tick by_outcome tick_commits deliver
shown_behind_commit_example =
    shown_behind_commit back drift [] true false (pos 9000) (pos 1100) commits refl refl

abbrev attempt : ℤ → Attempt
attempt now = record { jobs = []; wall = pos 7; now = now; category = disk_full }

retry_doubles_example :
    (fail_all calm (attempt (pos 3000) ∷ attempt (pos 1000) ∷ [])).retry_at_ms
    ≡ pos 3000 +ℤ pos (min 30000 (1000 * 2 ^ length (attempt (pos 1000) ∷ [])))
retry_doubles_example = retry_doubles calm (attempt (pos 3000)) (attempt (pos 1000) ∷ []) refl
