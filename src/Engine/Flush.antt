-- ===== src/Engine/Flush.antt =====
-- src/app/state.cpp: how `engine_tick` writes to storage, retries what failed, and releases the snapback that waits for it.
-- Nothing else runs between the phases of a tick. Storage is what was committed to it; whether a transaction goes through is
-- an argument, as are the two clocks, and the numbers of a job or an episode stand for their texts.
use snapback.Prelude.{
  ℕ, suc, ◌+◌, Bool, true, false, not, ◌&&◌, ◌||◌, ◌==◌, List, [], ◌∷◌, ◌++◌, Option, none, some,
  if◌then◌else◌,
}
use snapback.Prelude.Int.{ℤ, pos, ◌+ℤ◌, ◌-ℤ◌, max_ℤ, min_ℤ, ltb_ℤ, eqb_ℤ}

pub record SpanTransition : Type 0 where
  pub id : ℕ
  pub session_id : ℕ
  pub opens : Bool
  pub millis_ago : ℤ
  pub timestamp_ms : Option ℤ
  pub decided_at_steady_ms : ℤ

-- The fields of a `SnapbackEpisode` that tell it from others.
pub record Episode : Type 0 where
  pub session_id : ℕ
  pub started_at_ms : ℤ

-- `session_id` is `none` where the text is empty.
pub record PersistJob : Type 0 where
  pub session_id : Option ℕ
  pub context_snapshot : Option ℕ
  pub snapback_episode : Option Episode
  pub prediction : Option ℕ

pub record Stored : Type 0 where
  pub context_snapshots : List ℕ
  pub episodes : List Episode
  pub predictions : List ℕ
  pub span_changes : List SpanTransition

pub data FailureCategory : Type 0 where
  write_failed database_busy disk_full filesystem_io : FailureCategory

-- A failure that is not SQLite's, or one with its code.
pub data Outcome : Type 0 where
  commits : Outcome
  throws : Outcome
  throws_sqlite : ℕ → Outcome

pub record Persistence : Type 0 where
  pub stored : Stored
  pub pending_span_transitions : List SpanTransition
  pub pending_snapback_episode : Option Episode
  pub failure : Option FailureCategory
  pub retry_at_ms : ℤ
  pub retry_delay_ms : ℤ
  pub failures : ℕ
  pub dropped_predictions : ℕ
  pub latest_snapback : Option ℕ
  pub snapback_emitted : Bool

pub data Emission : Type 0 where
  persistence_failed : FailureCategory → Emission
  persistence_recovered : Emission
  snapback_returned : ℕ → Emission

abbrev pub is_some : {A : Type 0} → Option A → Bool
is_some none = false
is_some (some a) = true

abbrev pub is_cons : {A : Type 0} → List A → Bool
is_cons [] = false
is_cons (x ∷ xs) = true

abbrev pub same_episode : Episode → Episode → Bool
same_episode a b = a.session_id == b.session_id && eqb_ℤ a.started_at_ms b.started_at_ms

unfoldable pub holds_episode : Episode → List Episode → Bool
holds_episode e [] = false
holds_episode e (d ∷ ds) = same_episode d e || holds_episode e ds

-- `insert_snapback_episode`: INSERT OR IGNORE against the unique index.
unfoldable pub insert_episode : List Episode → Episode → List Episode
insert_episode es e = if holds_episode e es then es else es ++ e ∷ []

abbrev pub insert_opt : List Episode → Option Episode → List Episode
insert_opt es none = es
insert_opt es (some e) = insert_episode es e

abbrev pub append_opt : List ℕ → Option ℕ → List ℕ
append_opt xs none = xs
append_opt xs (some x) = xs ++ x ∷ []

unfoldable pub persist : Stored → PersistJob → Stored
persist s job =
    if is_some job.session_id
    then record s {
      context_snapshots = append_opt s.context_snapshots job.context_snapshot;
      episodes = insert_opt s.episodes job.snapback_episode;
      predictions = append_opt s.predictions job.prediction;
    }
    else s

unfoldable pub persist_all : Stored → List PersistJob → Stored
persist_all s [] = s
persist_all s (job ∷ jobs) = persist_all (persist s job) jobs

-- The instant of a boundary, resolved once: `session_span_timestamp_now` at the wall clock.
unfoldable pub resolve : ℤ → ℤ → SpanTransition → SpanTransition
resolve wall now t = elim t.timestamp_ms [
  | none ↦
      let ago = t.millis_ago +ℤ max_ℤ (pos 0) (now -ℤ t.decided_at_steady_ms) in
      record t { timestamp_ms = some (wall -ℤ max_ℤ (pos 0) ago) }
  | some at ↦ t
]

unfoldable pub resolve_all : ℤ → ℤ → List SpanTransition → List SpanTransition
resolve_all wall now [] = []
resolve_all wall now (t ∷ ts) = resolve wall now t ∷ resolve_all wall now ts

-- What the transaction of a tick commits.
unfoldable pub write_batch :
    Stored → List PersistJob → Option Episode → List SpanTransition → Stored
write_batch s jobs episode ts =
    let p = persist_all s jobs in
    record p { episodes = insert_opt p.episodes episode; span_changes = p.span_changes ++ ts }

-- The primary codes of SQLite: 5 and 6 busy or locked, 13 full, 10, 14, 8 and 3 of the file system.
unfoldable pub category_of_code : ℕ → FailureCategory
category_of_code code =
    if code == 5 || code == 6
    then database_busy
    else if code == 13
    then disk_full
    else if code == 10 || code == 14 || code == 8 || code == 3
    then filesystem_io
    else write_failed

unfoldable pub has_session_job : List PersistJob → Bool
has_session_job [] = false
has_session_job (job ∷ jobs) = is_some job.session_id || has_session_job jobs

unfoldable pub count_lost : List PersistJob → ℕ
count_lost [] = 0
count_lost (job ∷ jobs) =
    let rest = count_lost jobs in
    if is_some job.session_id && is_some job.prediction then suc rest else rest

unfoldable pub next_retry_delay : ℤ → ℤ
next_retry_delay delay =
    if eqb_ℤ delay (pos 0) then pos 1000 else min_ℤ (pos 30000) (delay +ℤ delay)

abbrev pub same_category : FailureCategory → FailureCategory → Bool
same_category write_failed write_failed = true
same_category database_busy database_busy = true
same_category disk_full disk_full = true
same_category filesystem_io filesystem_io = true
same_category _ _ = false

abbrev pub is_news : Option FailureCategory → FailureCategory → Bool
is_news none c = true
is_news (some d) c = not (same_category d c)

abbrev pub note_if : Bool → Emission → List Emission → List Emission
note_if true e rest = e ∷ rest
note_if false e rest = rest

-- The queue without the first transition of an id.
unfoldable pub erase_id : ℕ → List SpanTransition → List SpanTransition
erase_id id [] = []
erase_id id (t ∷ ts) = let rest = erase_id id ts in if t.id == id then ts else t ∷ rest

unfoldable pub erase_all : List SpanTransition → List SpanTransition → List SpanTransition
erase_all [] queue = queue
erase_all (t ∷ ts) queue = erase_all ts (erase_id t.id queue)

abbrev pub cleared : Option Episode → Option Episode → Option Episode
cleared none pending = pending
cleared (some e) none = none
cleared (some e) (some p) = if same_episode p e then none else some p

-- The catch block, and the predictions lost with the batch.
unfoldable pub failed : Persistence → List PersistJob → ℤ → ℤ → FailureCategory → Persistence
failed s jobs wall now category = record s {
  pending_span_transitions = resolve_all wall now s.pending_span_transitions;
  failure = some category;
  retry_delay_ms = next_retry_delay s.retry_delay_ms;
  retry_at_ms = now +ℤ next_retry_delay s.retry_delay_ms;
  failures = suc s.failures;
  dropped_predictions = s.dropped_predictions + count_lost jobs;
}

-- A commit that wrote something ends the failure and takes the episode off the list.
unfoldable pub recover : Persistence → Persistence
recover s = record s {
  failure = none;
  retry_delay_ms = pos 0;
  retry_at_ms = pos 0;
  pending_snapback_episode = cleared s.pending_snapback_episode s.pending_snapback_episode;
}

-- What a tick has to write, besides its jobs.
abbrev pub wrote_data : Persistence → List PersistJob → Bool
wrote_data s jobs =
    is_cons s.pending_span_transitions || is_some s.pending_snapback_episode || has_session_job jobs

unfoldable pub committed : Persistence → List PersistJob → ℤ → ℤ → Persistence
committed s jobs wall now =
    let r = if wrote_data s jobs then recover s else s in
    record r {
      stored =
          write_batch s.stored jobs s.pending_snapback_episode
            (resolve_all wall now s.pending_span_transitions);
      pending_span_transitions = erase_all s.pending_span_transitions s.pending_span_transitions;
    }

-- The snapback that this tick may show: there is a listener, and it was not shown.
abbrev pub to_emit : Persistence → Bool → Option ℕ
to_emit s listens = if listens && not s.snapback_emitted then s.latest_snapback else none

unfoldable pub deliver : Persistence → Option ℕ → Persistence × List Emission
deliver s none = (s, [])
deliver s (some payload) = (record s { snapback_emitted = true }, snapback_returned payload ∷ [])

-- A tick whose transaction commits, and one whose transaction throws.
unfoldable pub tick_commits :
    Persistence → List PersistJob → Bool → ℤ → ℤ → Persistence × List Emission
tick_commits s jobs listens wall now =
    let (d, out) = deliver (committed s jobs wall now) (to_emit s listens) in
    (d, note_if (listens && wrote_data s jobs && is_some s.failure) persistence_recovered out)

unfoldable pub tick_throws :
    Persistence → List PersistJob → Bool → ℤ → ℤ → FailureCategory → Persistence × List Emission
tick_throws s jobs listens wall now category = (
  failed s jobs wall now category,
  note_if (listens && is_news s.failure category) (persistence_failed category) [],
)

unfoldable pub by_outcome :
    Persistence → List PersistJob → Bool → ℤ → ℤ → Outcome → Persistence × List Emission
by_outcome s jobs listens wall now commits = tick_commits s jobs listens wall now
by_outcome s jobs listens wall now throws = tick_throws s jobs listens wall now write_failed
by_outcome s jobs listens wall now (throws_sqlite code) =
    tick_throws s jobs listens wall now (category_of_code code)

abbrev pub backs_off : Persistence → ℤ → Bool
backs_off s now = is_some s.failure && ltb_ℤ now s.retry_at_ms

abbrev pub has_work : Persistence → List PersistJob → Bool → Bool
has_work s jobs listens =
    is_cons jobs
    || is_cons s.pending_span_transitions
    || is_some s.pending_snapback_episode
    || is_some (to_emit s listens)

-- `listens` says whether the hook is there; `deleted`, whether a deletion of the activity has come between.
unfoldable pub engine_tick :
    Persistence → List PersistJob → Bool → Bool → ℤ → ℤ → Outcome → Persistence × List Emission
engine_tick s jobs listens deleted wall now outcome =
    if deleted
    then (s, [])
    else if backs_off s now
    then (record s { dropped_predictions = s.dropped_predictions + count_lost jobs }, [])
    else if has_work s jobs listens
    then by_outcome s jobs listens wall now outcome
    else (s, [])

-- The latch of `compute_event` on a return from a distraction; `visible` is the delivery policy's answer.
unfoldable pub latch_snapback : Persistence → Episode → ℕ → Bool → Persistence
latch_snapback s episode payload visible =
    let p = record s { pending_snapback_episode = some episode } in
    if is_some s.failure && is_some s.pending_snapback_episode
    then s
    else if visible
    then record p { latest_snapback = some payload; snapback_emitted = false }
    else p
