-- ===== src/Engine/Attendance.antt =====
-- src/app/state.cpp: the record of when a session is attended, in memory: `update_idle_unlocked` as far as it keeps spans, what `engine_tick`
-- acknowledges, and the start and stop of a session. A session is a number. What is written to storage is in Engine/Spans.
use snapback.Prelude.{
  ℕ, suc, Bool, true, false, not, ◌&&◌, ◌==◌, List, [], ◌∷◌, ◌++◌, Option, none, some,
  if◌then◌else◌,
}
use snapback.Prelude.Int.{ℤ, pos}
use snapback.Idle.Detector.{IdleDetector, is_idle, on_activity, poll, idle_for_ms}

pub record PendingSpanTransition : Type 0 where
  pub id : ℕ
  pub session_id : ℕ
  pub opens : Bool
  pub millis_ago : ℤ
  pub decided_at_steady_ms : ℤ

pub record Attendance : Type 0 where
  pub active_session : Option ℕ
  pub session_attended : Bool
  pub committed_session_attended : Bool
  pub idle_detector : IdleDetector
  pub pending_span_transitions : List PendingSpanTransition
  pub next_span_transition_id : ℕ

-- `on_activity` if there was input, and behind it `poll`.
unfoldable pub detect : IdleDetector → ℤ → Bool → IdleDetector
detect d now had_input = (poll (if had_input then (on_activity d now).0 else d) now).0

abbrev pub has_session : Option ℕ → Bool
has_session none = false
has_session (some s) = true

abbrev pub differs : Bool → Bool → Bool
differs true b = not b
differs false b = b

unfoldable pub transition : Attendance → ℕ → Bool → ℤ → PendingSpanTransition
transition s session should_attend now = record {
  id = suc s.next_span_transition_id;
  session_id = session;
  opens = should_attend;
  millis_ago = if should_attend then pos 0 else idle_for_ms s.idle_detector now;
  decided_at_steady_ms = now;
}

unfoldable pub record_attendance : Attendance → Bool → ℤ → Attendance
record_attendance s should_attend now =
    if differs should_attend s.session_attended
    then elim s.active_session [
      | none ↦ record s { session_attended = should_attend }
      | some session ↦ record s {
        session_attended = should_attend;
        next_span_transition_id = suc s.next_span_transition_id;
        pending_span_transitions =
            s.pending_span_transitions ++ transition s session should_attend now ∷ [];
      }
    ]
    else s

unfoldable pub update_idle : Attendance → ℤ → Bool → Attendance
update_idle s now had_input =
    let d = detect s.idle_detector now had_input in
    record_attendance (record s { idle_detector = d })
      (has_session s.active_session && not (is_idle d.state)) now

-- The pending transitions without the first of an id, and whether there is one.
unfoldable pub erase_id : ℕ → List PendingSpanTransition → List PendingSpanTransition × Bool
erase_id id [] = ([], false)
erase_id id (t ∷ ts) =
    let rest = erase_id id ts in if t.id == id then (ts, true) else (t ∷ rest.0, rest.1)

abbrev pub is_session : Option ℕ → ℕ → Bool
is_session none session = false
is_session (some s) session = s == session

-- One round of the loop over what a transaction has committed.
unfoldable pub acknowledge_one : Attendance → PendingSpanTransition → Attendance
acknowledge_one s t =
    let (rest, found) = erase_id t.id s.pending_span_transitions in
    if not found then s else record s {
      pending_span_transitions = rest;
      committed_session_attended =
          if is_session s.active_session t.session_id
          then t.opens
          else s.committed_session_attended;
    }

unfoldable pub acknowledge_all : Attendance → List PendingSpanTransition → Attendance
acknowledge_all s [] = s
acknowledge_all s (t ∷ ts) = acknowledge_all (acknowledge_one s t) ts

-- The first and the last phase of a tick: the copy of the queue is acknowledged if the transaction between them commits.
unfoldable pub engine_tick : Attendance → ℤ → Bool → Bool → Attendance
engine_tick s now had_input commits =
    let u = update_idle s now had_input in
    if commits then acknowledge_all u u.pending_span_transitions else u

abbrev pub is_kept : Option ℕ → ℕ → Bool
is_kept none session = false
is_kept (some s) session = not (session == s)

unfoldable pub discard_pending_span :
    Option ℕ → List PendingSpanTransition → List PendingSpanTransition
discard_pending_span session [] = []
discard_pending_span session (t ∷ ts) =
    let rest = discard_pending_span session ts in
    if is_kept session t.session_id then t ∷ rest else rest

-- `start_session`, behind the savepoint.
unfoldable pub start_session : Attendance → ℕ → ℤ → Attendance
start_session s created now = record s {
  active_session = some created;
  pending_span_transitions = discard_pending_span none s.pending_span_transitions;
  session_attended = true;
  committed_session_attended = true;
  idle_detector = (on_activity s.idle_detector now).0;
}

-- `stop_session`, behind the savepoint.
unfoldable pub stop_session : Attendance → Attendance
stop_session s = elim s.active_session [
  | none ↦ s
  | some session ↦ record s {
    pending_span_transitions = discard_pending_span (some session) s.pending_span_transitions;
    session_attended = false;
    committed_session_attended = false;
    active_session = none;
  }
]
