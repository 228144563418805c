-- ===== src/Engine/Spans.antt =====
-- src/app/state.cpp: what ticks, and the start and stop of a session, write to the tables of src/storage/storage.cpp on sessions and their
-- spans, with the record in memory.
use snapback.Prelude.{ℕ, Bool, List, [], ◌∷◌, Option, none, some, if◌then◌else◌}
use snapback.Prelude.Int.{ℤ}
use snapback.Storage.Tables.{
  Tables, create_session, end_session, begin_session_span, close_session_span,
}
use snapback.Engine.Attendance.{
  PendingSpanTransition, Attendance, update_idle, acknowledge_all, start_session, stop_session,
}

pub record Application : Type 0 where
  pub memory : Attendance
  pub storage : Tables

-- The last loop of the transaction, with the time that each transition has in storage.
unfoldable pub write_spans :
    Tables → (PendingSpanTransition → ℤ) → List PendingSpanTransition → Tables
write_spans t timestamp [] = t
write_spans t timestamp (u ∷ us) =
    let written =
      if u.opens
      then (begin_session_span t u.session_id (timestamp u)).0
      else (close_session_span t u.session_id (timestamp u)).0 in
    write_spans written timestamp us

-- A tick whose transaction commits or not.
unfoldable pub tick_application :
    Application → ℤ → Bool → (PendingSpanTransition → ℤ) → Bool → Application
tick_application s now had_input timestamp commits =
    let u = update_idle s.memory now had_input in
    if commits
    then record {
      memory = acknowledge_all u u.pending_span_transitions;
      storage = write_spans s.storage timestamp u.pending_span_transitions;
    }
    else record s { memory = u }

unfoldable pub close_replaced : Tables → Option ℕ → ℤ → Tables
close_replaced t none wall = t
close_replaced t (some replaced) wall = (close_session_span t replaced wall).0

-- With the id of the new session and the clock of storage; without `saves` the savepoint is rolled back.
unfoldable pub start_application : Application → ℕ → ℤ → ℤ → Bool → Application
start_application s created now wall saves =
    let t =
      create_session (close_replaced s.storage s.memory.active_session wall) created wall wall in
    if saves
    then record {
      memory = start_session s.memory created now;
      storage = (begin_session_span t created wall).0;
    }
    else s

-- `none` is an exception of the savepoint's statements.
unfoldable pub end_active : Application → Option Tables → Bool → Application
end_active s none saves = s
end_active s (some t) saves =
    if saves then record { memory = stop_session s.memory; storage = t } else s

unfoldable pub stop_application : Application → ℤ → Bool → Application
stop_application s wall saves = elim s.memory.active_session [
  | none ↦ s
  | some session ↦
      end_active s (end_session (close_session_span s.storage session wall).0 session wall) saves
]
