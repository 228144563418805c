-- ===== src/Storage/Tables.antt =====
-- src/storage/storage.cpp: the tables `sessions` and `session_spans`, and the statements that write them. A session id is a
-- number; a table is the list of its rows in the order of insertion; the clock and new ids are arguments.
use snapback.Prelude.{
  ltb, ℕ, suc, Bool, true, false, ◌&&◌, ◌==◌, List, [], ◌∷◌, ◌++◌, Option, none, some,
  if◌then◌else◌,
}
use snapback.Prelude.Int.{ℤ, max_ℤ, ltb_ℤ}

pub data SessionStatus : Type 0 where
  active completed : SessionStatus

pub record SessionRow : Type 0 where
  pub session_id : ℕ
  pub status : SessionStatus
  pub started_at : ℤ
  pub ended_at : Option ℤ

pub record SpanRow : Type 0 where
  pub session_id : ℕ
  pub started_at : ℤ
  pub ended_at : Option ℤ

pub record Tables : Type 0 where
  pub sessions : List SessionRow
  pub session_spans : List SpanRow

abbrev pub is_active : SessionStatus → Bool
is_active active = true
is_active completed = false

abbrev pub is_null : Option ℤ → Bool
is_null none = true
is_null (some t) = false

-- COUNT(*) of the rows with this id that are 'ACTIVE'.
unfoldable pub count_active_id : ℕ → List SessionRow → ℕ
count_active_id id [] = 0
count_active_id id (r ∷ rs) =
    let rest = count_active_id id rs in
    if r.session_id == id && is_active r.status then suc rest else rest

unfoldable pub session_is_active : Tables → ℕ → Bool
session_is_active t id = ltb 0 (count_active_id id t.sessions)

-- UPDATE sessions SET status = 'COMPLETED', ended_at WHERE status = 'ACTIVE'.
unfoldable pub complete_all : ℤ → List SessionRow → List SessionRow
complete_all now [] = []
complete_all now (r ∷ rs) =
    (if is_active r.status then record r { status = completed; ended_at = some now } else r)
    ∷ complete_all now rs

-- The same with AND session_id, and whether a row changed.
unfoldable pub complete_one : ℤ → ℕ → List SessionRow → List SessionRow × Bool
complete_one now id [] = ([], false)
complete_one now id (r ∷ rs) =
    let rest = complete_one now id rs in
    if r.session_id == id && is_active r.status
    then (record r { status = completed; ended_at = some now } ∷ rest.0, true)
    else (r ∷ rest.0, rest.1)

unfoldable pub get_session : List SessionRow → ℕ → Option SessionRow
get_session [] id = none
get_session (r ∷ rs) id =
    let rest = get_session rs id in if r.session_id == id then some r else rest

-- `created` is the new id; the clock is read before the update, and again before the insert.
unfoldable pub create_session : Tables → ℕ → ℤ → ℤ → Tables
create_session t created ended now = record t {
  sessions =
      complete_all ended t.sessions
      ++ record { session_id = created; status = active; started_at = now; ended_at = none } ∷ [];
}

abbrev pub is_completed_row : Option SessionRow → Bool
is_completed_row none = false
is_completed_row (some r) = if is_active r.status then false else true

-- `none` is the exception "session not found".
unfoldable pub stop_session : Tables → ℕ → ℤ → Option Tables
stop_session t id now =
    let (rows, changed) = complete_one now id t.sessions in
    if is_completed_row (get_session t.sessions id)
    then some t
    else if changed
    then some (record t { sessions = rows })
    else none

abbrev pub is_found : Option SessionRow → Bool
is_found none = false
is_found (some r) = true

unfoldable pub end_session : Tables → ℕ → ℤ → Option Tables
end_session t id now =
    let (rows, changed) = complete_one now id t.sessions in
    if changed
    then some (record t { sessions = rows })
    else if is_found (get_session t.sessions id)
    then some t
    else none

-- UPDATE session_spans SET ended_at = MAX(started_at, ?1) WHERE session_id = ?2 AND ended_at IS NULL.
unfoldable pub close_rows : ℤ → ℕ → List SpanRow → List SpanRow × Bool
close_rows end id [] = ([], false)
close_rows end id (r ∷ rs) =
    let rest = close_rows end id rs in
    if r.session_id == id && is_null r.ended_at
    then (record r { ended_at = some (max_ℤ r.started_at end) } ∷ rest.0, true)
    else (r ∷ rest.0, rest.1)

unfoldable pub close_session_span : Tables → ℕ → ℤ → Tables × Bool
close_session_span t id end =
    let (rows, changed) = close_rows end id t.session_spans in
    (record t { session_spans = rows }, changed)

unfoldable pub begin_session_span : Tables → ℕ → ℤ → Tables × Bool
begin_session_span t id start =
    let (closed, changed) = close_session_span t id start in
    if session_is_active t id
    then (
      record closed {
        session_spans =
            closed.session_spans
            ++ record { session_id = id; started_at = start; ended_at = none } ∷ [];
      },
      true,
    )
    else (t, false)

-- SELECT started_at ... AND ended_at IS NULL ORDER BY id DESC LIMIT 1.
unfoldable pub last_open : ℕ → List SpanRow → Option ℤ
last_open id [] = none
last_open id (r ∷ rs) =
    let rest = last_open id rs in
    let here = if r.session_id == id && is_null r.ended_at then some r.started_at else none in
    elim rest [ none ↦ here | some t ↦ some t ]

unfoldable pub settled_end : Option ℤ → ℤ → ℤ
settled_end none start = start
settled_end (some seen) start = if ltb_ℤ start seen then seen else start

unfoldable pub settle : Tables → ℕ → Option ℤ → Option ℤ → Tables × Option ℤ
settle t id seen none = (t, none)
settle t id seen (some start) =
    let end = settled_end seen start in ((close_session_span t id end).0, some end)

-- The sessions and timestamps in the tables `predictions`, `context_snapshots` and `snapback_events`.
pub record Evidence : Type 0 where
  pub predictions : List (ℕ × ℤ)
  pub context_snapshots : List (ℕ × ℤ)
  pub snapback_events : List (ℕ × ℤ)

-- MAX, which passes over NULL.
unfoldable pub max_null : Option ℤ → Option ℤ → Option ℤ
max_null none t = t
max_null (some s) none = some s
max_null (some s) (some t) = some (max_ℤ s t)

-- SELECT MAX(timestamp) ... WHERE session_id = ?1.
unfoldable pub max_timestamp : ℕ → List (ℕ × ℤ) → Option ℤ
max_timestamp id [] = none
max_timestamp id ((session, t) ∷ rows) =
    let rest = max_timestamp id rows in if session == id then max_null (some t) rest else rest

unfoldable pub last_seen : ℕ → Evidence → Option ℤ
last_seen id e =
    max_null (max_timestamp id e.predictions)
      (max_null (max_timestamp id e.context_snapshots) (max_timestamp id e.snapback_events))

unfoldable pub close_dangling_session_span : Tables → ℕ → Evidence → Tables × Option ℤ
close_dangling_session_span t id e = settle t id (last_seen id e) (last_open id t.session_spans)

unfoldable pub has_open_span : Tables → ℕ → Bool
has_open_span t id = elim (last_open id t.session_spans) [ none ↦ false | some start ↦ true ]

-- DELETE FROM sessions WHERE session_id = ?1, and likewise of the spans.
unfoldable pub without_session : ℕ → List SessionRow → List SessionRow
without_session id [] = []
without_session id (r ∷ rs) =
    let rest = without_session id rs in if r.session_id == id then rest else r ∷ rest

unfoldable pub without_spans : ℕ → List SpanRow → List SpanRow
without_spans id [] = []
without_spans id (r ∷ rs) =
    let rest = without_spans id rs in if r.session_id == id then rest else r ∷ rest

-- The rows of the session in the other tables, which go too, are left out.
unfoldable pub delete_session : Tables → ℕ → Tables × Bool
delete_session t id =
    if is_found (get_session t.sessions id)
    then (
      record {
        sessions = without_session id t.sessions;
        session_spans = without_spans id t.session_spans;
      },
      true,
    )
    else (t, false)
