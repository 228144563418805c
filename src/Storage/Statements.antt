-- ===== src/Storage/Statements.antt =====
-- src/storage/storage.cpp: whatever statements run, the tables stay sound.
use snapback.Prelude.{ℕ, Bool, true, false, List, [], ◌∷◌, Option, none, some, if◌then◌else◌, arith}
use snapback.Prelude.Int.{ℤ}
use snapback.Storage.Tables.{
  Evidence, last_seen, last_open, is_found, get_session, is_completed_row, Tables, complete_one,
  create_session, stop_session, end_session, close_session_span, begin_session_span,
  close_dangling_session_span, without_session, without_spans, delete_session,
}
use snapback.Storage.Sound.{
  begin_if, settle-IsSound, without_spans-IsForward, close_session_span-IsSound,
  begin_session_span-IsSound, open_spans-without_spans, count_active-complete_one,
  create_session-IsSound, sessions-IsSound, count_active-without_session, IsSound,
}

-- The statements that the application runs.
pub data Statement : Type 0 where
  creates : ℕ → ℤ → ℤ → Statement
  stops : ℕ → ℤ → Statement
  ends : ℕ → ℤ → Statement
  begins : ℕ → ℤ → Statement
  closes : ℕ → ℤ → Statement
  settles : ℕ → Evidence → Statement
  deletes : ℕ → Statement

-- A statement that throws leaves the tables as they are.
abbrev pub or_unchanged : Option Tables → Tables → Tables
or_unchanged none t = t
or_unchanged (some t') t = t'

unfoldable pub apply : Tables → Statement → Tables
apply t (creates id ended now) = create_session t id ended now
apply t (stops id now) = or_unchanged (stop_session t id now) t
apply t (ends id now) = or_unchanged (end_session t id now) t
apply t (begins id start) = (begin_session_span t id start).0
apply t (closes id end) = (close_session_span t id end).0
apply t (settles id e) = (close_dangling_session_span t id e).0
apply t (deletes id) = (delete_session t id).0

unfoldable pub apply_all : Tables → List Statement → Tables
apply_all t [] = t
apply_all t (s ∷ ss) = apply_all (apply t s) ss

completed_IsSound :
    (t : Tables) (id : ℕ) (now : ℤ)
    → IsSound t
    → IsSound (record t { sessions = (complete_one now id t.sessions).0 })
completed_IsSound t id now h = sessions-IsSound t _ (count_active-complete_one now id t.sessions) h

stop_if :
    (b c : Bool) (t u : Tables)
    → IsSound t
    → IsSound u
    → IsSound (or_unchanged (if b then some t else if c then some u else none) t)
stop_if true c t u h k = h
stop_if false true t u h k = k
stop_if false false t u h k = h

end_if :
    (c b : Bool) (t u : Tables)
    → IsSound t
    → IsSound u
    → IsSound (or_unchanged (if c then some u else if b then some t else none) t)
end_if true b t u h k = k
end_if false true t u h k = h
end_if false false t u h k = h

deleted_IsSound :
    (t : Tables) (id : ℕ)
    → IsSound t
    → IsSound (record {
      sessions = without_session id t.sessions;
      session_spans = without_spans id t.session_spans;
    })
deleted_IsSound t id h = record {
  one_active = omega (arith, count_active-without_session id t.sessions, h.one_active);
  one_open = λ k. omega (arith, open_spans-without_spans k id t.session_spans, h.one_open k);
  forward = without_spans-IsForward id t.session_spans h.forward;
}

apply-IsSound : (t : Tables) (s : Statement) → IsSound t → IsSound (apply t s)
unfolding apply stop_session end_session delete_session close_dangling_session_span
apply-IsSound t (creates id ended now) h = create_session-IsSound t id ended now h
apply-IsSound t (stops id now) h =
    stop_if (is_completed_row (get_session t.sessions id)) _ t _ h (completed_IsSound t id now h)
apply-IsSound t (ends id now) h =
    end_if _ (is_found (get_session t.sessions id)) t _ h (completed_IsSound t id now h)
apply-IsSound t (begins id start) h = begin_session_span-IsSound t id start h
apply-IsSound t (closes id end) h = close_session_span-IsSound t id end h
apply-IsSound t (settles id e) h =
    settle-IsSound t id (last_seen id e) (last_open id t.session_spans) h
apply-IsSound t (deletes id) h =
    begin_if (is_found (get_session t.sessions id)) t _ h (deleted_IsSound t id h)

-- Whatever statements run on sound tables, at most one session is active, each session has at most one open span, and no span
-- ends before it starts.
pub apply_all-IsSound : (t : Tables) (ss : List Statement) → IsSound t → IsSound (apply_all t ss)
unfolding apply_all
apply_all-IsSound t [] h = h
apply_all-IsSound t (s ∷ ss) h = apply_all-IsSound (apply t s) ss (apply-IsSound t s h)
