-- ===== src/Storage/Sound.antt =====
-- src/storage/storage.cpp: what every use of the store keeps of its tables.
use snapback.Prelude.{
  ℕ, suc, ◌+◌, ◌≤◌, ◌≡◌, refl, Bool, true, false, List, [], ◌∷◌, ◌++◌, Option, none, some,
  if◌then◌else◌, ◌==◌, arith, ◌&&◌,
}
use snapback.Prelude.Int.{max_ℤ, ℤ, ◌≤ℤ◌}
use snapback.Storage.Tables.{
  settle, SessionRow, SpanRow, Tables, active, is_active, is_null, complete_all, complete_one,
  create_session, close_rows, close_session_span, begin_session_span, settled_end, without_session,
  without_spans, session_is_active,
}

unfoldable pub count_active : List SessionRow → ℕ
count_active [] = 0
count_active (r ∷ rs) = if is_active r.status then suc (count_active rs) else count_active rs

unfoldable pub open_spans : ℕ → List SpanRow → ℕ
open_spans id [] = 0
open_spans id (r ∷ rs) =
    if r.session_id == id && is_null r.ended_at then suc (open_spans id rs) else open_spans id rs

-- A span that has ended ended no earlier than it started.
unfoldable pub EndsAfter : ℤ → Option ℤ → Type 0
EndsAfter start none = Unit
EndsAfter start (some end) = start ≤ℤ end

unfoldable pub IsForward : List SpanRow → Type 0
IsForward [] = Unit
IsForward (r ∷ rs) = EndsAfter r.started_at r.ended_at × IsForward rs

pub record IsSound (t : Tables) : Type 0 where
  pub one_active : count_active t.sessions ≤ 1
  pub one_open : (id : ℕ) → open_spans id t.session_spans ≤ 1
  pub forward : IsForward t.session_spans

count_active-append :
    (rs qs : List SessionRow) → count_active (rs ++ qs) ≡ count_active rs + count_active qs
unfolding count_active
count_active-append [] qs = omega arith
count_active-append (r ∷ rs) qs = ground (arith, count_active-append rs qs)

count_active-complete_all :
    (now : ℤ) (rs : List SessionRow) → count_active (complete_all now rs) ≡ 0
unfolding count_active complete_all
count_active-complete_all now [] = refl
count_active-complete_all now (r ∷ rs) = ground (arith, count_active-complete_all now rs)

pub count_active-complete_one :
    (now : ℤ) (id : ℕ) (rs : List SessionRow)
    → count_active (complete_one now id rs).0 ≤ count_active rs
unfolding count_active complete_one
count_active-complete_one now id [] = omega arith
count_active-complete_one now id (r ∷ rs) = ground (arith, count_active-complete_one now id rs)

pub count_active-without_session :
    (id : ℕ) (rs : List SessionRow) → count_active (without_session id rs) ≤ count_active rs
unfolding count_active without_session
count_active-without_session id [] = omega arith
count_active-without_session id (r ∷ rs) = ground (arith, count_active-without_session id rs)

pub open_spans-append :
    (id : ℕ) (rs qs : List SpanRow) → open_spans id (rs ++ qs) ≡ open_spans id rs + open_spans id qs
unfolding open_spans
open_spans-append id [] qs = omega arith
open_spans-append id (r ∷ rs) qs = ground (arith, open_spans-append id rs qs)

-- Closing takes the open spans of one session, and of no other.
pub open_spans-close_rows :
    (k : ℕ) (end : ℤ) (id : ℕ) (rs : List SpanRow)
    → open_spans k (close_rows end id rs).0 ≡ (if k == id then 0 else open_spans k rs)
unfolding open_spans close_rows
open_spans-close_rows k end id [] = ground arith
open_spans-close_rows k end id (r ∷ rs) = ground (arith, open_spans-close_rows k end id rs)

pub open_spans-without_spans :
    (k id : ℕ) (rs : List SpanRow) → open_spans k (without_spans id rs) ≤ open_spans k rs
unfolding open_spans without_spans
open_spans-without_spans k id [] = omega arith
open_spans-without_spans k id (r ∷ rs) = ground (arith, open_spans-without_spans k id rs)

IsForward-append : (rs qs : List SpanRow) → IsForward rs → IsForward qs → IsForward (rs ++ qs)
unfolding IsForward
IsForward-append [] qs h k = k
IsForward-append (r ∷ rs) qs h k = (h.0, IsForward-append rs qs h.1 k)

close_head-IsForward :
    (b : Bool) (end : ℤ) (r : SpanRow) (rest : List SpanRow × Bool)
    → EndsAfter r.started_at r.ended_at
    → IsForward rest.0
    → IsForward
        (if◌then◌else◌ {A = List SpanRow × Bool} b
          (record r { ended_at = some (max_ℤ r.started_at end) } ∷ rest.0, true)
          (r ∷ rest.0, rest.1)).0
unfolding IsForward EndsAfter
close_head-IsForward true end r rest h k = (ground arith, k)
close_head-IsForward false end r rest h k = (h, k)

close_rows-IsForward :
    (end : ℤ) (id : ℕ) (rs : List SpanRow) → IsForward rs → IsForward (close_rows end id rs).0
unfolding IsForward close_rows
close_rows-IsForward end id [] h = h
close_rows-IsForward end id (r ∷ rs) h =
    close_head-IsForward (r.session_id == id && is_null r.ended_at) end r (close_rows end id rs) h.0
      (close_rows-IsForward end id rs h.1)

keep-IsForward :
    (b : Bool) (r : SpanRow) (rest : List SpanRow)
    → EndsAfter r.started_at r.ended_at
    → IsForward rest
    → IsForward (if b then rest else r ∷ rest)
unfolding IsForward
keep-IsForward true r rest h k = k
keep-IsForward false r rest h k = (h, k)

pub without_spans-IsForward :
    (id : ℕ) (rs : List SpanRow) → IsForward rs → IsForward (without_spans id rs)
unfolding IsForward without_spans
without_spans-IsForward id [] h = h
without_spans-IsForward id (r ∷ rs) h =
    keep-IsForward (r.session_id == id) r (without_spans id rs) h.0
      (without_spans-IsForward id rs h.1)

pub create_session-IsSound :
    (t : Tables) (created : ℕ) (ended now : ℤ)
    → IsSound t
    → IsSound (create_session t created ended now)
unfolding create_session count_active
create_session-IsSound t created ended now h = record {
  one_active = omega (
    arith,
    count_active-append (complete_all ended t.sessions)
        (record { session_id = created; status = active; started_at = now; ended_at = none } ∷ []),
    count_active-complete_all ended t.sessions,
  );
  one_open = h.one_open;
  forward = h.forward;
}

-- What a statement on the sessions alone keeps.
pub sessions-IsSound :
    (t : Tables) (rows : List SessionRow)
    → count_active rows ≤ count_active t.sessions
    → IsSound t
    → IsSound (record t { sessions = rows })
sessions-IsSound t rows fewer h = record {
  one_active = omega (arith, fewer, h.one_active);
  one_open = h.one_open;
  forward = h.forward;
}

pub close_session_span-IsSound :
    (t : Tables) (id : ℕ) (end : ℤ) → IsSound t → IsSound (close_session_span t id end).0
unfolding close_session_span
close_session_span-IsSound t id end h = record {
  one_active = h.one_active;
  one_open = λ k. ground (arith, open_spans-close_rows k end id t.session_spans, h.one_open k);
  forward = close_rows-IsForward end id t.session_spans h.forward;
}

opened_IsSound :
    (t : Tables) (id : ℕ) (start : ℤ)
    → IsSound t
    → IsSound (record t {
      session_spans =
          (close_rows start id t.session_spans).0
          ++ record { session_id = id; started_at = start; ended_at = none } ∷ [];
    })
unfolding open_spans IsForward EndsAfter
opened_IsSound t id start h = record {
  one_active = h.one_active;
  one_open = λ k. ground (
    arith,
    open_spans-append k (close_rows start id t.session_spans).0
        (record { session_id = id; started_at = start; ended_at = none } ∷ []),
    open_spans-close_rows k start id t.session_spans,
    h.one_open k,
  );
  forward =
      IsForward-append (close_rows start id t.session_spans).0 _
        (close_rows-IsForward start id t.session_spans h.forward) (tt, tt);
}

pub begin_if :
    (b : Bool) (t closed : Tables)
    → IsSound t
    → IsSound closed
    → IsSound (if◌then◌else◌ {A = Tables × Bool} b (closed, true) (t, false)).0
begin_if true t closed h k = k
begin_if false t closed h k = h

pub begin_session_span-IsSound :
    (t : Tables) (id : ℕ) (start : ℤ) → IsSound t → IsSound (begin_session_span t id start).0
unfolding begin_session_span close_session_span
begin_session_span-IsSound t id start h =
    begin_if (session_is_active t id) t _ h (opened_IsSound t id start h)

pub settle-IsSound :
    (t : Tables) (id : ℕ) (seen o : Option ℤ) → IsSound t → IsSound (settle t id seen o).0
unfolding settle
settle-IsSound t id seen none h = h
settle-IsSound t id seen (some start) h = close_session_span-IsSound t id (settled_end seen start) h
