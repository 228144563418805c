-- ===== src/Storage/Spans.antt =====
-- src/storage/storage.cpp: the seconds that a session is credited with, from its spans.
use snapback.Prelude.{
  ℕ, suc, ◌+◌, ◌/◌, ◌≡◌, ◌≢◌, refl, List, [], ◌∷◌, ◌++◌, Option, none, some, if◌then◌else◌, ◌==◌,
  arith,
}
use snapback.Prelude.Int.{ℤ, pos, ◌-ℤ◌, max_ℤ, pos_part}
use snapback.Storage.Tables.{SpanRow, Tables, close_rows}
use snapback.Storage.Sound.{open_spans}

-- ROUND(ms / 1000.0) of a duration that is not negative.
unfoldable pub round_secs : ℤ → ℕ
round_secs ms = (pos_part ms + 500) / 1000

-- COALESCE(ended_at, MAX(started_at, now)).
unfoldable pub end_or : Option ℤ → ℤ → ℤ → ℤ
end_or none start now = max_ℤ start now
end_or (some end) start now = end

unfoldable pub span_secs : ℤ → SpanRow → ℕ
span_secs now r = round_secs (max_ℤ (pos 0) (end_or r.ended_at r.started_at now -ℤ r.started_at))

unfoldable pub sum_secs : ℤ → ℕ → List SpanRow → ℕ
sum_secs now id [] = 0
sum_secs now id (r ∷ rs) =
    if r.session_id == id then span_secs now r + sum_secs now id rs else sum_secs now id rs

unfoldable pub count_spans : ℕ → List SpanRow → ℕ
count_spans id [] = 0
count_spans id (r ∷ rs) = if r.session_id == id then suc (count_spans id rs) else count_spans id rs

-- `none` where no span was ever recorded.
unfoldable pub active_secs : Tables → ℕ → ℤ → Option ℕ
active_secs t id now =
    if count_spans id t.session_spans == 0 then none else some (sum_secs now id t.session_spans)

pub sum_secs-append :
    (now : ℤ) (id : ℕ) (rs qs : List SpanRow)
    → sum_secs now id (rs ++ qs) ≡ sum_secs now id rs + sum_secs now id qs
unfolding sum_secs
sum_secs-append now id [] qs = omega arith
sum_secs-append now id (r ∷ rs) qs = ground (arith, sum_secs-append now id rs qs)

pub count_spans-append :
    (id : ℕ) (rs qs : List SpanRow)
    → count_spans id (rs ++ qs) ≡ count_spans id rs + count_spans id qs
unfolding count_spans
count_spans-append id [] qs = omega arith
count_spans-append id (r ∷ rs) qs = ground (arith, count_spans-append id rs qs)

pub count_spans-close_rows :
    (k : ℕ) (end : ℤ) (id : ℕ) (rs : List SpanRow)
    → count_spans k (close_rows end id rs).0 ≡ count_spans k rs
unfolding count_spans close_rows
count_spans-close_rows k end id [] = refl
count_spans-close_rows k end id (r ∷ rs) = ground (arith, count_spans-close_rows k end id rs)

-- With no open span there is nothing to close.
pub sum_secs-close_none :
    (now end : ℤ) (id : ℕ) (rs : List SpanRow)
    → open_spans id rs ≡ 0
    → sum_secs now id (close_rows end id rs).0 ≡ sum_secs now id rs
unfolding sum_secs close_rows open_spans
sum_secs-close_none now end id [] h = refl
sum_secs-close_none now end id (r ∷ rs) h = ground (arith, sum_secs-close_none now end id rs)

-- Closing one session's spans changes no other's.
pub sum_secs-close_other :
    (now end : ℤ) (k id : ℕ) (rs : List SpanRow)
    → k ≢ id
    → sum_secs now k (close_rows end id rs).0 ≡ sum_secs now k rs
unfolding sum_secs close_rows
sum_secs-close_other now end k id [] ne = refl
sum_secs-close_other now end k id (r ∷ rs) ne =
    ground (arith, sum_secs-close_other now end k id rs ne)

pub close_rows-append :
    (end : ℤ) (id : ℕ) (rs qs : List SpanRow)
    → (close_rows end id (rs ++ qs)).0 ≡ (close_rows end id rs).0 ++ (close_rows end id qs).0
unfolding close_rows
close_rows-append end id [] qs = refl
close_rows-append end id (r ∷ rs) qs = ground (arith, close_rows-append end id rs qs)
