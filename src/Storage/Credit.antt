-- ===== src/Storage/Credit.antt =====
-- src/storage/storage.cpp: what a span adds to the seconds of its session.
use snapback.Prelude.{List, ℕ, ◌+◌, ◌≡◌, ◌≢◌, ap, ◌∙◌, true, [], ◌∷◌, ◌++◌, none, some, arith}
use snapback.Prelude.Int.{ℤ, pos, ◌-ℤ◌, max_ℤ, leb_ℤ, int_laws}
use snapback.Storage.Signs.{IsLastSign, settled_end-IsLastSign}
use snapback.Storage.Tables.{
  Evidence, last_seen, settled_end, settle, last_open, close_dangling_session_span, SpanRow, Tables,
  close_rows, close_session_span, begin_session_span, session_is_active,
}
use snapback.Storage.Sound.{open_spans, open_spans-close_rows}
use snapback.Storage.Spans.{
  count_spans-close_rows, sum_secs-close_other, round_secs, end_or, span_secs, sum_secs,
  count_spans, active_secs, sum_secs-append, count_spans-append, sum_secs-close_none,
  close_rows-append,
}

abbrev opened : ℕ → ℤ → SpanRow
opened id start = record { session_id = id; started_at = start; ended_at = none }

abbrev ended : ℕ → ℤ → ℤ → SpanRow
ended id start end = record {
  session_id = id;
  started_at = start;
  ended_at = some (max_ℤ start end);
}

close_rows-opened :
    (end : ℤ) (id : ℕ) (start : ℤ)
    → (close_rows end id (opened id start ∷ [])).0 ≡ ended id start end ∷ []
unfolding close_rows
close_rows-opened end id start = ground arith

max_shift :
    (start end : ℤ) → max_ℤ (pos 0) (max_ℤ start end -ℤ start) ≡ max_ℤ (pos 0) (end -ℤ start)
max_shift start end = grind int_laws

-- What is counted of the span once it has ended, at any time.
span_secs-ended :
    (now end : ℤ) (id : ℕ) (start : ℤ)
    → span_secs now (ended id start end) ≡ round_secs (max_ℤ (pos 0) (end -ℤ start))
unfolding span_secs end_or
span_secs-ended now end id start = ap round_secs (max_shift start end)

begun :
    (t : Tables) (id : ℕ) (start : ℤ)
    → session_is_active t id ≡ true
    → (begin_session_span t id start).0.session_spans
      ≡ (close_rows start id t.session_spans).0 ++ opened id start ∷ []
unfolding begin_session_span close_session_span
begun t id start h = ground (arith, h)

module _ (t : Tables) (id : ℕ) (start end now : ℤ) (active : session_is_active t id ≡ true)
    (none_open : open_spans id t.session_spans ≡ 0) where
  closed_rows :
      (close_rows end id (begin_session_span t id start).0.session_spans).0
      ≡ (close_rows end id (close_rows start id t.session_spans).0).0 ++ ended id start end ∷ []
  closed_rows =
      ap (λ rs. (close_rows end id rs).0) (begun t id start active)
      ∙ close_rows-append end id (close_rows start id t.session_spans).0 (opened id start ∷ [])
      ∙ ap (λ rs. (close_rows end id (close_rows start id t.session_spans).0).0 ++ rs)
          (close_rows-opened end id start)

  total :
      sum_secs now id (close_rows end id (begin_session_span t id start).0.session_spans).0
      ≡ sum_secs now id t.session_spans + round_secs (max_ℤ (pos 0) (end -ℤ start))
  unfolding sum_secs
  total =
      ap (λ rs. sum_secs now id rs) closed_rows
      ∙ sum_secs-append now id (close_rows end id (close_rows start id t.session_spans).0).0
          (ended id start end ∷ [])
      ∙ ground (
        arith,
        sum_secs-close_none now end id (close_rows start id t.session_spans).0,
        open_spans-close_rows id start id t.session_spans,
        sum_secs-close_none now start id t.session_spans none_open,
        span_secs-ended now end id start,
      )

  counted : count_spans id (close_rows end id (begin_session_span t id start).0.session_spans).0 ≢ 0
  unfolding count_spans
  counted e = ground (
    arith,
    e,
    ap (λ rs. count_spans id rs) closed_rows,
    count_spans-append id (close_rows end id (close_rows start id t.session_spans).0).0
        (ended id start end ∷ []),
  )

  -- A span that is begun in an active session with none open, and then closed, adds its length to the seconds of the session, at
  -- whatever time they are asked for; nothing if the clock has jumped back.
  pub active_secs-close-begin :
      active_secs (close_session_span (begin_session_span t id start).0 id end).0 id now
      ≡ some (sum_secs now id t.session_spans + round_secs (max_ℤ (pos 0) (end -ℤ start)))
  unfolding active_secs close_session_span
  active_secs-close-begin = ground (arith, total, counted)

last_open-append :
    (id : ℕ) (start : ℤ) (rs : List SpanRow)
    → last_open id (rs ++ opened id start ∷ []) ≡ some start
unfolding last_open
last_open-append id start [] = ground arith
last_open-append id start (r ∷ rs) = ground (arith, last_open-append id start rs)

-- What is begun and closed in one session counts in no other.
active_secs-other :
    (t : Tables) (id k : ℕ) (start end now : ℤ)
    → session_is_active t id ≡ true
    → open_spans id t.session_spans ≡ 0
    → k ≢ id
    → active_secs (close_session_span (begin_session_span t id start).0 id end).0 k now
      ≡ active_secs t k now
unfolding active_secs close_session_span sum_secs count_spans
active_secs-other t id k start end now active none_open ne =
    let rows = closed_rows t id start end now active none_open in
    let once = (close_rows start id t.session_spans).0 in
    let twice = (close_rows end id once).0 in
    ground (
      arith,
      ap (λ rs. sum_secs now k rs) rows,
      ap (λ rs. count_spans k rs) rows,
      sum_secs-append now k twice (ended id start end ∷ []),
      count_spans-append k twice (ended id start end ∷ []),
      sum_secs-close_other now end k id once ne,
      sum_secs-close_other now start k id t.session_spans ne,
      count_spans-close_rows k end id once,
      count_spans-close_rows k start id t.session_spans,
    )

not_negative :
    (start end : ℤ) → leb_ℤ start end ≡ true → max_ℤ (pos 0) (end -ℤ start) ≡ end -ℤ start
not_negative start end h = grind (int_laws, h)

settled :
    (t : Tables) (id : ℕ) (start : ℤ) (e : Evidence)
    → session_is_active t id ≡ true
    → close_dangling_session_span (begin_session_span t id start).0 id e ≡ (
      (close_session_span
          (begin_session_span t id start).0
          id
          (settled_end (last_seen id e) start)).0,
      some (settled_end (last_seen id e) start),
    )
unfolding close_dangling_session_span settle
settled t id start e active = ap (settle (begin_session_span t id start).0 id (last_seen id e)) (
    ap (last_open id) (begun t id start active)
    ∙ last_open-append id start (close_rows start id t.session_spans).0)

-- A span begun in an active session with none open, and left open by a crash, ends at the next launch at the last sign of its session
-- that is not before its start, or at its start: the call reports that end, the session is credited with the time up to it, however
-- late it is asked for, and the seconds of every other session stay as they were.
pub crash_credits_evidence :
    (t : Tables) (id k : ℕ) (start now : ℤ) (e : Evidence)
    → session_is_active t id ≡ true
    → open_spans id t.session_spans ≡ 0
    → k ≢ id
    → let (u, told) = close_dangling_session_span (begin_session_span t id start).0 id e in
      (end : ℤ) × IsLastSign id start e end
      × (told ≡ some end)
      × (active_secs u id now ≡ some (sum_secs now id t.session_spans + round_secs (end -ℤ start)))
      × (active_secs u k now ≡ active_secs t k now)
crash_credits_evidence t id k start now e active none_open ne =
    let end = settled_end (last_seen id e) start in
    let is_last = settled_end-IsLastSign id start e in
    let eq = settled t id start e active in
    (
      end,
      is_last,
      ap (λ r. r.1) eq,
      ap (λ r. active_secs r.0 id now) eq
          ∙ active_secs-close-begin t id start end now active none_open
          ∙ ap (λ d. some (sum_secs now id t.session_spans + round_secs d))
              (not_negative start end is_last.behind),
      ap (λ r. active_secs r.0 k now) eq
          ∙ active_secs-other t id k start end now active none_open ne,
    )
