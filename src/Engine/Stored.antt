-- ===== src/Engine/Stored.antt =====
-- src/app/state.cpp: the attendance in memory and the open spans in storage stay in step.
use snapback.Prelude.{
  ℕ, ◌+◌, ◌≡◌, sym, ap, ◌∙◌, subst, Bool, true, false, List, [], ◌∷◌, ◌++◌, Option, none, some,
  arith, if◌then◌else◌,
}
use snapback.Prelude.Int.{ℤ}
use snapback.Idle.Detector.{IdleDetector}
use snapback.Storage.Tables.{
  active, Tables, SessionRow, count_active_id, session_is_active, complete_all, create_session,
  close_rows, begin_session_span, close_session_span,
}
use snapback.Storage.Sound.{open_spans, open_spans-close_rows, open_spans-append}
use snapback.Engine.Attendance.{
  PendingSpanTransition, Attendance, is_session, update_idle, start_session, stop_session,
  engine_tick, record_attendance,
}
use snapback.Engine.InStep.{
  Flips, IsInStep, start_session-IsInStep, stop_session-IsInStep, update_idle-IsInStep, committed,
  engine_tick-IsInStep,
}
use snapback.Engine.Spans.{
  Application, write_spans, tick_application, close_replaced, start_application, end_active,
  stop_application,
}

abbrev pub one_if : Bool → ℕ
one_if true = 1
one_if false = 0

-- The active session is active in storage and has an open span there exactly if what was committed says that it is attended.
unfoldable pub Spanned : Option ℕ → Bool → Tables → Type 0
Spanned none attended t = Unit
Spanned (some id) attended t =
    (session_is_active t id ≡ true) × (open_spans id t.session_spans ≡ one_if attended)

pub record IsStored (s : Application) : Type 0 where
  pub in_step : IsInStep s.memory
  pub spanned : Spanned s.memory.active_session s.memory.committed_session_attended s.storage

begun_open :
    (t : Tables) (id : ℕ) (at : ℤ)
    → session_is_active t id ≡ true
    → (session_is_active (begin_session_span t id at).0 id ≡ true)
      × (open_spans id (begin_session_span t id at).0.session_spans ≡ 1)
unfolding begin_session_span close_session_span session_is_active open_spans
begun_open t id at h = ground (
  arith,
  h,
  open_spans-close_rows id at id t.session_spans,
  open_spans-append id (close_rows at id t.session_spans).0
      (record { session_id = id; started_at = at; ended_at = none } ∷ []),
)

closed_open :
    (t : Tables) (id : ℕ) (at : ℤ)
    → session_is_active t id ≡ true
    → (session_is_active (close_session_span t id at).0 id ≡ true)
      × (open_spans id (close_session_span t id at).0.session_spans ≡ 0)
unfolding close_session_span session_is_active
closed_open t id at h = ground (arith, h, open_spans-close_rows id at id t.session_spans)

is_session-eq : (id k : ℕ) → is_session (some id) k ≡ true → k ≡ id
is_session-eq id k h = ground (arith, h)

write_one :
    (t : Tables) (id k : ℕ) (at : ℤ) (opens : Bool)
    → k ≡ id
    → session_is_active t id ≡ true
    → let u = if opens then (begin_session_span t k at).0 else (close_session_span t k at).0 in
      (session_is_active u id ≡ true) × (open_spans id u.session_spans ≡ one_if opens)
write_one t id k at true e h =
    subst
      (λ j.
        (session_is_active (begin_session_span t j at).0 id ≡ true)
        × (open_spans id (begin_session_span t j at).0.session_spans ≡ 1))
      (sym e) (begun_open t id at h)
write_one t id k at false e h =
    subst
      (λ j.
        (session_is_active (close_session_span t j at).0 id ≡ true)
        × (open_spans id (close_session_span t j at).0.session_spans ≡ 0))
      (sym e) (closed_open t id at h)

write_spans-Spanned :
    (a : Option ℕ) (c b : Bool) (t : Tables) (timestamp : PendingSpanTransition → ℤ)
    (us : List PendingSpanTransition)
    → Flips a c us b
    → Spanned a c t
    → Spanned a b (write_spans t timestamp us)
unfolding Spanned Flips write_spans
write_spans-Spanned none c b t timestamp us f h = tt
write_spans-Spanned (some id) c b t timestamp [] f h = (h.0, h.1 ∙ ap one_if f)
write_spans-Spanned (some id) c b t timestamp (u ∷ us) f h =
    write_spans-Spanned (some id) u.opens b _ timestamp us f.2
      (write_one t id u.session_id (timestamp u) u.opens (is_session-eq id u.session_id f.0) h.0)

pub update_idle_keeps :
    (m : Attendance) (now : ℤ) (had_input : Bool)
    → ((update_idle m now had_input).active_session ≡ m.active_session)
      × ((update_idle m now had_input).committed_session_attended ≡ m.committed_session_attended)
unfolding update_idle record_attendance
update_idle_keeps m now had_input = ground arith

pub update_idle-Spanned :
    (m : Attendance) (now : ℤ) (had_input : Bool) (t : Tables)
    → Spanned m.active_session m.committed_session_attended t
    → Spanned
        (update_idle m now had_input).active_session
        (update_idle m now had_input).committed_session_attended
        t
update_idle-Spanned m now had_input t h =
    let (same, kept) = update_idle_keeps m now had_input in
    subst (λ a. Spanned a (update_idle m now had_input).committed_session_attended t) (sym same)
      (subst (λ c. Spanned m.active_session c t) (sym kept) h)

-- What a tick that commits leaves.
pub committed_lem :
    (s : Application) (now : ℤ) (had_input : Bool) (timestamp : PendingSpanTransition → ℤ)
    → IsStored s
    → let u = update_idle s.memory now had_input in
      let v = tick_application s now had_input timestamp true in
      (v.memory ≡ record u {
        pending_span_transitions = [];
        committed_session_attended = u.session_attended;
      })
      × Spanned u.active_session u.session_attended v.storage
unfolding tick_application
committed_lem s now had_input timestamp h =
    let u = update_idle s.memory now had_input in
    let k = (update_idle-IsInStep s.memory now had_input h.in_step).0 in
    (
      committed u k,
      write_spans-Spanned u.active_session u.committed_session_attended u.session_attended s.storage
          timestamp u.pending_span_transitions k.flips
          (update_idle-Spanned s.memory now had_input s.storage h.spanned),
    )

pub tick_application-IsStored :
    (s : Application) (now : ℤ) (had_input : Bool) (timestamp : PendingSpanTransition → ℤ)
    (commits : Bool)
    → IsStored s
    → IsStored (tick_application s now had_input timestamp commits)
unfolding tick_application engine_tick
tick_application-IsStored s now had_input timestamp false h = record {
  in_step = (update_idle-IsInStep s.memory now had_input h.in_step).0;
  spanned = update_idle-Spanned s.memory now had_input s.storage h.spanned;
}
tick_application-IsStored s now had_input timestamp true h =
    let u = update_idle s.memory now had_input in
    let (e, k) = committed_lem s now had_input timestamp h in
    record {
      in_step = engine_tick-IsInStep s.memory now had_input true h.in_step;
      spanned =
          subst
            (λ m.
              Spanned m.active_session m.committed_session_attended
                (write_spans s.storage timestamp u.pending_span_transitions))
            (sym e) k;
    }

count_active_id-append :
    (id : ℕ) (rs qs : List SessionRow)
    → count_active_id id (rs ++ qs) ≡ count_active_id id rs + count_active_id id qs
unfolding count_active_id
count_active_id-append id [] qs = omega arith
count_active_id-append id (r ∷ rs) qs = ground (arith, count_active_id-append id rs qs)

created_active :
    (t : Tables) (id : ℕ) (ended now : ℤ)
    → session_is_active (create_session t id ended now) id ≡ true
unfolding session_is_active create_session count_active_id
created_active t id ended now = ground (
  arith,
  count_active_id-append id (complete_all ended t.sessions)
      (record { session_id = id; status = active; started_at = now; ended_at = none } ∷ []),
)

pub start_application-IsStored :
    (s : Application) (created : ℕ) (now wall : ℤ) (saves : Bool)
    → IsStored s
    → IsStored (start_application s created now wall saves)
unfolding start_application Spanned start_session
start_application-IsStored s created now wall false h = h
start_application-IsStored s created now wall true h = record {
  in_step = start_session-IsInStep s.memory created now;
  spanned =
      begun_open
        (create_session (close_replaced s.storage s.memory.active_session wall) created wall wall)
        created wall
        (created_active (close_replaced s.storage s.memory.active_session wall) created wall wall);
}

stopped_none :
    (a : Option ℕ) (b c : Bool) (d : IdleDetector) (ts : List PendingSpanTransition) (n : ℕ)
    (t : Tables)
    → let m : Attendance = record {
      active_session = a;
      session_attended = b;
      committed_session_attended = c;
      idle_detector = d;
      pending_span_transitions = ts;
      next_span_transition_id = n;
    } in
      Spanned (stop_session m).active_session (stop_session m).committed_session_attended t
unfolding stop_session Spanned
stopped_none none b c d ts n t = tt
stopped_none (some k) b c d ts n t = tt

stopped-IsStored :
    (m : Attendance) (t : Tables)
    → IsInStep m
    → IsStored (record { memory = stop_session m; storage = t })
stopped-IsStored m t h = record {
  in_step =
      stop_session-IsInStep m.active_session m.session_attended m.committed_session_attended
        m.idle_detector m.pending_span_transitions m.next_span_transition_id h;
  spanned =
      stopped_none m.active_session m.session_attended m.committed_session_attended m.idle_detector
        m.pending_span_transitions m.next_span_transition_id t;
}

end_active-IsStored :
    (s : Application) (o : Option Tables) (saves : Bool)
    → IsStored s
    → IsStored (end_active s o saves)
unfolding end_active
end_active-IsStored s none saves h = h
end_active-IsStored s (some t) false h = h
end_active-IsStored s (some t) true h = stopped-IsStored s.memory t h.in_step

stop_if :
    (a : Option ℕ) (s : Application) (f : ℕ → Application)
    → IsStored s
    → ((k : ℕ) → IsStored (f k))
    → IsStored (elim a as (λ x. Application) [ none ↦ s | some k ↦ f k ])
stop_if none s f h k = h
stop_if (some n) s f h k = k n

pub stop_application-IsStored :
    (s : Application) (wall : ℤ) (saves : Bool)
    → IsStored s
    → IsStored (stop_application s wall saves)
unfolding stop_application
stop_application-IsStored s wall saves h =
    stop_if s.memory.active_session s _ h (λ k. end_active-IsStored s _ saves h)
