-- ===== src/Engine/Settled.antt =====
-- src/app/state.cpp: what is recorded of the attendance settles in memory and in storage.
use snapback.Prelude.{
  ℕ, ◌≡◌, refl, ap, ◌∙◌, subst, Bool, true, not, ◌&&◌, List, [], ◌∷◌, Option, none, some,
}
use snapback.Prelude.Int.{ℤ}
use snapback.Idle.Detector.{is_idle}
use snapback.Storage.Tables.{Tables}
use snapback.Storage.Sound.{open_spans}
use snapback.Engine.Attendance.{PendingSpanTransition, detect, has_session, update_idle}
use snapback.Engine.InStep.{update_idle-IsInStep}
use snapback.Engine.Spans.{Application, tick_application, start_application, stop_application}
use snapback.Engine.Stored.{
  one_if, Spanned, IsStored, update_idle_keeps, update_idle-Spanned, committed_lem,
  tick_application-IsStored, start_application-IsStored, stop_application-IsStored,
}

-- What happens: ticks, whose transaction commits or not and between whose phases nothing else happens; the input that wakes the detector
-- within a tick, before its last call of `update_idle`; and the start and stop of sessions, whose savepoint is released or rolled back.
pub data Event : Type 0 where
  ticks : ℤ → Bool → (PendingSpanTransition → ℤ) → Bool → Event
  wakes : ℤ → Event
  starts : ℕ → ℤ → ℤ → Bool → Event
  stops : ℤ → Bool → Event

unfoldable pub handle : Application → Event → Application
handle s (ticks now had_input timestamp commits) =
    tick_application s now had_input timestamp commits
handle s (wakes now) = record s { memory = update_idle s.memory now true }
handle s (starts created now wall saves) = start_application s created now wall saves
handle s (stops wall saves) = stop_application s wall saves

unfoldable pub handle_all : Application → List Event → Application
handle_all s [] = s
handle_all s (e ∷ es) = handle_all (handle s e) es

handle-IsStored : (s : Application) (e : Event) → IsStored s → IsStored (handle s e)
unfolding handle
handle-IsStored s (ticks now had_input timestamp commits) h =
    tick_application-IsStored s now had_input timestamp commits h
handle-IsStored s (wakes now) h = record {
  in_step = (update_idle-IsInStep s.memory now true h.in_step).0;
  spanned = update_idle-Spanned s.memory now true s.storage h.spanned;
}
handle-IsStored s (starts created now wall saves) h =
    start_application-IsStored s created now wall saves h
handle-IsStored s (stops wall saves) h = stop_application-IsStored s wall saves h

handle_all-IsStored : (s : Application) (es : List Event) → IsStored s → IsStored (handle_all s es)
unfolding handle_all
handle_all-IsStored s [] h = h
handle_all-IsStored s (e ∷ es) h = handle_all-IsStored (handle s e) es (handle-IsStored s e h)

-- How many open spans the active session has in storage.
unfoldable pub open_of : Option ℕ → Tables → ℕ
open_of none t = 0
open_of (some id) t = open_spans id t.session_spans

open_of-Spanned :
    (a : Option ℕ) (b awake : Bool) (t : Tables)
    → b ≡ (has_session a && awake)
    → Spanned a b t
    → open_of a t ≡ one_if (has_session a && awake)
unfolding open_of Spanned
open_of-Spanned none b awake t e h = refl
open_of-Spanned (some id) b awake t e h = h.1 ∙ ap one_if e

-- From a state in step, after any sessions started and stopped and any ticks, with transactions and savepoints that go through or not, the
-- next tick whose transaction commits leaves nothing in the queue; the active session, if there is one and the user is not idle, is
-- attended in memory and has one open span in storage, and otherwise none is attended and the active one has no open span.
pub attendance_settles :
    (s : Application) (es : List Event) (now : ℤ) (had_input : Bool)
    (timestamp : PendingSpanTransition → ℤ)
    → IsStored s
    → let u = handle_all s es in
      let v = tick_application u now had_input timestamp true in
      let attends =
        has_session u.memory.active_session
        && not (is_idle (detect u.memory.idle_detector now had_input).state) in
      (v.memory.pending_span_transitions ≡ [])
      × (v.memory.session_attended ≡ attends)
      × (v.memory.active_session ≡ u.memory.active_session)
      × (open_of u.memory.active_session v.storage ≡ one_if attends)
attendance_settles s es now had_input timestamp h =
    let u = handle_all s es in
    let k = handle_all-IsStored s es h in
    let (e, spanned) = committed_lem u now had_input timestamp k in
    let (same, kept) = update_idle_keeps u.memory now had_input in
    let attends = (update_idle-IsInStep u.memory now had_input k.in_step).1 in
    let w = update_idle u.memory now had_input in
    (
      ap (λ m. m.pending_span_transitions) e,
      ap (λ m. m.session_attended) e ∙ attends,
      ap (λ m. m.active_session) e ∙ same,
      open_of-Spanned u.memory.active_session w.session_attended
          (not (is_idle (detect u.memory.idle_detector now had_input).state))
          (tick_application u now had_input timestamp true).storage attends
          (subst
            (λ a.
              Spanned a w.session_attended
                (tick_application u now had_input timestamp true).storage)
            same spanned),
    )
