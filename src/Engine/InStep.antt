-- ===== src/Engine/InStep.antt =====
-- src/app/state.cpp: the attendance in memory, what was committed of it and the queue between them stay in step.
use snapback.Prelude.{
  ℕ, ◌≡◌, refl, sym, ap, ◌∙◌, subst, Bool, true, false, not, ◌&&◌, List, [], ◌∷◌, ◌++◌, Option,
  none, some, arith,
}
use snapback.Prelude.Int.{ℤ}
use snapback.Idle.Detector.{IdleDetector, is_idle}
use snapback.Engine.Attendance.{
  PendingSpanTransition, Attendance, detect, has_session, transition, record_attendance,
  update_idle, erase_id, is_session, acknowledge_one, acknowledge_all, engine_tick,
  discard_pending_span, start_session, stop_session,
}

-- The transitions are of the active session, and turn `c` into `b`, each of them a change.
unfoldable pub Flips : Option ℕ → Bool → List PendingSpanTransition → Bool → Type 0
Flips a c [] b = c ≡ b
Flips a c (t ∷ ts) b = (is_session a t.session_id ≡ true) × (t.opens ≡ not c) × Flips a t.opens ts b

pub record IsInStep (s : Attendance) : Type 0 where
  pub flips :
      Flips s.active_session s.committed_session_attended s.pending_span_transitions
        s.session_attended
  pub alone : (not (has_session s.active_session) && s.session_attended) ≡ false

Flips-append :
    (a : Option ℕ) (c b : Bool) (ts : List PendingSpanTransition) (t : PendingSpanTransition)
    → Flips a c ts b
    → is_session a t.session_id ≡ true
    → t.opens ≡ not b
    → Flips a c (ts ++ t ∷ []) t.opens
unfolding Flips
Flips-append a c b [] t h mine turn = (mine, turn ∙ ap not (sym h), refl)
Flips-append a c b (u ∷ us) t h mine turn = (h.0, h.1, Flips-append a u.opens b us t h.2 mine turn)

self : (k : ℕ) → is_session (some k) k ≡ true
self k = ground arith

record_attendance-IsInStep :
    (a : Option ℕ) (b c : Bool) (d : IdleDetector) (ts : List PendingSpanTransition) (n : ℕ)
    (awake : Bool) (now : ℤ)
    → let s : Attendance = record {
      active_session = a;
      session_attended = b;
      committed_session_attended = c;
      idle_detector = d;
      pending_span_transitions = ts;
      next_span_transition_id = n;
    } in
      IsInStep s
      → IsInStep (record_attendance s (has_session a && awake) now)
        × ((record_attendance s (has_session a && awake) now).session_attended
            ≡ (has_session a && awake))
unfolding record_attendance transition
record_attendance-IsInStep none false c d ts n awake now h = (h, refl)
record_attendance-IsInStep none true c d ts n awake now h = absurd (ground (arith, h.alone))
record_attendance-IsInStep (some k) true c d ts n true now h = (h, refl)
record_attendance-IsInStep (some k) false c d ts n true now h = (
  record { flips = Flips-append (some k) c false ts _ h.flips (self k) refl; alone = refl },
  refl,
)
record_attendance-IsInStep (some k) true c d ts n false now h =
    (record { flips = Flips-append (some k) c true ts _ h.flips (self k) refl; alone = refl }, refl)
record_attendance-IsInStep (some k) false c d ts n false now h = (h, refl)

acknowledge_head :
    (a : Option ℕ) (b c : Bool) (d : IdleDetector) (t : PendingSpanTransition)
    (ts : List PendingSpanTransition) (n : ℕ)
    → is_session a t.session_id ≡ true
    → acknowledge_one
        (record {
          active_session = a;
          session_attended = b;
          committed_session_attended = c;
          idle_detector = d;
          pending_span_transitions = t ∷ ts;
          next_span_transition_id = n;
        })
        t
      ≡ record {
        active_session = a;
        session_attended = b;
        committed_session_attended = t.opens;
        idle_detector = d;
        pending_span_transitions = ts;
        next_span_transition_id = n;
      }
unfolding acknowledge_one erase_id
acknowledge_head a b c d t ts n mine = ground (arith, mine)

-- A whole queue that is acknowledged leaves none of it, and what was committed is what is in memory.
acknowledge_all-own :
    (a : Option ℕ) (b c : Bool) (d : IdleDetector) (ts : List PendingSpanTransition) (n : ℕ)
    → Flips a c ts b
    → acknowledge_all
        (record {
          active_session = a;
          session_attended = b;
          committed_session_attended = c;
          idle_detector = d;
          pending_span_transitions = ts;
          next_span_transition_id = n;
        })
        ts
      ≡ record {
        active_session = a;
        session_attended = b;
        committed_session_attended = b;
        idle_detector = d;
        pending_span_transitions = [];
        next_span_transition_id = n;
      }
unfolding acknowledge_all Flips
acknowledge_all-own a b c d [] n h =
    ap
      (λ x. record {
        active_session = a;
        session_attended = b;
        committed_session_attended = x;
        idle_detector = d;
        pending_span_transitions = [];
        next_span_transition_id = n;
      })
      h
acknowledge_all-own a b c d (t ∷ ts) n h =
    ap (λ s. acknowledge_all s ts) (acknowledge_head a b c d t ts n h.0)
    ∙ acknowledge_all-own a b t.opens d ts n h.2

discard_all : (ts : List PendingSpanTransition) → discard_pending_span none ts ≡ []
unfolding discard_pending_span
discard_all [] = refl
discard_all (t ∷ ts) = discard_all ts

discard_own :
    (session : ℕ) (c b : Bool) (ts : List PendingSpanTransition)
    → Flips (some session) c ts b
    → discard_pending_span (some session) ts ≡ []
unfolding discard_pending_span Flips
discard_own session c b [] h = refl
discard_own session c b (t ∷ ts) h = ground (arith, h.0, discard_own session t.opens b ts h.2)

none_left : (a : Option ℕ) (b : Bool) → Flips a b [] b
unfolding Flips
none_left a b = refl

settled_IsInStep :
    (s : Attendance)
    → IsInStep s
    → IsInStep (record s {
      pending_span_transitions = [];
      committed_session_attended = s.session_attended;
    })
settled_IsInStep s h = record {
  flips = none_left s.active_session s.session_attended;
  alone = h.alone;
}

pub start_session-IsInStep :
    (s : Attendance) (created : ℕ) (now : ℤ) → IsInStep (start_session s created now)
unfolding start_session
start_session-IsInStep s created now = record {
  flips =
      subst (λ ts. Flips (some created) true ts true) (sym (discard_all s.pending_span_transitions))
        (none_left (some created) true);
  alone = refl;
}

pub stop_session-IsInStep :
    (a : Option ℕ) (b c : Bool) (d : IdleDetector) (ts : List PendingSpanTransition) (n : ℕ)
    → let s : Attendance = record {
      active_session = a;
      session_attended = b;
      committed_session_attended = c;
      idle_detector = d;
      pending_span_transitions = ts;
      next_span_transition_id = n;
    } in
      IsInStep s → IsInStep (stop_session s)
unfolding stop_session
stop_session-IsInStep none b c d ts n h = h
stop_session-IsInStep (some k) b c d ts n h = record {
  flips =
      subst (λ us. Flips none false us false) (sym (discard_own k c b ts h.flips))
        (none_left none false);
  alone = refl;
}

pub update_idle-IsInStep :
    (s : Attendance) (now : ℤ) (had_input : Bool)
    → IsInStep s
    → IsInStep (update_idle s now had_input)
      × ((update_idle s now had_input).session_attended ≡ (
          has_session s.active_session
          && not (is_idle (detect s.idle_detector now had_input).state)))
unfolding update_idle
update_idle-IsInStep s now had_input h =
    record_attendance-IsInStep s.active_session s.session_attended s.committed_session_attended
      (detect s.idle_detector now had_input) s.pending_span_transitions s.next_span_transition_id
      (not (is_idle (detect s.idle_detector now had_input).state)) now
      (record { flips = h.flips; alone = h.alone })

pub committed :
    (s : Attendance)
    → IsInStep s
    → acknowledge_all s s.pending_span_transitions
      ≡ record s { pending_span_transitions = []; committed_session_attended = s.session_attended }
committed s h =
    acknowledge_all-own s.active_session s.session_attended s.committed_session_attended
      s.idle_detector s.pending_span_transitions s.next_span_transition_id h.flips

pub engine_tick-IsInStep :
    (s : Attendance) (now : ℤ) (had_input commits : Bool)
    → IsInStep s
    → IsInStep (engine_tick s now had_input commits)
unfolding engine_tick
engine_tick-IsInStep s now had_input false h = (update_idle-IsInStep s now had_input h).0
engine_tick-IsInStep s now had_input true h =
    let u = update_idle s now had_input in
    let k = (update_idle-IsInStep s now had_input h).0 in
    subst IsInStep (sym (committed u k)) (settled_IsInStep u k)
