-- ===== src/Engine/Written.antt =====
-- src/app/state.cpp: what waits is written by the next commit, and a snapback is shown behind one.
use snapback.Prelude.{
  Option-cases, ℕ, ◌≡◌, refl, ap, sym, ◌∙◌, Bool, false, List, [], ◌∷◌, ◌++◌, Option, none, some,
  arith, append_assoc, append-nil,
}
use snapback.Prelude.Int.{ℤ}
use snapback.Engine.Durable.{ids, ids-append, history, engine_tick-history, erase_all_self}
use snapback.Engine.Flush.{
  SpanTransition, Episode, PersistJob, Persistence, Outcome, commits, recover, committed,
  tick_commits, by_outcome, engine_tick, deliver, is_some, is_cons, backs_off, to_emit,
  latch_snapback, cleared,
}

-- What happens to the engine: a boundary of a span is decided, the user returns from a distraction, or a tick runs.
pub data Event : Type 0 where
  decides : SpanTransition → Event
  comes_back : Episode → ℕ → Bool → Event
  ticks : List PersistJob → Bool → Bool → ℤ → ℤ → Outcome → Event

unfoldable pub handle : Persistence → Event → Persistence
handle s (decides t) = record s { pending_span_transitions = s.pending_span_transitions ++ t ∷ [] }
handle s (comes_back e payload visible) = latch_snapback s e payload visible
handle s (ticks jobs listens deleted wall now o) = (engine_tick s jobs listens deleted wall now o).0

unfoldable pub handle_all : Persistence → List Event → Persistence
handle_all s [] = s
handle_all s (e ∷ es) = handle_all (handle s e) es

-- The ids of the boundaries that are decided, in order.
unfoldable pub decided : List Event → List ℕ
decided [] = []
decided (decides t ∷ es) = t.id ∷ decided es
decided (comes_back e payload visible ∷ es) = decided es
decided (ticks jobs listens deleted wall now o ∷ es) = decided es

decides-history :
    (s : Persistence) (t : SpanTransition) → history (handle s (decides t)) ≡ history s ++ t.id ∷ []
unfolding handle history ids
decides-history s t =
    ap (λ q. ids s.stored.span_changes ++ q) (ids-append s.pending_span_transitions (t ∷ []))
    ∙ sym (append_assoc (ids s.stored.span_changes) (ids s.pending_span_transitions) (t.id ∷ []))

latch-history :
    (s : Persistence) (e : Episode) (payload : ℕ) (visible : Bool)
    → history (latch_snapback s e payload visible) ≡ history s
unfolding latch_snapback history
latch-history s e payload visible = ground arith

handle_all-history :
    (s : Persistence) (es : List Event) → history (handle_all s es) ≡ history s ++ decided es
unfolding handle_all decided handle
handle_all-history s [] = sym (append-nil (history s))
handle_all-history s (decides t ∷ es) =
    handle_all-history (handle s (decides t)) es
    ∙ ap (λ h. h ++ decided es) (decides-history s t)
    ∙ append_assoc (history s) (t.id ∷ []) (decided es)
handle_all-history s (comes_back e payload visible ∷ es) =
    handle_all-history (latch_snapback s e payload visible) es
    ∙ ap (λ h. h ++ decided es) (latch-history s e payload visible)
handle_all-history s (ticks jobs listens deleted wall now o ∷ es) =
    handle_all-history (engine_tick s jobs listens deleted wall now o).0 es
    ∙ ap (λ h. h ++ decided es) (engine_tick-history s jobs listens deleted wall now o)

deliver-queue :
    (s : Persistence) (o : Option ℕ)
    → (deliver s o).0.pending_span_transitions ≡ s.pending_span_transitions
unfolding deliver
deliver-queue s none = refl
deliver-queue s (some payload) = refl

deliver-episode :
    (s : Persistence) (o : Option ℕ)
    → (deliver s o).0.pending_snapback_episode ≡ s.pending_snapback_episode
unfolding deliver
deliver-episode s none = refl
deliver-episode s (some payload) = refl

committed-queue :
    (s : Persistence) (jobs : List PersistJob) (wall now : ℤ)
    → (committed s jobs wall now).pending_span_transitions ≡ []
unfolding committed
committed-queue s jobs wall now = erase_all_self s.pending_span_transitions

cleared_self : (o : Option Episode) → cleared o o ≡ none
cleared_self none = refl
cleared_self (some e) = ground arith

committed-episode :
    (s : Persistence) (jobs : List PersistJob) (wall now : ℤ)
    → (committed s jobs wall now).pending_snapback_episode ≡ none
unfolding committed recover
committed-episode s jobs wall now =
    ground (arith, Option-cases s.pending_snapback_episode, cleared_self s.pending_snapback_episode)

is_cons-false : {A : Type 0} (xs : List A) → is_cons xs ≡ false → xs ≡ []
is_cons-false [] h = refl
is_cons-false (x ∷ xs) h = cc

is_some-false : {A : Type 0} (o : Option A) → is_some o ≡ false → o ≡ none
is_some-false none h = refl
is_some-false (some a) h = cc

tick_commits-settles :
    (s : Persistence) (jobs : List PersistJob) (listens : Bool) (wall now : ℤ)
    → let v = (tick_commits s jobs listens wall now).0 in
      (v.pending_span_transitions ≡ []) × (v.pending_snapback_episode ≡ none)
unfolding tick_commits
tick_commits-settles s jobs listens wall now = (
  deliver-queue (committed s jobs wall now) (to_emit s listens) ∙ committed-queue s jobs wall now,
  deliver-episode (committed s jobs wall now) (to_emit s listens)
      ∙ committed-episode s jobs wall now,
)

commit_tick-settles :
    (s : Persistence) (jobs : List PersistJob) (listens : Bool) (wall now : ℤ)
    → backs_off s now ≡ false
    → let v = (engine_tick s jobs listens false wall now commits).0 in
      (v.pending_span_transitions ≡ []) × (v.pending_snapback_episode ≡ none)
unfolding engine_tick by_outcome
commit_tick-settles s jobs listens wall now h = ground (
  arith,
  h,
  is_cons-false s.pending_span_transitions,
  is_some-false s.pending_snapback_episode,
  tick_commits-settles s jobs listens wall now,
)

-- After any boundaries, returns and ticks, failed or not, the next tick that is not held back, and commits, leaves nothing waiting:
-- storage has the boundaries that it had, then those that waited, then all that were decided, each once and in order.
pub all_written :
    (s : Persistence) (es : List Event) (jobs : List PersistJob) (listens : Bool) (wall now : ℤ)
    → backs_off (handle_all s es) now ≡ false
    → let v = (engine_tick (handle_all s es) jobs listens false wall now commits).0 in
      (ids v.stored.span_changes ≡ history s ++ decided es)
      × (v.pending_span_transitions ≡ [])
      × (v.pending_snapback_episode ≡ none)
unfolding history ids
all_written s es jobs listens wall now h =
    let u = handle_all s es in
    let v = (engine_tick u jobs listens false wall now commits).0 in
    let (queue, episode) = commit_tick-settles u jobs listens wall now h in
    (
      sym (append-nil (ids v.stored.span_changes))
          ∙ ap (λ q. ids v.stored.span_changes ++ ids q) (sym queue)
          ∙ engine_tick-history u jobs listens false wall now commits
          ∙ handle_all-history s es,
      queue,
      episode,
    )
