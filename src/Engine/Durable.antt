-- ===== src/Engine/Durable.antt =====
-- src/app/state.cpp: nothing that waits to be written is lost, doubled or shown before it is written.
use snapback.Prelude.{
  ℕ, ◌≡◌, refl, ap, ◌∙◌, Bool, true, false, List, [], ◌∷◌, ◌++◌, Option, none, some, arith,
  append-nil, ap₂, if◌then◌else◌,
}
use snapback.Prelude.Int.{ℤ}
use snapback.Engine.Flush.{
  Stored, SpanTransition, PersistJob, Persistence, Outcome, commits, throws, throws_sqlite,
  FailureCategory, write_failed, Emission, resolve, resolve_all, persist, persist_all, write_batch,
  erase_id, erase_all, failed, committed, tick_commits, tick_throws, by_outcome, engine_tick,
  deliver, backs_off, has_work, to_emit, category_of_code,
}

unfoldable pub ids : List SpanTransition → List ℕ
ids [] = []
ids (t ∷ ts) = t.id ∷ ids ts

pub ids-append : (ts us : List SpanTransition) → ids (ts ++ us) ≡ ids ts ++ ids us
unfolding ids
ids-append [] us = refl
ids-append (t ∷ ts) us = ap (λ xs. t.id ∷ xs) (ids-append ts us)

pub ids-resolve_all :
    (wall now : ℤ) (ts : List SpanTransition) → ids (resolve_all wall now ts) ≡ ids ts
unfolding ids resolve_all resolve
ids-resolve_all wall now [] = refl
ids-resolve_all wall now (t ∷ ts) = ground (arith, ids-resolve_all wall now ts)

erase_id-head : (t : SpanTransition) (ts : List SpanTransition) → erase_id t.id (t ∷ ts) ≡ ts
unfolding erase_id
erase_id-head t ts = ground arith

pub erase_all_self : (ts : List SpanTransition) → erase_all ts ts ≡ []
unfolding erase_all
erase_all_self [] = refl
erase_all_self (t ∷ ts) = ap (erase_all ts) (erase_id-head t ts) ∙ erase_all_self ts

persist-span_changes :
    (s : Stored) (job : PersistJob) → (persist s job).span_changes ≡ s.span_changes
unfolding persist
persist-span_changes s job = ground arith

persist_all-span_changes :
    (s : Stored) (jobs : List PersistJob) → (persist_all s jobs).span_changes ≡ s.span_changes
unfolding persist_all
persist_all-span_changes s [] = refl
persist_all-span_changes s (job ∷ jobs) =
    persist_all-span_changes (persist s job) jobs ∙ persist-span_changes s job

-- The ids of the transitions that are written, and behind them of those that wait.
unfoldable pub history : Persistence → List ℕ
history s = ids s.stored.span_changes ++ ids s.pending_span_transitions

pub deliver-history : (s : Persistence) (o : Option ℕ) → history (deliver s o).0 ≡ history s
unfolding deliver history
deliver-history s none = refl
deliver-history s (some payload) = refl

pub committed-history :
    (s : Persistence) (jobs : List PersistJob) (wall now : ℤ)
    → history (committed s jobs wall now) ≡ history s
unfolding committed history write_batch ids
committed-history s jobs wall now =
    let queue = s.pending_span_transitions in
    ap (λ q. ids ((persist_all s.stored jobs).span_changes ++ resolve_all wall now queue) ++ ids q)
      (erase_all_self queue)
    ∙ append-nil (ids ((persist_all s.stored jobs).span_changes ++ resolve_all wall now queue))
    ∙ ids-append (persist_all s.stored jobs).span_changes (resolve_all wall now queue)
    ∙ ap₂ (λ a b. ids a ++ b) (persist_all-span_changes s.stored jobs)
        (ids-resolve_all wall now queue)

failed-history :
    (s : Persistence) (jobs : List PersistJob) (wall now : ℤ) (c : FailureCategory)
    → history (failed s jobs wall now c) ≡ history s
unfolding failed history
failed-history s jobs wall now c =
    ap (λ q. ids s.stored.span_changes ++ q) (ids-resolve_all wall now s.pending_span_transitions)

by_outcome-history :
    (s : Persistence) (jobs : List PersistJob) (listens : Bool) (wall now : ℤ) (o : Outcome)
    → history (by_outcome s jobs listens wall now o).0 ≡ history s
unfolding by_outcome tick_commits tick_throws
by_outcome-history s jobs listens wall now commits =
    deliver-history (committed s jobs wall now) (to_emit s listens)
    ∙ committed-history s jobs wall now
by_outcome-history s jobs listens wall now throws = failed-history s jobs wall now write_failed
by_outcome-history s jobs listens wall now (throws_sqlite code) =
    failed-history s jobs wall now (category_of_code code)

-- The branches of a tick, for whatever holds of each of them.
pub tick_branches :
    (P : Persistence × List Emission → Type 0) (a b c : Bool)
    (idle busy off : Persistence × List Emission)
    → P idle
    → P off
    → P busy
    → P (if a then idle else if b then off else if c then busy else idle)
tick_branches P true b c idle busy off h k l = h
tick_branches P false true c idle busy off h k l = k
tick_branches P false false true idle busy off h k l = l
tick_branches P false false false idle busy off h k l = h

same_history :
    (s : Persistence) (n : ℕ) → history (record s { dropped_predictions = n }) ≡ history s
unfolding history
same_history s n = refl

pub engine_tick-history :
    (s : Persistence) (jobs : List PersistJob) (listens deleted : Bool) (wall now : ℤ) (o : Outcome)
    → history (engine_tick s jobs listens deleted wall now o).0 ≡ history s
unfolding engine_tick
engine_tick-history s jobs listens deleted wall now o =
    tick_branches (λ r. history r.0 ≡ history s) deleted (backs_off s now) (has_work s jobs listens)
      (s, []) _ _ refl (same_history s _) (by_outcome-history s jobs listens wall now o)
