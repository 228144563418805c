-- ===== src/Engine/Shown.antt =====
-- src/app/state.cpp: a snapback is shown once, and only behind the commit of its episode.
use snapback.Prelude.{
  none, not, if◌then◌else◌, ℕ, sym, ◌≡◌, refl, ap, ◌∙◌, Bool, true, false, ◌&&◌, List, [], ◌∷◌,
  ◌++◌, Option, some, arith,
}
use snapback.Prelude.Int.{ℤ}
use snapback.Engine.Durable.{tick_branches}
use snapback.Engine.Flush.{
  has_work, backs_off, commits, throws, throws_sqlite, category_of_code, throws_sqlite, is_some,
  wrote_data, write_failed, Outcome, committed, by_outcome, engine_tick, tick_commits, deliver,
  Stored, SpanTransition, Episode, PersistJob, Persistence, FailureCategory, Emission,
  snapback_returned, persistence_failed, persistence_recovered, note_if, persist_all, write_batch,
  tick_throws, is_news, insert_episode, insert_opt, holds_episode, same_episode,
}

unfoldable pub shows : List Emission → Bool
shows [] = false
shows (snapback_returned payload ∷ es) = true
shows (persistence_failed c ∷ es) = shows es
shows (persistence_recovered ∷ es) = shows es

note_if-shown :
    (b : Bool) (e : Emission) (rest : List Emission)
    → shows (e ∷ []) ≡ false
    → shows (note_if b e rest) ≡ shows rest
unfolding shows
note_if-shown true e rest h = ground (arith, h)
note_if-shown false e rest h = refl

same_episode_self : (e : Episode) → same_episode e e ≡ true
same_episode_self e = ground arith

holds_episode-append : (e : Episode) (es : List Episode) → holds_episode e (es ++ e ∷ []) ≡ true
unfolding holds_episode
holds_episode-append e [] = ground (arith, same_episode_self e)
holds_episode-append e (d ∷ ds) = ground (arith, holds_episode-append e ds)

holds_episode-insert_episode :
    (e : Episode) (es : List Episode) → holds_episode e (insert_episode es e) ≡ true
unfolding insert_episode
holds_episode-insert_episode e es = ground (arith, holds_episode-append e es)

written_episode :
    (s : Stored) (jobs : List PersistJob) (o : Option Episode) (e : Episode)
    (ts : List SpanTransition)
    → o ≡ some e
    → holds_episode e (write_batch s jobs o ts).episodes ≡ true
unfolding write_batch
written_episode s jobs o e ts h =
    ap (λ p. holds_episode e (insert_opt (persist_all s jobs).episodes p)) h
    ∙ holds_episode-insert_episode e (persist_all s jobs).episodes

-- What a tick that shows a snapback has done.
Shown : Persistence → Episode → Persistence × List Emission → Type 0
Shown s e (v, out) =
    shows out ≡ true
    → (holds_episode e v.stored.episodes ≡ true)
      × (s.snapback_emitted ≡ false)
      × (v.snapback_emitted ≡ true)

tick_throws-Shown :
    (s : Persistence) (e : Episode) (jobs : List PersistJob) (listens : Bool) (wall now : ℤ)
    (c : FailureCategory)
    → Shown s e (tick_throws s jobs listens wall now c)
unfolding tick_throws shows Shown
tick_throws-Shown s e jobs listens wall now c h = absurd (
    ground
      (arith, h, note_if-shown (listens && is_news s.failure c) (persistence_failed c) [] refl))

committed-episodes :
    (s : Persistence) (e : Episode) (jobs : List PersistJob) (wall now : ℤ)
    → s.pending_snapback_episode ≡ some e
    → holds_episode e (committed s jobs wall now).stored.episodes ≡ true
unfolding committed
committed-episodes s e jobs wall now h =
    written_episode s.stored jobs s.pending_snapback_episode e _ h

deliver-Shown :
    (c : Persistence) (e : Episode) (listens emitted : Bool) (latest : Option ℕ)
    → holds_episode e c.stored.episodes ≡ true
    → let r = deliver c (if listens && not emitted then latest else none) in
      shows r.1 ≡ true
      → (holds_episode e r.0.stored.episodes ≡ true)
        × (emitted ≡ false)
        × (r.0.snapback_emitted ≡ true)
unfolding deliver shows
deliver-Shown c e true false (some payload) held h = (held, refl, refl)
deliver-Shown c e true false none held h = cc
deliver-Shown c e true true latest held h = cc
deliver-Shown c e false emitted latest held h = cc

tick_commits-Shown :
    (s : Persistence) (e : Episode) (jobs : List PersistJob) (listens : Bool) (wall now : ℤ)
    → s.pending_snapback_episode ≡ some e
    → Shown s e (tick_commits s jobs listens wall now)
unfolding tick_commits Shown shows
tick_commits-Shown s e jobs listens wall now pending h =
    deliver-Shown (committed s jobs wall now) e listens s.snapback_emitted s.latest_snapback
      (committed-episodes s e jobs wall now pending)
      (sym (
          note_if-shown (listens && wrote_data s jobs && is_some s.failure) persistence_recovered _
            refl)
        ∙ h)

by_outcome-Shown :
    (s : Persistence) (e : Episode) (jobs : List PersistJob) (listens : Bool) (wall now : ℤ)
    (o : Outcome)
    → s.pending_snapback_episode ≡ some e
    → Shown s e (by_outcome s jobs listens wall now o)
unfolding by_outcome
by_outcome-Shown s e jobs listens wall now commits pending =
    tick_commits-Shown s e jobs listens wall now pending
by_outcome-Shown s e jobs listens wall now throws pending =
    tick_throws-Shown s e jobs listens wall now write_failed
by_outcome-Shown s e jobs listens wall now (throws_sqlite code) pending =
    tick_throws-Shown s e jobs listens wall now (category_of_code code)

silent_Shown : (s : Persistence) (e : Episode) (v : Persistence) → Shown s e (v, [])
unfolding shows Shown
silent_Shown s e v h = cc

tick-Shown :
    (s : Persistence) (e : Episode) (jobs : List PersistJob) (listens deleted : Bool) (wall now : ℤ)
    (o : Outcome)
    → s.pending_snapback_episode ≡ some e
    → Shown s e (engine_tick s jobs listens deleted wall now o)
unfolding engine_tick
tick-Shown s e jobs listens deleted wall now o pending =
    tick_branches (Shown s e) deleted (backs_off s now) (has_work s jobs listens) (s, [])
      (by_outcome s jobs listens wall now o) _ (silent_Shown s e s) (silent_Shown s e _)
      (by_outcome-Shown s e jobs listens wall now o pending)

-- While the episode of a return waits to be written, a tick that shows a snapback has committed that episode; no snapback was shown
-- since the last one was latched, and none is shown until the next one is.
pub shown_behind_commit :
    (s : Persistence) (e : Episode) (jobs : List PersistJob) (listens deleted : Bool) (wall now : ℤ)
    (o : Outcome)
    → s.pending_snapback_episode ≡ some e
    → shows (engine_tick s jobs listens deleted wall now o).1 ≡ true
    → let v = (engine_tick s jobs listens deleted wall now o).0 in
      (holds_episode e v.stored.episodes ≡ true)
      × (s.snapback_emitted ≡ false)
      × (v.snapback_emitted ≡ true)
unfolding Shown
shown_behind_commit s e jobs listens deleted wall now o pending h =
    tick-Shown s e jobs listens deleted wall now o pending h
