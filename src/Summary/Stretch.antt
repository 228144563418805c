-- ===== src/Summary/Stretch.antt =====
-- src/engine/focus_summary.hpp: the longest stretch is no shorter than any unbroken one.
use snapback.Prelude.{
  sym, subst, ℕ, ◌+◌, ◌-◌, ◌≤◌, ◌≡◌, refl, true, false, List, [], ◌∷◌, ◌++◌, some, arith, ap, ◌∙◌,
}
use snapback.Prelude.Text.{text_eq}
use snapback.Summary.Predictions.{
  PredictionRecord, focus_run_gap_secs, Progress, start, secs_of, extend_run, run_before,
  count_sample, summarize_from, summarize_predictions,
}

-- Samples that follow one another behind `p` in one session without a distraction, none more than two minutes behind the one before.
unfoldable pub IsUnbroken : PredictionRecord → List PredictionRecord → Type 0
IsUnbroken p [] = Unit
IsUnbroken p (q ∷ qs) =
    (text_eq q.session_id p.session_id ≡ true)
    × (q.is_distracted ≡ false)
    × (secs_of p ≤ secs_of q)
    × (secs_of q - secs_of p ≤ focus_run_gap_secs)
    × IsUnbroken q qs

unfoldable pub last_of : PredictionRecord → List PredictionRecord → PredictionRecord
last_of p [] = p
last_of p (q ∷ qs) = last_of q qs

count_sample-grows :
    (s : Progress) (p : PredictionRecord)
    → s.longest_focus_secs ≤ (count_sample s p).longest_focus_secs
unfolding count_sample
count_sample-grows s p = ground arith

-- A sample that is not a distraction goes on with the run that it finds.
count_sample-on :
    (s : Progress) (p : PredictionRecord)
    → p.is_distracted ≡ false
    → ((count_sample s p).previous_secs ≡ some (secs_of p))
      × ((count_sample s p).previous_session ≡ p.session_id)
      × ((count_sample s p).run_secs ≡ extend_run (run_before s p).0 (run_before s p).1 (secs_of p))
      × ((count_sample s p).run_secs ≤ (count_sample s p).longest_focus_secs)
unfolding count_sample
count_sample-on s p on = ground arith

longest_grows :
    (s : Progress) (ps : List PredictionRecord)
    → s.longest_focus_secs ≤ (summarize_from s ps).longest_focus_secs
unfolding summarize_from
longest_grows s [] = omega arith
longest_grows s (p ∷ ps) =
    ground (arith, count_sample-grows s p, longest_grows (count_sample s p) ps)

summarize_from-append :
    (s : Progress) (ps qs : List PredictionRecord)
    → summarize_from s (ps ++ qs) ≡ summarize_from (summarize_from s ps) qs
unfolding summarize_from
summarize_from-append s [] qs = refl
summarize_from-append s (p ∷ ps) qs = summarize_from-append (count_sample s p) ps qs

-- A sample that follows close on `p` lengthens the run by the time between them.
run_reaches :
    (s : Progress) (p q : PredictionRecord) (first : ℕ)
    → s.previous_secs ≡ some (secs_of p)
    → s.previous_session ≡ p.session_id
    → secs_of p ≤ first + s.run_secs
    → text_eq q.session_id p.session_id ≡ true
    → secs_of p ≤ secs_of q
    → secs_of q - secs_of p ≤ focus_run_gap_secs
    → (count_sample s q).run_secs ≡ extend_run (run_before s q).0 (run_before s q).1 (secs_of q)
    → secs_of q ≤ first + (count_sample s q).run_secs
unfolding run_before extend_run
run_reaches s p q first at in_ span same later near runs =
    let session : text_eq q.session_id s.previous_session ≡ true =
      ap (λ x. text_eq q.session_id x) in_ ∙ same in
    ground (arith, at, session, span, later, near, runs)

-- The loop behind `p`, in a run that began no later than `first`.
run_counts :
    (s : Progress) (p : PredictionRecord) (qs rest : List PredictionRecord) (first : ℕ)
    → s.previous_secs ≡ some (secs_of p)
    → s.previous_session ≡ p.session_id
    → secs_of p ≤ first + s.run_secs
    → s.run_secs ≤ s.longest_focus_secs
    → IsUnbroken p qs
    → secs_of (last_of p qs) ≤ first + (summarize_from s (qs ++ rest)).longest_focus_secs
unfolding summarize_from IsUnbroken last_of
run_counts s p [] rest first at in_ span long u = ground (arith, longest_grows s rest)
run_counts s p (q ∷ qs) rest first at in_ span long (same, on, later, near, more) =
    let (at', in', runs, long') = count_sample-on s q on in
    run_counts (count_sample s q) q qs rest first at' in'
      (run_reaches s p q first at in_ span same later near runs) long' more

-- Wherever an unbroken stretch of samples lies in the history, the longest stretch of the summary is at least as long as it.
pub stretch_counts :
    (before : List PredictionRecord) (p : PredictionRecord) (qs rest : List PredictionRecord)
    → p.is_distracted ≡ false
    → IsUnbroken p qs
    → secs_of (last_of p qs)
      ≤ secs_of p + (summarize_predictions (before ++ (p ∷ (qs ++ rest)))).longest_focus_secs
unfolding summarize_predictions summarize_from
stretch_counts before p qs rest on u =
    let s = summarize_from start before in
    let (at, in_, runs, long) = count_sample-on s p on in
    subst (λ x. secs_of (last_of p qs) ≤ secs_of p + x.longest_focus_secs)
      (sym (summarize_from-append start before (p ∷ (qs ++ rest))))
      (run_counts (count_sample s p) p qs rest (secs_of p) at in_ (omega arith) long u)
