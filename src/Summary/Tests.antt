-- ===== src/Summary/Tests.antt =====
-- Two sessions of predictions, and the theorem at them.
use snapback.Prelude.{◌*◌, ℕ, refl, ◌+◌, ◌≤◌, ◌≡◌, Bool, true, false, List, [], ◌∷◌, ◌++◌, arith}
use snapback.Prelude.Text.{text_eq}
use snapback.Summary.Predictions.{
  PredictionRecord, start, run_before, extend_run, count_sample, summarize_from,
  summarize_predictions,
}
use snapback.Summary.Stretch.{IsUnbroken, last_of, stretch_counts}

abbrev sample : ℕ → ℕ → Bool → PredictionRecord
sample session secs distracted = record {
  session_id = session ∷ [];
  timestamp_ms = secs * 1000;
  focus_score = 60;
  is_distracted = distracted;
}

abbrev morning : List PredictionRecord
morning = sample 1 10 false ∷ sample 1 50 true ∷ []

abbrev afternoon : List PredictionRecord
afternoon = sample 2 190 false ∷ sample 2 280 false ∷ []

stretch_counts_example :
    280
    ≤ 100
      + (summarize_predictions
          (morning ++ (sample 2 100 false ∷ (afternoon ++ [])))).longest_focus_secs
unfolding last_of IsUnbroken text_eq
stretch_counts_example =
    stretch_counts morning (sample 2 100 false) afternoon [] refl
      (refl, refl, omega arith, omega arith, (refl, refl, omega arith, omega arith, tt))

longest_of_the_day :
    (summarize_predictions (morning ++ (sample 2 100 false ∷ afternoon))).longest_focus_secs ≡ 180
unfolding summarize_predictions summarize_from count_sample run_before extend_run start text_eq
longest_of_the_day = refl
