-- ===== src/Summary/Predictions.antt =====
-- src/engine/focus_summary.hpp: `summarize_predictions`. Scores are whole units above zero and the mean is kept as a sum and a count, as the mean
-- itself is floating-point division; `is_distracted` is the comparison with "DISTRACTED", and timestamps are not negative.
use snapback.Prelude.{
  ℕ, ◌+◌, ◌-◌, ◌/◌, Bool, ◌&&◌, List, [], ◌∷◌, Option, none, some, if◌then◌else◌, leb, max,
}
use snapback.Prelude.Text.{text_eq}

pub record PredictionRecord : Type 0 where
  pub session_id : List ℕ
  pub timestamp_ms : ℕ
  pub focus_score : ℕ
  pub is_distracted : Bool

abbrev pub focus_run_gap_secs : ℕ
focus_run_gap_secs = 120

-- The summary so far, and the local variables of the loop.
pub record Progress : Type 0 where
  pub sample_count : ℕ
  pub sum : ℕ
  pub peak_focus_score : ℕ
  pub distracted_samples : ℕ
  pub longest_focus_secs : ℕ
  pub run_secs : ℕ
  pub previous_secs : Option ℕ
  pub previous_session : List ℕ

unfoldable pub start : Progress
start = record {
  sample_count = 0;
  sum = 0;
  peak_focus_score = 0;
  distracted_samples = 0;
  longest_focus_secs = 0;
  run_secs = 0;
  previous_secs = none;
  previous_session = [];
}

abbrev pub secs_of : PredictionRecord → ℕ
secs_of p = p.timestamp_ms / 1000

-- `run_secs` behind a sample that is not the first of its run.
unfoldable pub extend_run : ℕ → Option ℕ → ℕ → ℕ
extend_run run none now = run
extend_run run (some before) now =
    if leb before now && leb (now - before) focus_run_gap_secs then run + (now - before) else 0

-- A new session starts a run of its own.
unfoldable pub run_before : Progress → PredictionRecord → ℕ × Option ℕ
run_before s p =
    if text_eq p.session_id s.previous_session then (s.run_secs, s.previous_secs) else (0, none)

unfoldable pub count_sample : Progress → PredictionRecord → Progress
count_sample s p =
    let before = run_before s p in
    let run = extend_run before.0 before.1 (secs_of p) in
    let counted = record s {
      sample_count = s.sample_count + 1;
      sum = s.sum + p.focus_score;
      peak_focus_score = max s.peak_focus_score p.focus_score;
      previous_session = p.session_id;
    } in
    if p.is_distracted
    then record counted {
      distracted_samples = s.distracted_samples + 1;
      run_secs = 0;
      previous_secs = none;
    }
    else record counted {
      run_secs = run;
      previous_secs = some (secs_of p);
      longest_focus_secs = max s.longest_focus_secs run;
    }

unfoldable pub summarize_from : Progress → List PredictionRecord → Progress
summarize_from s [] = s
summarize_from s (p ∷ ps) = summarize_from (count_sample s p) ps

unfoldable pub summarize_predictions : List PredictionRecord → Progress
summarize_predictions ps = summarize_from start ps
