-- ===== src/Engine/Guardrails.antt =====
-- src/engine/classifier.cpp: `apply_focus_guardrails`, with the thresholds of src/types.hpp and src/engine/classifier_tuning.hpp. Scores are hundredths.
use snapback.Prelude.{ℕ, ◌≤◌, ◌≡◌, Bool, true, false, ◌&&◌, if◌then◌else◌, leb, arith}

pub data FocusMode : Type 0 where
  normal deep recovery : FocusMode

pub data FocusState : Type 0 where
  distracted pseudo_productive productive deep_focus : FocusState

pub data StateSource : Type 0 where
  model risk thrash block drift : StateSource

pub record PredictionScores : Type 0 where
  pub focus_score : ℕ
  pub distraction_risk : ℕ
  pub thrash_score : ℕ
  pub drift_score : ℕ
  pub goal_alignment : ℕ
  pub focus_state : FocusState
  pub state_source : StateSource

unfoldable pub risk_threshold : FocusMode → ℕ
risk_threshold deep = 55
risk_threshold recovery = 85
risk_threshold normal = 70

abbrev pub thrash_distracted : ℕ
thrash_distracted = 75

abbrev pub drift_pseudo : ℕ
drift_pseudo = 55

abbrev pub is_productive : FocusState → Bool
is_productive distracted = false
is_productive pseudo_productive = false
is_productive productive = true
is_productive deep_focus = false

unfoldable pub apply_focus_guardrails :
    PredictionScores → ℕ → ℕ → Bool → FocusMode → PredictionScores
apply_focus_guardrails scores thrash_level drift_level personal_block mode =
    if leb (risk_threshold mode) scores.distraction_risk
    then record scores { focus_state = distracted; state_source = risk }
    else if leb thrash_distracted thrash_level
    then record scores { focus_state = distracted; state_source = thrash }
    else if personal_block
    then record scores { focus_state = distracted; state_source = block }
    else if leb drift_pseudo drift_level && is_productive scores.focus_state
    then record scores { focus_state = pseudo_productive; state_source = drift }
    else scores

-- How focused a state is.
abbrev pub depth : FocusState → ℕ
depth distracted = 0
depth pseudo_productive = 1
depth productive = 2
depth deep_focus = 3

-- The guardrails only demote, leave every score as it is, and are done after one pass.
pub guardrails_demote :
    (scores : PredictionScores) (thrash_level drift_level : ℕ) (blocked : Bool) (mode : FocusMode)
    → let out = apply_focus_guardrails scores thrash_level drift_level blocked mode in
      (depth out.focus_state ≤ depth scores.focus_state)
      × (out.focus_score ≡ scores.focus_score)
      × (out.distraction_risk ≡ scores.distraction_risk)
      × (apply_focus_guardrails out thrash_level drift_level blocked mode ≡ out)
unfolding apply_focus_guardrails
guardrails_demote scores thrash_level drift_level blocked mode = ground arith
