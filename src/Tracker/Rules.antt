-- ===== src/Tracker/Rules.antt =====
-- src/engine/app_context.cpp: the user's rules, which go before what the app's name and title say.
use snapback.Prelude.{
  ap, ◌∙◌, refl, ℕ, ◌≤◌, ◌≡◌, refl, Bool, true, false, ◌&&◌, ◌||◌, not, List, [], ◌∷◌, Option,
  arith,
}
use snapback.Prelude.Text.{lower}
use snapback.Tracker.AppContext.{
  active_categories, text_or_empty, Text, allow, block, AppRuleRecord, AppContext,
  matches_rule_pattern, scan_rules, plain_context, apply_rules, classify_app_context,
  is_clearly_off_task, GoalCategory, category_alignment, best_alignment, goal_alignment_score,
}

-- Whether a rule of a kind fits the window.
unfoldable pub has_rule : Bool → Text → Text → List AppRuleRecord → Bool
has_rule blocking name title [] = false
has_rule blocking name title (r ∷ rs) =
    (matches_rule_pattern (lower r.pattern) name title
      && (elim r.rule_type [ allow ↦ not blocking | block ↦ blocking ]))
    || has_rule blocking name title rs

scan_rules-has_rule :
    (name title : Text) (rs : List AppRuleRecord) (allowed blocked : Bool)
    → scan_rules name title rs (allowed, blocked)
      ≡ (allowed || has_rule false name title rs, blocked || has_rule true name title rs)
unfolding scan_rules has_rule
scan_rules-has_rule name title [] allowed blocked = ground arith
scan_rules-has_rule name title (r ∷ rs) allowed blocked = ground (
  arith,
  scan_rules-has_rule name title rs allowed blocked,
  scan_rules-has_rule name title rs true blocked,
  scan_rules-has_rule name title rs allowed true,
)

off_task_of_rules :
    (ctx : AppContext) (allowed blocked : Bool)
    → ctx.personal_allow ≡ false
    → ctx.personal_block ≡ false
    → is_clearly_off_task (apply_rules ctx (allowed, blocked))
      ≡ (blocked || (not allowed && (ctx.is_entertainment || ctx.title_is_distracting)))
unfolding is_clearly_off_task apply_rules
off_task_of_rules ctx allowed blocked a b = ground arith

plain_unruled :
    (app title : Text)
    → ((plain_context (lower app) (lower title)).personal_allow ≡ false)
      × ((plain_context (lower app) (lower title)).personal_block ≡ false)
unfolding plain_context
plain_unruled app title = (refl, refl)

-- A window is clearly off task exactly when a rule that fits it blocks it, or none that fits allows it and its app is for entertainment or its
-- title distracts: whatever the order of the rules, blocking goes before allowing, and allowing before the lists.
pub off_task_by_rules :
    (app title : Text) (rules : List AppRuleRecord)
    → let plain = plain_context (lower app) (lower title) in
      is_clearly_off_task (classify_app_context app title rules) ≡ (
        has_rule true (lower app) (lower title) rules
        || (not (has_rule false (lower app) (lower title) rules)
            && (plain.is_entertainment || plain.title_is_distracting)))
unfolding classify_app_context
off_task_by_rules app title rules =
    ap (λ found. is_clearly_off_task (apply_rules (plain_context (lower app) (lower title)) found))
      (scan_rules-has_rule (lower app) (lower title) rules false false)
    ∙ off_task_of_rules (plain_context (lower app) (lower title))
        (has_rule false (lower app) (lower title) rules)
        (has_rule true (lower app) (lower title) rules) (plain_unruled app title).0
        (plain_unruled app title).1

category_alignment_bounds :
    (category : Text) (ctx : AppContext) (title : Text)
    → (35 ≤ category_alignment category ctx title) × (category_alignment category ctx title ≤ 95)
unfolding category_alignment
category_alignment_bounds category ctx title = ground arith

best_alignment_bounds :
    (goal : Text) (ctx : AppContext) (title : Text) (cs : List GoalCategory) (best : ℕ)
    → 50 ≤ best
    → best ≤ 95
    → (50 ≤ best_alignment goal ctx title cs best) × (best_alignment goal ctx title cs best ≤ 95)
unfolding best_alignment
best_alignment_bounds goal ctx title [] best lo hi = (lo, hi)
best_alignment_bounds goal ctx title (c ∷ cs) best lo hi =
    best_alignment_bounds goal ctx title cs _
      (ground (arith, category_alignment_bounds (lower c.name) ctx title))
      (ground (arith, category_alignment_bounds (lower c.name) ctx title))

-- The alignment of a goal is from 0.5 to 0.95, whatever the categories and the window.
pub goal_alignment_bounds :
    (goal : Option Text) (ctx : AppContext) (title : Text) (categories : List GoalCategory)
    → (50 ≤ goal_alignment_score goal ctx title categories)
      × (goal_alignment_score goal ctx title categories ≤ 95)
unfolding goal_alignment_score
goal_alignment_bounds goal ctx title categories = ground (
  arith,
  best_alignment_bounds (lower (text_or_empty goal)) ctx title (active_categories categories) 50
      (omega arith) (omega arith),
)
