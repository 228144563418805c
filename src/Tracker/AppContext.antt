-- ===== src/Tracker/AppContext.antt =====
-- src/engine/app_context.cpp: the classification of the foreground app. The scores are hundredths.
use Prim.Native.String.{String}
use snapback.Prelude.{
  ℕ, Bool, true, false, ◌&&◌, ◌||◌, not, List, [], ◌∷◌, map, Option, none, some, if◌then◌else◌, leb,
  max, min,
}
use snapback.Prelude.Text.{codes, lower, contains, is_empty, text_eq}

abbrev pub Text : Type 0
Text = List ℕ

unfoldable pub contains_any : Text → List Text → Bool
contains_any value [] = false
contains_any value (n ∷ ns) = contains value n || contains_any value ns

abbrev texts : List String → List Text
texts ss = map codes ss

abbrev pub browsers : List Text
browsers = texts ("chrome" ∷ "msedge" ∷ "firefox" ∷ "brave" ∷ "opera" ∷ "safari" ∷ [])

abbrev pub ides : List Text
ides = texts ("code" ∷ "cursor" ∷ "devenv" ∷ "idea" ∷ "pycharm" ∷ "clion" ∷ "rider" ∷ "xcode" ∷ [])

abbrev pub communication : List Text
communication = texts ("slack" ∷ "discord" ∷ "teams" ∷ "outlook" ∷ "zoom" ∷ "messages" ∷ [])

abbrev pub entertainment_apps : List Text
entertainment_apps = texts ("spotify" ∷ "steam" ∷ "vlc" ∷ "netflix" ∷ "youtube" ∷ [])

abbrev pub productivity : List Text
productivity =
    texts ("word" ∷ "excel" ∷ "powerpnt" ∷ "notion" ∷ "obsidian" ∷ "pages" ∷ "figma" ∷ [])

abbrev pub terminals : List Text
terminals = texts ("terminal" ∷ "iterm" ∷ "warp" ∷ "alacritty" ∷ "kitty" ∷ "wezterm" ∷ [])

abbrev pub distracting_title_keywords : List Text
distracting_title_keywords = texts (
    "youtube" ∷ "netflix" ∷ "twitter" ∷ "reddit" ∷ "instagram" ∷ "tiktok" ∷ "twitch" ∷ "facebook"
    ∷ "hulu" ∷ "disney+" ∷ "prime video" ∷ [])

pub data AppRuleKind : Type 0 where
  allow block : AppRuleKind

pub record AppRuleRecord : Type 0 where
  pub pattern : Text
  pub rule_type : AppRuleKind

pub record AppContext : Type 0 where
  pub is_browser : Bool
  pub is_ide : Bool
  pub is_communication : Bool
  pub is_entertainment : Bool
  pub is_productivity : Bool
  pub is_terminal : Bool
  pub title_is_distracting : Bool
  pub personal_allow : Bool
  pub personal_block : Bool

unfoldable pub matches_rule_pattern : Text → Text → Text → Bool
matches_rule_pattern pattern app_name window_title =
    contains app_name pattern || contains window_title pattern

-- The loop over the rules: `allow` and `block`.
unfoldable pub scan_rules : Text → Text → List AppRuleRecord → Bool × Bool → Bool × Bool
scan_rules name title [] found = found
scan_rules name title (r ∷ rs) (allowed, blocked) =
    if not (matches_rule_pattern (lower r.pattern) name title)
    then scan_rules name title rs (allowed, blocked)
    else scan_rules name title rs
        (elim r.rule_type [ allow ↦ (true, blocked) | block ↦ (allowed, true) ])

-- The context before the rules.
unfoldable pub plain_context : Text → Text → AppContext
plain_context name title = record {
  is_browser = contains_any name browsers;
  is_ide = contains_any name ides;
  is_communication = contains_any name communication;
  is_entertainment = contains_any name entertainment_apps;
  is_productivity = contains_any name productivity;
  is_terminal = contains_any name terminals;
  title_is_distracting = contains_any title distracting_title_keywords;
  personal_allow = false;
  personal_block = false;
}

unfoldable pub apply_rules : AppContext → Bool × Bool → AppContext
apply_rules ctx (allowed, blocked) =
    if blocked
    then record ctx {
      personal_block = true;
      personal_allow = false;
      is_entertainment = true;
      title_is_distracting = true;
    }
    else if allowed
    then record ctx {
      personal_allow = true;
      is_entertainment = false;
      title_is_distracting = false;
      is_productivity = true;
    }
    else ctx

unfoldable pub classify_app_context : Text → Text → List AppRuleRecord → AppContext
classify_app_context app_name window_title rules =
    apply_rules (plain_context (lower app_name) (lower window_title))
      (scan_rules (lower app_name) (lower window_title) rules (false, false))

unfoldable pub is_clearly_off_task : AppContext → Bool
is_clearly_off_task ctx =
    if ctx.personal_allow
    then false
    else ctx.personal_block || ctx.is_entertainment || ctx.title_is_distracting

pub record GoalCategory : Type 0 where
  pub name : Text
  pub keywords : List Text

unfoldable pub category_alignment : Text → AppContext → Text → ℕ
category_alignment category ctx title =
    let name = lower category in
    let t = lower title in
    if ctx.is_ide || ctx.is_terminal
    then 95
    else if ctx.is_productivity
    then 95
    else if ctx.is_browser && not ctx.title_is_distracting
    then (if contains name (codes "research") || contains name (codes "read")
        then 85
        else if contains t (codes "github") || contains t (codes "docs")
        then 80
        else 55)
    else if ctx.is_communication
    then (if contains name (codes "commun") || contains name (codes "meeting") then 90 else 35)
    else 50

unfoldable pub any_keyword : Text → List Text → Bool
any_keyword goal [] = false
any_keyword goal (k ∷ ks) = (not (is_empty k) && contains goal (lower k)) || any_keyword goal ks

-- The loop over the categories, from the best so far.
unfoldable pub best_alignment : Text → AppContext → Text → List GoalCategory → ℕ → ℕ
best_alignment goal ctx title [] best = best
best_alignment goal ctx title (c ∷ cs) best =
    let name = lower c.name in
    let mail =
      contains name (codes "communication")
      && ctx.is_browser
      && contains (lower title) (codes "mail") in
    let score = if mail then 85 else category_alignment name ctx title in
    best_alignment goal ctx title cs (if any_keyword goal c.keywords then max best score else best)

abbrev category : String → List String → GoalCategory
category name keywords = record { name = codes name; keywords = texts keywords }

abbrev pub default_goal_categories : List GoalCategory
default_goal_categories =
    category "coding" (
      "code" ∷ "coding" ∷ "bug" ∷ "fix" ∷ "implement" ∷ "api" ∷ "refactor" ∷ "test" ∷ "debug"
      ∷ "build" ∷ "feature" ∷ "compile" ∷ "merge" ∷ "pr" ∷ "pull request" ∷ [])
    ∷ category "writing" (
        "write" ∷ "writing" ∷ "report" ∷ "essay" ∷ "document" ∷ "blog" ∷ "draft" ∷ "paper" ∷ "notes"
        ∷ [])
    ∷ category "research" (
        "research" ∷ "read" ∷ "reading" ∷ "learn" ∷ "study" ∷ "article" ∷ "docs" ∷ "documentation"
        ∷ [])
    ∷ category "communication" (
        "email" ∷ "meeting" ∷ "call" ∷ "slack" ∷ "message" ∷ "reply" ∷ "interview" ∷ "present" ∷ [])
    ∷ []

abbrev pub text_or_empty : Option Text → Text
text_or_empty none = []
text_or_empty (some t) = t

abbrev pub active_categories : List GoalCategory → List GoalCategory
active_categories [] = default_goal_categories
active_categories (c ∷ cs) = c ∷ cs

unfoldable pub goal_alignment_score : Option Text → AppContext → Text → List GoalCategory → ℕ
goal_alignment_score goal ctx title categories =
    let g = lower (text_or_empty goal) in
    if is_empty g
    then 50
    else min (best_alignment g ctx title (active_categories categories) 50) 100

unfoldable pub state_is : Option Text → Text → Bool
state_is none label = false
state_is (some s) label = text_eq s label

unfoldable pub snapback_on_task :
    AppContext → Text → Option Text → Option Text → List GoalCategory → Bool
snapback_on_task ctx title focus_state session_goal categories =
    let score = goal_alignment_score session_goal ctx title categories in
    let has_goal = not (is_empty (text_or_empty session_goal)) in
    let working =
      ctx.is_ide
      || ctx.is_productivity
      || ctx.is_terminal
      || ctx.is_communication
      || state_is focus_state (codes "PRODUCTIVE")
      || state_is focus_state (codes "DEEP_FOCUS")
      || state_is focus_state (codes "PSEUDO_PRODUCTIVE") in
    if is_clearly_off_task ctx
    then false
    else if state_is focus_state (codes "DISTRACTED")
    then false
    else if ctx.personal_allow
    then true
    else if has_goal && leb 72 score
    then true
    else if has_goal && leb score 35
    then false
    else working
