-- ===== src/Wire/Tests.antt =====
-- A small JSON library, and the theorems at a night owl's settings and a degraded application.
use snapback.Pomodoro.Relaunch.{positive, config_from_json}
use Prim.Native.String.{String}
use snapback.Prelude.{ℕ, ◌≡◌, ap, refl, Bool, true, false, List, [], ◌∷◌, Option, none, some}
use snapback.Prelude.Text.{codes}
use snapback.Prelude.Int.{ℤ, pos, negsuc}
use snapback.Wire.Json.{found_or, ◌>>=◌, get_or, Text, JsonLibrary, JsonLaws, lookup, set}
use snapback.Wire.Timer.{default_config, no_snapshot, pomodoro_config_from_json}
use snapback.Wire.Channels.{default_delivery}
use snapback.Wire.Settings.{
  AppSettings, default_idle_threshold_secs, check_settings, settings_to_json, settings_from_json,
}
use snapback.Wire.Range.{IsInRange, settings_from_json-IsInRange, settings_settle}
use snapback.Wire.Health.{no_permissions, new_classifier, new_deployment}
use snapback.Wire.Runtime.{new_runtime}
use snapback.Wire.Status.{HealthStatus, health_to_json, health_from_json, health_reads_back}
use snapback.Engine.Guardrails.{normal}

mutual
  data Doc : Type 0 where
    nothing : Doc
    flag : Bool → Doc
    number : ℤ → Doc
    real : ℕ → Doc
    word : Text → Doc
    items : Docs → Doc
    members : Members → Doc

  data Docs : Type 0 where
    no_docs : Docs
    one_more : Doc → Docs → Docs

  data Members : Type 0 where
    no_members : Members
    member : String → Doc → Members → Members

abbrev docs_of : List Doc → Docs
docs_of [] = no_docs
docs_of (d ∷ ds) = one_more d (docs_of ds)

abbrev list_of : Docs → List Doc
list_of no_docs = []
list_of (one_more d ds) = d ∷ list_of ds

list_of-docs_of : (ds : List Doc) → list_of (docs_of ds) ≡ ds
list_of-docs_of [] = refl
list_of-docs_of (d ∷ ds) = ap (λ xs. d ∷ xs) (list_of-docs_of ds)

abbrev members_of : List (String × Doc) → Members
members_of [] = no_members
members_of ((k, v) ∷ ps) = member k v (members_of ps)

abbrev pairs_of : Members → List (String × Doc)
pairs_of no_members = []
pairs_of (member k v ms) = (k, v) ∷ pairs_of ms

pairs_of-members_of : (ps : List (String × Doc)) → pairs_of (members_of ps) ≡ ps
pairs_of-members_of [] = refl
pairs_of-members_of (p ∷ ps) = ap (λ qs. p ∷ qs) (pairs_of-members_of ps)

abbrev missing : Doc → Bool
missing nothing = true
missing _ = false

abbrev as_pairs : Doc → List (String × Doc)
as_pairs (members ms) = pairs_of ms
as_pairs _ = []

abbrev as_items : Doc → Option (List Doc)
as_items (items ds) = some (list_of ds)
as_items _ = none

abbrev as_word : Doc → Option Text
as_word (word s) = some s
as_word _ = none

abbrev as_flag : Doc → Option Bool
as_flag (flag b) = some b
as_flag _ = none

abbrev as_integer : Doc → Option ℤ
as_integer (number n) = some n
as_integer _ = none

abbrev natural : ℤ → Option ℕ
natural (pos n) = some n
natural (negsuc n) = none

abbrev as_unsigned : Doc → Option ℕ
as_unsigned (number n) = natural n
as_unsigned _ = none

abbrev as_real : Doc → Option ℕ
as_real (real x) = some x
as_real _ = none

abbrev doc_library : JsonLibrary
doc_library = record {
  Json = Doc;
  Double = ℕ;
  null = nothing;
  is_null = missing;
  object = λ ps. members (members_of ps);
  assign = λ d k v. members (members_of (set (as_pairs d) k v));
  find = λ d k. lookup (as_pairs d) k;
  array = record { write = λ ds. items (docs_of ds); read = as_items };
  text = record { write = word; read = as_word };
  boolean = record { write = flag; read = as_flag };
  integer = record { write = number; read = as_integer };
  unsigned = record { write = λ n. number (pos n); read = as_unsigned };
  double = record { write = real; read = as_real };
  zero_double = 0;
  half_double = 50;
}

doc_laws : JsonLaws doc_library
doc_laws = record {
  null_law = refl;
  object_law = λ ps. refl;
  find_law = λ ps k. ap (λ qs. lookup qs k) (pairs_of-members_of ps);
  assign_law = λ ps k v. ap (λ qs. members (members_of (set qs k v))) (pairs_of-members_of ps);
  array_law = record { is_there = λ ds. refl; reads_back = λ ds. ap some (list_of-docs_of ds) };
  text_law = record { is_there = λ s. refl; reads_back = λ s. refl };
  boolean_law = record { is_there = λ b. refl; reads_back = λ b. refl };
  integer_law = record { is_there = λ n. refl; reads_back = λ n. refl };
  unsigned_law = record { is_there = λ n. refl; reads_back = λ n. refl };
  double_law = record { is_there = λ x. refl; reads_back = λ x. refl };
}

abbrev default_settings : AppSettings
default_settings = record {
  default_focus_mode = normal;
  private_mode = false;
  excluded_apps = [];
  goal_categories = [];
  idle_threshold_secs = default_idle_threshold_secs;
  pomodoro = default_config;
  pomodoro_state = no_snapshot;
  attended_target_daily_mins = 0;
  attended_target_weekly_mins = 0;
  private_until_wall_ms = pos 0;
  untracked_nudge_until_wall_ms = pos 0;
  alerts = default_delivery;
  tray_close_notice_shown = false;
}

-- a file edited by hand: five seconds to idle, and a timer without a work block
abbrev tampered : Doc
tampered = members (
    members_of (
      ("idleThresholdSecs", number (pos 5))
      ∷ ("pomodoro", members (members_of (("workMs", number (pos 0)) ∷ [])))
      ∷ ("untrackedNudgeUntilWallMs", number (negsuc 3))
      ∷ ("excludedApps", nothing)
      ∷ []))

tampered_reads : settings_from_json doc_library tampered ≡ some default_settings
unfolding settings_from_json get_or ◌>>=◌ found_or pomodoro_config_from_json check_settings
    config_from_json positive
tampered_reads = refl

settings_from_json-IsInRange_example : IsInRange default_settings
settings_from_json-IsInRange_example =
    settings_from_json-IsInRange doc_library tampered default_settings tampered_reads

settings_settle_example :
    settings_from_json doc_library (settings_to_json doc_library default_settings)
    ≡ some default_settings
settings_settle_example =
    settings_settle doc_library doc_laws tampered default_settings tampered_reads

abbrev degraded : HealthStatus ℕ
degraded = record {
  status = codes "degraded";
  capture_running = true;
  capture_failed = false;
  capture_failure_reason = none;
  overlay_failure_reason = some (codes "no display");
  persistence_failure_reason = none;
  capture_events_dropped = 7;
  capture_stalled = false;
  last_prediction_age_secs = some 12;
  prediction_suppression_reason = codes "idle";
  permissions = no_permissions;
  classifier = record new_classifier { model_path = some (codes "model.onnx") };
  model_deployment = record new_deployment { preserved_paths = codes "old.onnx" ∷ [] };
  runtime = new_runtime;
  developer_tools_enabled = false;
}

health_reads_back_example :
    health_from_json doc_library (health_to_json doc_library degraded) ≡ some degraded
health_reads_back_example = health_reads_back doc_library doc_laws degraded
