-- ===== src/Tracker/Tests.antt =====
-- A drift to a video and back to the editor, and the theorems at it.
use snapback.Prelude.{◌/◌, ◌%◌, ◌^◌, ◌++◌, if◌then◌else◌, refl, ◌≡◌, List, [], ◌∷◌, some, arith}
use snapback.Prelude.Int.{pos_part, pos, ◌-ℤ◌, max_ℤ}
use snapback.Prelude.Text.{codes, lower, starts_with, contains, is_empty, text_eq}
use snapback.Tracker.AppContext.{
  AppRuleRecord, block, contains_any, matches_rule_pattern, scan_rules, plain_context, apply_rules,
  classify_app_context, is_clearly_off_task, snapback_on_task, state_is, goal_alignment_score,
}
use snapback.Tracker.Machine.{
  recovering, ContextTracker, meaningful, make_snapshot, new_tracker, is_on_task,
  take_pending_snapback,
}
use snapback.Tracker.Return.{Window, observe, observe_all, AllOff, on_task, drift_and_return}

abbrev rules : List AppRuleRecord
rules = record { pattern = codes "Reddit"; rule_type = block } ∷ []

abbrev editor : Window
editor = record {
  app_name = codes "code";
  window_title = codes "a.cpp - x";
  now = pos 90000;
  timestamp_ms = pos 5;
}

abbrev video : Window
video = record { app_name = codes "vlc"; window_title = []; now = pos 20000; timestamp_ms = pos 6 }

abbrev forum : Window
forum = record {
  app_name = codes "word";
  window_title = codes "reddit";
  now = pos 30000;
  timestamp_ms = pos 7;
}

abbrev at_work : ContextTracker
at_work = record (new_tracker) {
  current = make_snapshot editor.app_name editor.window_title (pos 1);
}

drift_and_return_example :
    let u = observe rules (observe_all rules at_work (video ∷ forum ∷ [])) editor in
    (u.state ≡ recovering)
    × ((take_pending_snapback u).1
        ≡ some (record {
          app_name = at_work.current.app_name;
          window_title = at_work.current.window_title;
          file_hint = at_work.current.file_hint;
          summary =
              if is_empty at_work.current.file_hint
              then codes "Return to " ++ at_work.current.app_name
              else codes "Return to " ++ at_work.current.file_hint;
          distraction_duration_secs =
              pos_part (max_ℤ (pos 0) (pos 90000 -ℤ pos 20000)) / 1000 % 2 ^ 32;
        }))
unfolding new_tracker meaningful is_on_task on_task AllOff snapback_on_task classify_app_context
    plain_context apply_rules scan_rules matches_rule_pattern contains_any contains starts_with
    lower is_clearly_off_task is_empty state_is text_eq make_snapshot goal_alignment_score ◌-ℤ◌
drift_and_return_example =
    drift_and_return rules at_work video (forum ∷ []) editor refl refl refl (refl, (refl, tt)) refl
      (omega arith) (omega arith)
