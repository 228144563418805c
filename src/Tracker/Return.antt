-- ===== src/Tracker/Return.antt =====
-- src/snapback/tracker.cpp: a drift away from the task, and the return that reports where it began.
use snapback.Prelude.{
  ◌/◌, ◌%◌, ◌^◌, ◌++◌, if◌then◌else◌, ◌≡◌, refl, Bool, true, false, List, [], ◌∷◌, some, arith, ◌∙◌,
}
use snapback.Prelude.Text.{codes, is_empty}
use snapback.Prelude.Int.{pos_part, ℤ, pos, ◌-ℤ◌, ◌≤ℤ◌, max_ℤ}
use snapback.Tracker.AppContext.{Text, AppRuleRecord}
use snapback.Tracker.Machine.{
  focused, distracted, recovering, Snapshot, ContextTracker, meaningful, is_on_task, payload_of,
  build_snapback, remember_focus, distraction_ms, change_state, take_window, observe_window_change,
  take_pending_snapback,
}

-- A change of window, with the event clock and the wall clock.
pub record Window : Type 0 where
  pub app_name : Text
  pub window_title : Text
  pub now : ℤ
  pub timestamp_ms : ℤ

module _ (rules : List AppRuleRecord) where
  unfoldable pub on_task : ContextTracker → Window → Bool
  on_task t w = is_on_task t w.app_name w.window_title rules

  unfoldable pub observe : ContextTracker → Window → ContextTracker
  observe t w = (observe_window_change t w.app_name w.window_title rules w.now w.timestamp_ms).0

  unfoldable pub observe_all : ContextTracker → List Window → ContextTracker
  observe_all t [] = t
  observe_all t (w ∷ ws) = observe_all (observe t w) ws

  unfoldable pub AllOff : ContextTracker → List Window → Type 0
  AllOff t [] = Unit
  AllOff t (w ∷ ws) = (on_task t w ≡ false) × AllOff t ws

  -- `u` is away from the task since an instant, from a snapshot, with the settings and the feedback of `t`.
  record IsAway (t u : ContextTracker) (since : ℤ) (from : Snapshot) : Type 0 where
    away : u.state ≡ distracted
    started : u.distraction_started ≡ since
    left : u.last_focus_snapshot ≡ some from
    same_min : u.min_distraction ≡ t.min_distraction
    same_state : u.latest_focus_state ≡ t.latest_focus_state
    same_goal : u.latest_session_goal ≡ t.latest_session_goal
    same_categories : u.goal_categories ≡ t.goal_categories

  same_task :
      (t u : ContextTracker) (since : ℤ) (from : Snapshot) (w : Window)
      → IsAway t u since from
      → on_task u w ≡ on_task t w
  unfolding on_task is_on_task
  same_task t u since from w h = rw (h.same_state, h.same_goal, h.same_categories) refl

  leave-IsAway :
      (t : ContextTracker) (w : Window)
      → t.state ≡ focused
      → meaningful t.current ≡ true
      → is_on_task t t.current.app_name t.current.window_title rules ≡ true
      → on_task t w ≡ false
      → IsAway t (observe t w) w.now t.current
  unfolding on_task observe observe_window_change take_window change_state remember_focus
  leave-IsAway t w f m was off = ground arith

  stay-IsAway :
      (t u : ContextTracker) (since : ℤ) (from : Snapshot) (w : Window)
      → IsAway t u since from
      → on_task u w ≡ false
      → IsAway t (observe u w) since from
  unfolding on_task observe observe_window_change take_window change_state remember_focus
  stay-IsAway t u since from w h off =
      ground
        (arith, h.away, h.started, h.left, h.same_min, h.same_state, h.same_goal, h.same_categories)

  observe_all-IsAway :
      (t u : ContextTracker) (since : ℤ) (from : Snapshot) (ws : List Window)
      → IsAway t u since from
      → AllOff t ws
      → IsAway t (observe_all u ws) since from
  unfolding observe_all AllOff
  observe_all-IsAway t u since from [] h off = h
  observe_all-IsAway t u since from (w ∷ ws) h off =
      observe_all-IsAway t (observe u w) since from ws
        (stay-IsAway t u since from w h (same_task t u since from w h ∙ off.0)) off.1

  back_from_IsAway :
      (t u : ContextTracker) (since : ℤ) (from : Snapshot) (w : Window)
      → IsAway t u since from
      → on_task u w ≡ true
      → pos 0 ≤ℤ since
      → t.min_distraction ≤ℤ w.now -ℤ since
      → ((observe u w).state ≡ recovering)
        × ((take_pending_snapback (observe u w)).1
            ≡ some (payload_of from (max_ℤ (pos 0) (w.now -ℤ since))))
  unfolding on_task observe observe_window_change take_window change_state remember_focus
      distraction_ms build_snapback take_pending_snapback
  back_from_IsAway t u since from w h on start long =
      ground (arith, h.away, h.started, h.left, h.same_min)

  -- From the focused state, at a window on task that has a name or a title, through any windows off task, the first at a time that is
  -- not negative, to one on task, at least the least distraction after the first: the tracker recovers, and the payload that it hands
  -- out has the program, the title and the file of the window that was left, a summary that names the file, or the program if there is
  -- none, and the whole seconds since it was left, modulo 2 ^ 32.
  pub drift_and_return :
      (t : ContextTracker) (leave : Window) (away : List Window) (back : Window)
      → t.state ≡ focused
      → meaningful t.current ≡ true
      → is_on_task t t.current.app_name t.current.window_title rules ≡ true
      → AllOff t (leave ∷ away)
      → on_task t back ≡ true
      → pos 0 ≤ℤ leave.now
      → t.min_distraction ≤ℤ back.now -ℤ leave.now
      → let u = observe (observe_all t (leave ∷ away)) back in
        (u.state ≡ recovering)
        × ((take_pending_snapback u).1
            ≡ some (record {
              app_name = t.current.app_name;
              window_title = t.current.window_title;
              file_hint = t.current.file_hint;
              summary =
                  if is_empty t.current.file_hint
                  then codes "Return to " ++ t.current.app_name
                  else codes "Return to " ++ t.current.file_hint;
              distraction_duration_secs =
                  pos_part (max_ℤ (pos 0) (back.now -ℤ leave.now)) / 1000 % 2 ^ 32;
            }))
  unfolding observe_all AllOff payload_of
  drift_and_return t leave away back f m was off on start long =
      let gone = leave-IsAway t leave f m was off.0 in
      let h = observe_all-IsAway t (observe t leave) leave.now t.current away gone off.1 in
      back_from_IsAway t (observe_all (observe t leave) away) leave.now t.current back h
        (same_task t (observe_all (observe t leave) away) leave.now t.current back h ∙ on) start
        long
