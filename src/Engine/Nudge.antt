-- ===== src/Engine/Nudge.antt =====
-- src/app/state.cpp: the nudge of `update_idle_unlocked` about work that no session records.
use snapback.Prelude.{
  ℕ, ◌+◌, ◌/◌, ◌≤◌, ◌≡◌, Bool, true, false, ◌&&◌, not, List, [], ◌∷◌, Option, none, some,
  if◌then◌else◌, leb, arith,
}
use snapback.Prelude.Int.{ℤ, pos_part, ◌-ℤ◌}

-- `untracked_since_ms_`, `untracked_latched_` and `untracked_minutes_`.
pub record Untracked : Type 0 where
  pub since_ms : Option ℤ
  pub latched : Bool
  pub minutes : Option ℕ

-- What a tick finds: whether a session records, the user is idle, or the app is private or excluded; whether the nudge is
-- dismissed; and whether its route is visible.
pub record Surroundings : Type 0 where
  pub now_ms : ℤ
  pub nothing_to_nudge : Bool
  pub dismissal_active : Bool
  pub route_visible : Bool

abbrev pub untracked_nudge_minutes : ℕ
untracked_nudge_minutes = 15

abbrev pub since_or : Option ℤ → ℤ → ℤ
since_or none now = now
since_or (some since) now = since

unfoldable pub minutes_of : Untracked → ℤ → ℕ
minutes_of u now = pos_part (now -ℤ since_or u.since_ms now) / 60000

unfoldable pub is_due : Untracked → Surroundings → Bool
is_due u e =
    not e.dismissal_active && not u.latched && leb untracked_nudge_minutes (minutes_of u e.now_ms)

unfoldable pub nudge : Untracked → Surroundings → Untracked
nudge u e =
    if e.nothing_to_nudge
    then record u { since_ms = none; latched = false }
    else if is_due u e
    then record {
      since_ms = some (since_or u.since_ms e.now_ms);
      latched = true;
      minutes = if e.route_visible then some (minutes_of u e.now_ms) else u.minutes;
    }
    else record u { since_ms = some (since_or u.since_ms e.now_ms) }

-- How many ticks of a list raise a prompt.
unfoldable pub prompts : Untracked → List Surroundings → ℕ
prompts u [] = 0
prompts u (e ∷ es) =
    (if not e.nothing_to_nudge && is_due u e && e.route_visible then 1 else 0)
    + prompts (nudge u e) es

unfoldable pub AllOneStretch : List Surroundings → Type 0
AllOneStretch [] = Unit
AllOneStretch (e ∷ es) = (e.nothing_to_nudge ≡ false) × AllOneStretch es

abbrev pub one_if_not : Bool → ℕ
one_if_not true = 0
one_if_not false = 1

-- Through a stretch of work that nothing interrupts there is at most one prompt, and none if the stretch has had its prompt.
pub one_prompt :
    (u : Untracked) (es : List Surroundings)
    → AllOneStretch es
    → prompts u es ≤ one_if_not u.latched
unfolding prompts nudge is_due AllOneStretch
one_prompt u [] h = ground arith
one_prompt u (e ∷ es) h = ground (arith, h.0, one_prompt (nudge u e) es h.1)
