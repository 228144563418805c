-- ===== src/Engine/Drain.antt =====
-- src/app/state.cpp: how many events a tick takes from the ring. What is done with an event is left out; `clock` gives the readings of the
-- clock by the number of events taken before, and nothing enters the ring during a tick.
use snapback.Prelude.{
  ◌||◌, zero, Option, none, some, ◌++◌, ℕ, suc, ◌%◌, Bool, true, false, ◌&&◌, List, [], ◌∷◌, ◌==◌,
  if◌then◌else◌,
}
use snapback.Prelude.Int.{ℤ, pos, ◌-ℤ◌, leb_ℤ}

abbrev pub engine_drain_budget : ℕ
engine_drain_budget = 2048

abbrev pub engine_drain_clock_check_stride : ℕ
engine_drain_clock_check_stride = 128

abbrev pub engine_drain_budget_ms : ℤ
engine_drain_budget_ms = pos 20

pub record Drained {ℓ} (E : Type ℓ) : Type ℓ where
  pub events : List E
  pub left : List E
  pub drain_truncated : Bool

abbrev pub has_pending_events {ℓ} : {E : Type ℓ} → List E → Bool
has_pending_events [] = false
has_pending_events (_ ∷ _) = true

unfoldable pub out_of_time : (ℕ → ℤ) → ℕ → Bool
out_of_time clock drained =
    drained % engine_drain_clock_check_stride == 0
    && leb_ℤ engine_drain_budget_ms (clock drained -ℤ clock 0)

-- The loop, with `room` left of its budget behind `drained` events, and the question behind it whether more is waiting.
unfoldable pub drain_from {ℓ} : {E : Type ℓ} → (ℕ → ℤ) → ℕ → ℕ → List E → Drained E
drain_from clock zero drained ring = record {
  events = [];
  left = ring;
  drain_truncated = has_pending_events ring;
}
drain_from clock (suc room) drained [] = record { events = []; left = []; drain_truncated = false }
drain_from clock (suc room) drained (ev ∷ ring) =
    let rest = drain_from clock room (suc drained) ring in
    if out_of_time clock (suc drained)
    then record { events = ev ∷ []; left = ring; drain_truncated = true }
    else record {
      events = ev ∷ rest.events;
      left = rest.left;
      drain_truncated = rest.drain_truncated;
    }

unfoldable pub drain {ℓ} : {E : Type ℓ} → (ℕ → ℤ) → List E → Drained E
drain clock ring = drain_from clock engine_drain_budget 0 ring

unfoldable pub put_before {ℓ} : {E : Type ℓ} → List E → Option (List E) → Option (List E)
put_before events none = none
put_before events (some rest) = some (events ++ rest)

-- The loop of the engine's thread over ticks that do not fail, once it is told to stop: while a tick says that more is waiting, or
-- the ring does, another follows.
unfoldable pub drain_all {ℓ} : {E : Type ℓ} → ℕ → (ℕ → ℕ → ℤ) → List E → Option (List E)
drain_all zero clocks ring = none
drain_all (suc fuel) clocks ring =
    let d = drain (clocks fuel) ring in
    let rest = drain_all fuel clocks d.left in
    if d.drain_truncated || has_pending_events d.left
    then put_before d.events rest
    else some d.events
