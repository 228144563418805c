-- ===== src/Engine/Backlog.antt =====
-- src/app/state.cpp and src/app/state.hpp: that no event waits in the ring while the engine sleeps.
use snapback.Prelude.{
  length-append, some, subst, subst, ℕ, zero, suc, ◌≡◌, refl, ap, sym, ◌∙◌, ◌++◌, ◌≤◌, ◌<◌, ◌+◌,
  ◌&&◌, not, Bool, true, false, List, [], ◌∷◌, length, arith, ◌⊎◌, inl, inr, Bool-cases,
}
use snapback.Prelude.Int.{ℤ}
use snapback.Engine.Drain.{
  Drained, drain_from, put_before, drain, drain_all, out_of_time, has_pending_events,
  engine_drain_budget,
}

no_wait : (b : Bool) → b && not true ≡ false
no_wait true = refl
no_wait false = refl

module _ {ℓ} {E : Type ℓ} where
  -- A tick takes the first events of the ring, no more than its budget, and says so if it leaves any.
  unfoldable pub IsFair : ℕ → List E → Drained E → Type ℓ
  IsFair room ring d =
      (d.events ++ d.left ≡ ring)
      × (length d.events ≤ room)
      × (has_pending_events d.left && not d.drain_truncated ≡ false)

  empty_left : (ring : List E) → has_pending_events ring && not (has_pending_events ring) ≡ false
  empty_left [] = refl
  empty_left (_ ∷ _) = refl

  drain_late :
      (clock : ℕ → ℤ) (room drained : ℕ) (ev : E) (ring : List E)
      → out_of_time clock (suc drained) ≡ true
      → drain_from clock (suc room) drained (ev ∷ ring)
        ≡ record { events = ev ∷ []; left = ring; drain_truncated = true }
  unfolding drain_from
  drain_late clock room drained ev ring h = ground (arith, h)

  abbrev one_more : E → Drained E → Drained E
  one_more ev d = record d { events = ev ∷ d.events }

  drain_on :
      (clock : ℕ → ℤ) (room drained : ℕ) (ev : E) (ring : List E)
      → out_of_time clock (suc drained) ≡ false
      → drain_from clock (suc room) drained (ev ∷ ring)
        ≡ one_more ev (drain_from clock room (suc drained) ring)
  unfolding drain_from
  drain_on clock room drained ev ring h = ground (arith, h)

  one_more-IsFair :
      (room : ℕ) (ev : E) (ring : List E) (d : Drained E)
      → IsFair room ring d
      → IsFair (suc room) (ev ∷ ring) (one_more ev d)
  unfolding IsFair
  one_more-IsFair room ev ring d h = (ap (λ r. ev ∷ r) h.0, omega (arith, h.1), h.2)

  late-IsFair :
      (room : ℕ) (ev : E) (ring : List E)
      → IsFair
          (suc room)
          (ev ∷ ring)
          (record { events = ev ∷ []; left = ring; drain_truncated = true })
  unfolding IsFair
  late-IsFair room ev ring = (refl, omega arith, no_wait (has_pending_events ring))

  full-IsFair :
      (ring : List E)
      → IsFair zero ring
          (record { events = []; left = ring; drain_truncated = has_pending_events ring })
  unfolding IsFair
  full-IsFair ring = (refl, omega arith, empty_left ring)

  drain_from-IsFair :
      (clock : ℕ → ℤ) (room drained : ℕ) (ring : List E)
      → IsFair room ring (drain_from clock room drained ring)
  unfolding drain_from IsFair
  drain_from-IsFair clock zero drained ring = full-IsFair ring
  drain_from-IsFair clock (suc room) drained [] = (refl, omega arith, refl)
  drain_from-IsFair clock (suc room) drained (ev ∷ ring) =
      by_cases (drain_from-IsFair clock room (suc drained) ring)
        (Bool-cases (out_of_time clock (suc drained)))
    where
      by_cases :
          IsFair room ring (drain_from clock room (suc drained) ring)
          → (out_of_time clock (suc drained) ≡ true) ⊎ (out_of_time clock (suc drained) ≡ false)
          → IsFair (suc room) (ev ∷ ring) (drain_from clock (suc room) drained (ev ∷ ring))
      by_cases ih (inl late) =
          subst (IsFair (suc room) (ev ∷ ring)) (sym (drain_late clock room drained ev ring late))
            (late-IsFair room ev ring)
      by_cases ih (inr time) =
          subst (IsFair (suc room) (ev ∷ ring)) (sym (drain_on clock room drained ev ring time))
            (one_more-IsFair room ev ring _ ih)

  takes_some :
      (clock : ℕ → ℤ) (room drained : ℕ) (ev : E) (ring : List E)
      → 0 < length (drain_from clock (suc room) drained (ev ∷ ring)).events
  takes_some clock room drained ev ring = by_cases (Bool-cases (out_of_time clock (suc drained)))
    where
      by_cases :
          (out_of_time clock (suc drained) ≡ true) ⊎ (out_of_time clock (suc drained) ≡ false)
          → 0 < length (drain_from clock (suc room) drained (ev ∷ ring)).events
      by_cases (inl late) =
          subst (λ d. 0 < length d.events) (sym (drain_late clock room drained ev ring late))
            (omega arith)
      by_cases (inr time) =
          subst (λ d. 0 < length d.events) (sym (drain_on clock room drained ev ring time))
            (omega arith)

  shorter :
      (clock : ℕ → ℤ) (room : ℕ) (ring : List E)
      → (drain_from clock (suc room) 0 ring).drain_truncated ≡ true
      → length (drain_from clock (suc room) 0 ring).left < length ring
  unfolding drain_from IsFair
  shorter clock room [] h = ground (arith, h)
  shorter clock room (ev ∷ ring) h =
      let d = drain_from clock (suc room) 0 (ev ∷ ring) in
      let fair = drain_from-IsFair clock (suc room) 0 (ev ∷ ring) in
      let whole : length d.events + length d.left ≡ suc (length ring) =
        sym (length-append d.events d.left) ∙ ap length fair.0 in
      omega (arith, whole, takes_some clock room 0 ev ring)

  no_pending : (es left : List E) → has_pending_events left ≡ false → es ≡ es ++ left
  no_pending [] [] h = refl
  no_pending [] (x ∷ left) h = ground (arith, h)
  no_pending (e ∷ es) left h = ap (λ r. e ∷ r) (no_pending es left h)

  some_left :
      (clock : ℕ → ℤ) (ring : List E)
      → (drain clock ring).drain_truncated ≡ true
      → ((drain clock ring).events ++ (drain clock ring).left ≡ ring)
        × (length (drain clock ring).left < length ring)
  unfolding drain IsFair
  some_left clock ring more =
      ((drain_from-IsFair clock engine_drain_budget 0 ring).0, shorter clock 2047 ring more)

  drain_all-more :
      (fuel : ℕ) (clocks : ℕ → ℕ → ℤ) (ring : List E)
      → (drain (clocks fuel) ring).drain_truncated ≡ true
      → drain_all (suc fuel) clocks ring
        ≡ put_before
            (drain (clocks fuel) ring).events
            (drain_all fuel clocks (drain (clocks fuel) ring).left)
  unfolding drain_all
  drain_all-more fuel clocks ring h = ground (arith, h)

  nothing_waits :
      (clock : ℕ → ℤ) (ring : List E)
      → (drain clock ring).drain_truncated ≡ false
      → has_pending_events (drain clock ring).left ≡ false
  unfolding drain IsFair
  nothing_waits clock ring done =
      let waits = (drain_from-IsFair clock engine_drain_budget 0 ring).2 in
      ground (arith, done, waits)

  none_left :
      (clock : ℕ → ℤ) (ring : List E)
      → (drain clock ring).drain_truncated ≡ false
      → (drain clock ring).events ≡ ring
  unfolding drain IsFair
  none_left clock ring done =
      let d = drain clock ring in
      no_pending d.events d.left (nothing_waits clock ring done)
      ∙ (drain_from-IsFair clock engine_drain_budget 0 ring).0

  drain_all-done :
      (fuel : ℕ) (clocks : ℕ → ℕ → ℤ) (ring : List E)
      → (drain (clocks fuel) ring).drain_truncated ≡ false
      → drain_all (suc fuel) clocks ring ≡ some (drain (clocks fuel) ring).events
  unfolding drain_all
  drain_all-done fuel clocks ring h =
      let empty = nothing_waits (clocks fuel) ring h in ground (arith, h, empty)

  put_before-some :
      (es left ring : List E) → es ++ left ≡ ring → put_before es (some left) ≡ some ring
  unfolding put_before
  put_before-some es left ring h = ap some h

  -- Once the engine is told to stop and no tick fails, its loop ends, within one tick more than there are events in the ring, whatever the
  -- clock shows; by then every event has been taken, once and in order.
  pub drain_all-takes_all :
      (fuel : ℕ) (clocks : ℕ → ℕ → ℤ) (ring : List E)
      → length ring < fuel
      → drain_all fuel clocks ring ≡ some ring
  drain_all-takes_all zero clocks ring h = ground (arith, h)
  drain_all-takes_all (suc fuel) clocks ring h =
      by_cases (drain_all-takes_all fuel clocks)
        (Bool-cases (drain (clocks fuel) ring).drain_truncated)
    where
      by_cases :
          ((left : List E) → length left < fuel → drain_all fuel clocks left ≡ some left)
          → ((drain (clocks fuel) ring).drain_truncated ≡ true)
            ⊎ ((drain (clocks fuel) ring).drain_truncated ≡ false)
          → drain_all (suc fuel) clocks ring ≡ some ring
      by_cases ih (inl more) =
          let d = drain (clocks fuel) ring in
          let left = some_left (clocks fuel) ring more in
          drain_all-more fuel clocks ring more
          ∙ ap (put_before d.events) (ih d.left (omega (arith, left.1, h)))
          ∙ put_before-some d.events d.left ring left.0
      by_cases ih (inr done) =
          drain_all-done fuel clocks ring done ∙ ap some (none_left (clocks fuel) ring done)
