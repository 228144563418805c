-- ===== src/Engine/Pause.antt =====
-- src/app/state.cpp: how long a privacy pause lasts.
use snapback.Prelude.{
  ◌⊎◌, inl, inr, ◌≡◌, refl, ap, sym, ◌∙◌, Bool, true, false, not, List, [], ◌∷◌, some, arith,
}
use snapback.Prelude.Int.{ℤ, pos, ◌+ℤ◌, ◌<ℤ◌, ◌≤ℤ◌, int_laws}
use snapback.Wire.Laws.{some_inj}
use snapback.Engine.Privacy.{
  Privacy, minutes_ms, announce, pause_privately_for, resume_from_private_pause, set_private_mode,
  lapse_private_pause, tick_privacy,
}

-- The two clocks of a tick, and whether its save would go through.
pub record Tick : Type 0 where
  pub wall : ℤ
  pub now : ℤ
  pub saved : Bool

unfoldable pub ticks : Privacy → List Tick → Privacy
ticks s [] = s
ticks s (t ∷ ts) = ticks (tick_privacy s t.wall t.now t.saved) ts

unfoldable pub AllBefore : ℤ → List Tick → Type 0
AllBefore end [] = Unit
AllBefore end (t ∷ ts) = (t.wall <ℤ end) × AllBefore end ts

early_tick :
    (s : Privacy) (wall now : ℤ) (saved : Bool)
    → wall <ℤ s.private_until_wall_ms
    → tick_privacy s wall now saved ≡ s
unfolding tick_privacy
early_tick s wall now saved h = ground (arith, h)

early_ticks : (s : Privacy) (ts : List Tick) → AllBefore s.private_until_wall_ms ts → ticks s ts ≡ s
unfolding ticks AllBefore
early_ticks s [] h = refl
early_ticks s (t ∷ ts) h =
    ap (λ u. ticks u ts) (early_tick s t.wall t.now t.saved h.0) ∙ early_ticks s ts h.1

late_tick :
    (s : Privacy) (wall now : ℤ) (saved : Bool)
    → s.private_mode ≡ true
    → pos 0 <ℤ s.private_until_wall_ms
    → s.private_until_wall_ms ≤ℤ wall
    → s.lapse_retry_at_ms ≤ℤ now
    → (tick_privacy s wall now saved).private_mode ≡ not saved
unfolding tick_privacy lapse_private_pause
late_tick s wall now saved on some_end late retry = ground (arith, on, some_end, late, retry)

-- A pause with an end that is set stays in force through every tick before that end; the first tick behind it ends the pause if its
-- save goes through and no attempt has failed in the last half a minute, and leaves it in force if the save fails.
pub timed_pause :
    (s : Privacy) (ts : List Tick) (t : Tick)
    → s.private_mode ≡ true
    → pos 0 <ℤ s.private_until_wall_ms
    → AllBefore s.private_until_wall_ms ts
    → s.private_until_wall_ms ≤ℤ t.wall
    → s.lapse_retry_at_ms ≤ℤ t.now
    → ((ticks s ts).private_mode ≡ true)
      × ((tick_privacy (ticks s ts) t.wall t.now t.saved).private_mode ≡ not t.saved)
timed_pause s ts t on some_end early late retry = (
  ap (λ u. u.private_mode) (early_ticks s ts early) ∙ on,
  ap (λ u. (tick_privacy u t.wall t.now t.saved).private_mode) (early_ticks s ts early)
      ∙ late_tick s t.wall t.now t.saved on some_end late retry,
)

-- The privacy settings after a timed pause.
abbrev paused_until : Privacy → ℤ → Bool → Privacy
paused_until s until mode = record s { private_mode = mode; private_until_wall_ms = until }

early_announce :
    (s : Privacy) (wall : ℤ) (saved : Bool)
    → wall <ℤ s.private_until_wall_ms
    → announce s wall saved ≡ s
unfolding announce lapse_private_pause
early_announce s wall saved h = ground (arith, h)

off_announce :
    (s : Privacy) (wall : ℤ) (saved : Bool) → s.private_mode ≡ false → announce s wall saved ≡ s
unfolding announce lapse_private_pause
off_announce s wall saved h = ground (arith, h)

endless_announce :
    (s : Privacy) (wall : ℤ) (saved : Bool)
    → s.private_until_wall_ms ≡ pos 0
    → announce s wall saved ≡ s
unfolding announce lapse_private_pause
endless_announce s wall saved h = ground (arith, h)

pause_minutes :
    (s p : Privacy) (minutes wall w : ℤ) (v : Bool)
    → pos 0 <ℤ minutes
    → w <ℤ (wall +ℤ minutes_ms minutes)
    → pause_privately_for s minutes wall true w v ≡ some p
    → p ≡ paused_until s (wall +ℤ minutes_ms minutes) true
unfolding pause_privately_for
pause_minutes s p minutes wall w v h k e =
    let end = wall +ℤ minutes_ms minutes in
    let go : pause_privately_for s minutes wall true w v
        ≡ some (announce (paused_until s end true) w v) =
      ground (arith, h) in
    some_inj (sym e ∙ go) ∙ early_announce (paused_until s end true) w v k

end_IsPositive :
    (minutes wall : ℤ) → pos 0 <ℤ minutes → pos 0 ≤ℤ wall → pos 0 <ℤ (wall +ℤ minutes_ms minutes)
end_IsPositive minutes wall h k = omega (int_laws, h, k)

abbrev switched : Bool → Privacy → Privacy
switched b s = record s { private_mode = b }

switch :
    (p q : Privacy) (b : Bool) (w : ℤ) (v : Bool)
    → set_private_mode p b true w v ≡ some q
    → q ≡ announce (switched b p) w v
unfolding set_private_mode
switch p q b w v e = sym (some_inj e)

-- What is left of a timed pause that was switched off and on again in the settings.
switched_back :
    (s p q r : Privacy) (minutes wall w₁ w₂ w₃ : ℤ) (v₁ v₂ v₃ : Bool)
    → pos 0 <ℤ minutes
    → w₁ <ℤ (wall +ℤ minutes_ms minutes)
    → w₃ <ℤ (wall +ℤ minutes_ms minutes)
    → pause_privately_for s minutes wall true w₁ v₁ ≡ some p
    → set_private_mode p false true w₂ v₂ ≡ some q
    → set_private_mode q true true w₃ v₃ ≡ some r
    → r ≡ paused_until s (wall +ℤ minutes_ms minutes) true
switched_back s p q r minutes wall w₁ w₂ w₃ v₁ v₂ v₃ some_time early₁ early₃ e f g =
    let end = wall +ℤ minutes_ms minutes in
    let paused = pause_minutes s p minutes wall w₁ v₁ some_time early₁ e in
    let off =
      switch p q false w₂ v₂ f
      ∙ off_announce (switched false p) w₂ v₂ refl
      ∙ ap (switched false) paused in
    switch q r true w₃ v₃ g
    ∙ ap (λ u. announce (switched true u) w₃ v₃) off
    ∙ early_announce (paused_until s end true) w₃ v₃ early₃

endless_tick :
    (s : Privacy) (wall now : ℤ) (saved : Bool)
    → s.private_until_wall_ms ≡ pos 0
    → tick_privacy s wall now saved ≡ s
unfolding tick_privacy
endless_tick s wall now saved h = ground (arith, h)

endless_ticks : (s : Privacy) (ts : List Tick) → s.private_until_wall_ms ≡ pos 0 → ticks s ts ≡ s
unfolding ticks
endless_ticks s [] h = refl
endless_ticks s (t ∷ ts) h =
    ap (λ u. ticks u ts) (endless_tick s t.wall t.now t.saved h) ∙ endless_ticks s ts h

resume_clears :
    (s p : Privacy) (w : ℤ) (v : Bool)
    → resume_from_private_pause s true w v ≡ some p
    → p.private_until_wall_ms ≡ pos 0
unfolding resume_from_private_pause
resume_clears s p w v e =
    ap (λ u. u.private_until_wall_ms)
      (sym (some_inj e) ∙ off_announce (paused_until s (pos 0) false) w v refl)

no_minutes :
    (s p : Privacy) (wall w : ℤ) (v : Bool)
    → pause_privately_for s (pos 0) wall true w v ≡ some p
    → p.private_until_wall_ms ≡ pos 0
unfolding pause_privately_for
no_minutes s p wall w v e =
    ap (λ u. u.private_until_wall_ms)
      (sym (some_inj e) ∙ endless_announce (paused_until s (pos 0) true) w v refl)

endless_mode :
    (p q : Privacy) (ts : List Tick) (w : ℤ) (v : Bool)
    → p.private_until_wall_ms ≡ pos 0
    → set_private_mode p true true w v ≡ some q
    → (q.private_mode ≡ true) × (ticks q ts ≡ q)
endless_mode p q ts w v cleared f =
    let on = switch p q true w v f ∙ endless_announce (switched true p) w v cleared in
    (
      ap (λ u. u.private_mode) on,
      endless_ticks q ts (ap (λ u. u.private_until_wall_ms) on ∙ cleared),
    )

-- A private mode that is switched on in the settings after a pause was ended by `resume_from_private_pause`, or after a pause of no
-- minutes, stays on through every tick, whatever the clocks show and whether or not a save would go through.
endless_pause :
    (s p q : Privacy) (wall w₁ w₂ : ℤ) (v₁ v₂ : Bool) (ts : List Tick)
    → (resume_from_private_pause s true w₁ v₁ ≡ some p)
      ⊎ (pause_privately_for s (pos 0) wall true w₁ v₁ ≡ some p)
    → set_private_mode p true true w₂ v₂ ≡ some q
    → (q.private_mode ≡ true) × (ticks q ts ≡ q)
endless_pause s p q wall w₁ w₂ v₁ v₂ ts (inl e) f =
    endless_mode p q ts w₂ v₂ (resume_clears s p w₁ v₁ e) f
endless_pause s p q wall w₁ w₂ v₁ v₂ ts (inr e) f =
    endless_mode p q ts w₂ v₂ (no_minutes s p wall w₁ v₁ e) f

-- Where every save goes through: a timed pause that is switched off in the settings, and switched on there again before its end, still
-- has that end, and the first tick behind it, with no attempt waiting, switches the private mode off.
pub stale_deadline :
    (s p q r : Privacy) (minutes wall w₁ w₂ w₃ later now : ℤ) (v₁ v₂ v₃ : Bool)
    → pos 0 <ℤ minutes
    → pos 0 ≤ℤ wall
    → w₁ <ℤ (wall +ℤ minutes_ms minutes)
    → w₃ <ℤ (wall +ℤ minutes_ms minutes)
    → pause_privately_for s minutes wall true w₁ v₁ ≡ some p
    → set_private_mode p false true w₂ v₂ ≡ some q
    → set_private_mode q true true w₃ v₃ ≡ some r
    → wall +ℤ minutes_ms minutes ≤ℤ later
    → s.lapse_retry_at_ms ≤ℤ now
    → (r.private_mode ≡ true) × ((tick_privacy r later now true).private_mode ≡ false)
stale_deadline s p q r minutes wall w₁ w₂ w₃ later now v₁ v₂ v₃ some_time after early₁ early₃ e f g
      late retry =
    let end = wall +ℤ minutes_ms minutes in
    let back = switched_back s p q r minutes wall w₁ w₂ w₃ v₁ v₂ v₃ some_time early₁ early₃ e f g in
    (
      ap (λ u. u.private_mode) back,
      ap (λ u. (tick_privacy u later now true).private_mode) back
          ∙ late_tick (paused_until s end true) later now true refl
              (end_IsPositive minutes wall some_time after) late retry,
    )
