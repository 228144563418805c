-- ===== src/Engine/Recording.antt =====
-- src/app/state.cpp: when the application says that it records.
use snapback.Prelude.{inr, inl, ◌⊎◌, ◌≡◌, refl, Bool, true, false, arith}
use snapback.Prelude.Int.{ℤ, pos, ◌≤ℤ◌, eqb_ℤ}
use snapback.Engine.Privacy.{
  Privacy, recording, RecordingInputs, derive_recording_state, lapse_private_pause, announce,
  recording_status,
}

-- What has to hold for the application to record.
abbrev pub MayRecord : RecordingInputs → Type 0
MayRecord i =
    (i.capture_failed ≡ false)
    × (i.capture_permitted ≡ true)
    × (i.has_active_session ≡ true)
    × (i.idle ≡ false)

derive_recording :
    (i : RecordingInputs)
    → derive_recording_state i ≡ recording
    → MayRecord i × (i.private_mode ≡ false)
unfolding derive_recording_state
derive_recording i h = ground (arith, h)

lapsed_by_save :
    (s : Privacy) (wall : ℤ) (saved : Bool)
    → s.private_mode ≡ true
    → (announce s wall saved).private_mode ≡ false
    → (s.private_until_wall_ms ≤ℤ wall)
      × (eqb_ℤ s.private_until_wall_ms (pos 0) ≡ false)
      × (saved ≡ true)
unfolding announce lapse_private_pause
lapsed_by_save s wall saved on off = ground (arith, on, off)

off_before :
    (s : Privacy) (wall : ℤ) (saved b : Bool)
    → s.private_mode ≡ b
    → (announce s wall saved).private_mode ≡ false
    → (s.private_mode ≡ false)
      ⊎ ((s.private_until_wall_ms ≤ℤ wall)
          × (eqb_ℤ s.private_until_wall_ms (pos 0) ≡ false)
          × (saved ≡ true))
off_before s wall saved false was off = inl was
off_before s wall saved true was off = inr (lapsed_by_save s wall saved was off)

-- The application says that it records only if capture works and is permitted, a session runs, the user is not idle, and no private mode
-- is on; if one was on before the call, it had an end, that end had come, and the save that ends it went through.
pub recording_is_allowed :
    (s : Privacy) (i : RecordingInputs) (wall wall_after : ℤ) (saved : Bool)
    → (recording_status s i wall saved wall_after).1 ≡ recording
    → MayRecord i
      × ((recording_status s i wall saved wall_after).0.private_mode ≡ false)
      × ((s.private_mode ≡ false)
          ⊎ ((s.private_until_wall_ms ≤ℤ wall)
              × (eqb_ℤ s.private_until_wall_ms (pos 0) ≡ false)
              × (saved ≡ true)))
unfolding recording_status
recording_is_allowed s i wall wall_after saved h =
    let d = derive_recording (record i { private_mode = (announce s wall saved).private_mode }) h in
    (d.0, d.1, off_before s wall saved s.private_mode refl d.1)
