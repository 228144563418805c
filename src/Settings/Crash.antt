-- ===== src/Settings/Crash.antt =====
-- src/app/settings.cpp: what a load finds behind a save that went through, failed, or was cut off anywhere.
use snapback.Prelude.{
  not, ◌&&◌, if◌then◌else◌, Bool, true, false, ◌≡◌, ◌⊎◌, inl, inr, refl, Option, none, some, List,
  [], ◌∷◌, arith, Option-cases,
}
use snapback.Settings.Files.{
  Directory, Outcomes, SaveError, read_settings_file, load_app_settings, keep_backup, save_steps,
  last_of, save_app_settings,
}

unfoldable pub Every : {A : Type 0} → (A → Type 0) → List A → Type 0
Every P [] = Unit
Every P (x ∷ xs) = P x × Every P xs

-- Of either branch of a test.
of_if : {A : Type 0} (P : A → Type 0) (b : Bool) (x y : A) → P x → P y → P (if b then x else y)
of_if P true x y p q = p
of_if P false x y p q = q

-- No file at all, or one that can be read.
abbrev pub is_usable : {S T : Type 0} → (T → Option S) → Option T → Bool
is_usable parse none = true
is_usable parse (some text) = elim (parse text) [ none ↦ false | some s ↦ true ]

module _ {S T : Type 0} (parse : T → Option S) (print : S → T) (defaults : S)
    (parse-print : (s : S) → parse (print s) ≡ some s) where
  -- A save that reports no error is what the next load finds.
  pub load-save :
      (o : Outcomes T) (d : Directory T) (s : S)
      → (save_app_settings parse print defaults o d s).1 ≡ none
      → load_app_settings parse print defaults (save_app_settings parse print defaults o d s).0 ≡ s
  unfolding save_app_settings save_steps last_of load_app_settings read_settings_file
  load-save o d s saved = ground (arith, parse-print s)

  -- What a load finds in a directory whose main file is the old one, or the whole new one.
  abbrev pub IsIntact : Directory T → S → Directory T → Type 0
  IsIntact d s e =
      (load_app_settings parse print defaults e ≡ load_app_settings parse print defaults d)
      ⊎ (load_app_settings parse print defaults e ≡ s)

  unchanged-IsIntact :
      (d e : Directory T) (s : S) → is_usable parse d.path ≡ true → e.path ≡ d.path → IsIntact d s e
  unfolding load_app_settings read_settings_file
  unchanged-IsIntact d e s usable same = inl (by_path (Option-cases d.path))
    where
      by_path :
          (d.path ≡ none) ⊎ ((t : T) × (d.path ≡ some t))
          → load_app_settings parse print defaults e ≡ load_app_settings parse print defaults d
      by_path (inl gone) = ground (arith, same)
      by_path (inr (t, there)) = ground (arith, same)

  replaced-IsIntact : (d e : Directory T) (s : S) → e.path ≡ some (print s) → IsIntact d s e
  unfolding load_app_settings read_settings_file
  replaced-IsIntact d e s new = inr (ground (arith, parse-print s))

  keep_backup-path :
      (o : Outcomes T) (d : Directory T) → (keep_backup parse print defaults o d).path ≡ d.path
  unfolding keep_backup
  keep_backup-path o d = ground arith

  -- Wherever a save is cut off, and whatever call of it fails, the next load finds the old settings or the new ones, if the main
  -- file was usable or there was none.
  pub save_steps-IsIntact :
      (o : Outcomes T) (d : Directory T) (s : S)
      → is_usable parse d.path ≡ true
      → Every (IsIntact d s) (save_steps parse print defaults o d s).0
  unfolding save_steps Every
  save_steps-IsIntact o d s usable =
      of_if P (not o.directory_created) _ _ (old, tt)
        (of_if P (not o.temp_opened) _ _ (old, tt)
          (of_if P (not o.temp_written) _ _ (same (some o.torn) d.backup, (old, tt))
            (of_if P (not o.temp_synced) _ _
              (same none d.backup, (staged, (same (some o.torn) d.backup, (old, tt))))
              (of_if P (not o.renamed) _ _
                (kept_without, (kept, (staged, (same (some o.torn) d.backup, (old, tt)))))
                (replaced, (kept, (staged, (same (some o.torn) d.backup, (old, tt)))))))))
    where
      P : List (Directory T) × Option SaveError → Type 0
      P r = Every (IsIntact d s) r.0

      same :
          (temp backup : Option T)
          → IsIntact d s (record { path = d.path; temp = temp; backup = backup })
      same temp backup = unchanged-IsIntact d _ s usable refl

      old : IsIntact d s d
      old = unchanged-IsIntact d d s usable refl

      next : Directory T
      next = record d { temp = some (print s) }

      staged : IsIntact d s next
      staged = same (some (print s)) d.backup

      kept : IsIntact d s (keep_backup parse print defaults o next)
      kept = unchanged-IsIntact d _ s usable (keep_backup-path o next)

      kept_without : IsIntact d s (record (keep_backup parse print defaults o next) { temp = none })
      kept_without = unchanged-IsIntact d _ s usable (keep_backup-path o next)

      replaced :
          IsIntact d s (record (keep_backup parse print defaults o next) {
            path = some (print s);
            temp = none;
          })
      replaced = replaced-IsIntact d _ s refl

  -- With a damaged main file and a good backup a load recovers the settings of the backup; a save after it
  -- that gets as far as copying the file over the backup, and whose rename fails, leaves a directory that
  -- loads as the defaults.
  pub save_after_recovery_loses :
      (o : Outcomes T) (d : Directory T) (s old : S) (bad good : T)
      → d.path ≡ some bad
      → parse bad ≡ none
      → d.backup ≡ some good
      → parse good ≡ some old
      → (o.directory_created && o.temp_opened && o.temp_written && o.temp_synced && o.copied) ≡ true
      → o.renamed ≡ false
      → (load_app_settings parse print defaults d ≡ old)
        × (load_app_settings parse print defaults (save_app_settings parse print defaults o d s).0
            ≡ defaults)
  unfolding save_app_settings save_steps last_of keep_backup load_app_settings read_settings_file
  save_after_recovery_loses o d s old bad good at torn backup whole through failed =
      ground (arith, torn, whole)
