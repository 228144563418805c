-- ===== src/Settings/Tests.antt =====
-- A directory with settings that are numbers, and the theorems at it.
use snapback.Prelude.{ℕ, zero, suc, refl, ◌≡◌, true, false, Option, none, some}
use snapback.Settings.Files.{Directory, Outcomes, load_app_settings, save_steps, save_app_settings}
use snapback.Settings.Crash.{Every, IsIntact, save_steps-IsIntact, save_after_recovery_loses}

-- a settings text is a number above zero; zero is a text that does not parse
abbrev read_number : ℕ → Option ℕ
read_number zero = none
read_number (suc n) = some n

read_number-suc : (n : ℕ) → read_number (suc n) ≡ some n
read_number-suc n = refl

abbrev sound : Outcomes ℕ
sound = record {
  directory_created = true;
  temp_opened = true;
  temp_written = true;
  torn = 0;
  temp_synced = true;
  copied = true;
  copy_torn = none;
  renamed = true;
  directory_synced = true;
}

abbrev no_rename : Outcomes ℕ
no_rename = record sound { renamed = false }

abbrev with_file : Directory ℕ
with_file = record { path = some 8; temp = none; backup = none }

abbrev damaged : Directory ℕ
damaged = record { path = some 0; temp = none; backup = some 8 }

save_steps-IsIntact_example :
    Every
      (IsIntact read_number suc 0 read_number-suc with_file 9)
      (save_steps read_number suc 0 no_rename with_file 9).0
save_steps-IsIntact_example =
    save_steps-IsIntact read_number suc 0 read_number-suc no_rename with_file 9 refl

save_after_recovery_loses_example :
    (load_app_settings read_number suc 0 damaged ≡ 7)
    × (load_app_settings read_number suc 0
          (save_app_settings read_number suc 0 no_rename damaged 9).0
        ≡ 0)
save_after_recovery_loses_example =
    save_after_recovery_loses read_number suc 0 read_number-suc no_rename damaged 9 7 0 8 refl refl
      refl refl refl refl
