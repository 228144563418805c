-- ===== src/Settings/Files.antt =====
-- src/app/settings.cpp: `load_app_settings` and `save_app_settings`, over the three files of the data directory. The JSON
-- library and the file system are parameters: what is on disk is a text, which `parse` turns into settings or not; each call of
-- the file system succeeds or fails as `Outcomes` says.
use snapback.Prelude.{Bool, true, false, Option, none, some, if◌then◌else◌, not, List, [], ◌∷◌}

-- `settings.json`, `settings.json.tmp` and `settings.json.bak`; `none` where there is no such file.
pub record Directory (T : Type 0) : Type 0 where
  pub path : Option T
  pub temp : Option T
  pub backup : Option T

-- Which calls succeed. A write that fails leaves `torn` in the staging file, or no file.
pub record Outcomes (T : Type 0) : Type 0 where
  pub directory_created : Bool
  pub temp_opened : Bool
  pub temp_written : Bool
  pub torn : T
  pub temp_synced : Bool
  pub copied : Bool
  pub copy_torn : Option T
  pub renamed : Bool
  pub directory_synced : Bool

pub data SaveError : Type 0 where
  not_created not_opened not_written not_flushed not_replaced directory_not_flushed : SaveError

module _ {S T : Type 0} (parse : T → Option S) (print : S → T) (defaults : S) where
  -- `read_settings_file`, with `existed`; a file that cannot be opened is a text that does not parse.
  unfoldable pub read_settings_file : Option T → Option S × Bool
  read_settings_file none = (none, false)
  read_settings_file (some text) = (parse text, true)

  unfoldable pub load_app_settings : Directory T → S
  load_app_settings d =
      let (settings, existed) = read_settings_file d.path in
      let (recovered, backup_existed) = read_settings_file d.backup in
      elim settings [
        | some s ↦ s
        | none ↦ if not existed then defaults else elim recovered [ some s ↦ s | none ↦ defaults ]
      ]

  -- `copy_over(path, backup)`, if there is a file to keep.
  unfoldable pub keep_backup : Outcomes T → Directory T → Directory T
  keep_backup o d = elim d.path [
    | none ↦ d
    | some text ↦ record d { backup = if o.copied then some text else o.copy_torn }
  ]

  -- The states of the directory that the save goes through, the last of them first, and how it ends.
  unfoldable pub save_steps : Outcomes T → Directory T → S → List (Directory T) × Option SaveError
  save_steps o d s =
      let opened = record d { temp = some o.torn } in
      let staged = record d { temp = some (print s) } in
      let kept = keep_backup o staged in
      let replaced = record kept { path = some (print s); temp = none } in
      if not o.directory_created
      then (d ∷ [], some not_created)
      else if not o.temp_opened
      then (d ∷ [], some not_opened)
      else if not o.temp_written
      then (opened ∷ d ∷ [], some not_written)
      else if not o.temp_synced
      then (record staged { temp = none } ∷ staged ∷ opened ∷ d ∷ [], some not_flushed)
      else if not o.renamed
      then (record kept { temp = none } ∷ kept ∷ staged ∷ opened ∷ d ∷ [], some not_replaced)
      else (
        replaced ∷ kept ∷ staged ∷ opened ∷ d ∷ [],
        if o.directory_synced then none else some directory_not_flushed,
      )

  unfoldable pub last_of : Directory T → List (Directory T) → Directory T
  last_of d [] = d
  last_of d (e ∷ es) = e

  unfoldable pub save_app_settings : Outcomes T → Directory T → S → Directory T × Option SaveError
  save_app_settings o d s = let (states, error) = save_steps o d s in (last_of d states, error)
