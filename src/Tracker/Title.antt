-- ===== src/Tracker/Title.antt =====
-- src/snapback/title_parser.cpp: the file and the project in a window's title.
use snapback.Prelude.{ℕ, List, [], ◌∷◌, Option, none, some, if◌then◌else◌}
use snapback.Prelude.Text.{codes, split_at, is_empty}

pub record TitleHints : Type 0 where
  pub file_hint : List ℕ
  pub project_hint : List ℕ

-- ` — ` with the three bytes of the dash, and ` - `.
abbrev pub dash : List ℕ
dash = 32 ∷ 226 ∷ 128 ∷ 148 ∷ 32 ∷ []

abbrev pub hyphen : List ℕ
hyphen = codes " - "

-- What stands before the next separator, or all.
unfoldable pub up_to : List ℕ → ℕ → List ℕ → List ℕ
up_to sep width s = elim (split_at sep width s) [ none ↦ s | some (before, behind) ↦ before ]

-- One round of the loop over the separators.
unfoldable pub hints_by : List ℕ → ℕ → List ℕ → Option TitleHints
hints_by sep width title = elim (split_at sep width title) [
  | none ↦ none
  | some (file, behind) ↦ some (record { file_hint = file; project_hint = up_to sep width behind })
]

unfoldable pub whole_if_empty : List ℕ → TitleHints → TitleHints
whole_if_empty title h = if is_empty h.file_hint then record h { file_hint = title } else h

unfoldable pub parse_title : List ℕ → TitleHints
parse_title title = whole_if_empty title (elim (hints_by dash 5 title) [
  | some h ↦ h
  | none ↦ elim (hints_by hyphen 3 title) [
    | some h ↦ h
    | none ↦ record { file_hint = []; project_hint = [] }
  ]
])
