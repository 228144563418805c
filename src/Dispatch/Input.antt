-- ===== src/Dispatch/Input.antt =====
-- src/app/command_dispatch.hpp and src/util/text.hpp: the checks on what a command is given. Texts are lists of bytes.
use snapback.Prelude.{
  ℕ, zero, suc, ◌-◌, ◌≤◌, ◌≡◌, refl, ap, ◌∙◌, ◌==◌, ltb, leb, Bool, true, false, ◌&&◌, ◌||◌, List,
  [], ◌∷◌, Option, none, some, min, arith, if◌then◌else◌,
}
use snapback.Prelude.Text.{is_empty}

abbrev pub Text : Type 0
Text = List ℕ

abbrev pub is_space : ℕ → Bool
is_space c = c == 32 || c == 9 || c == 10 || c == 13 || c == 12 || c == 11

unfoldable pub trim_front : Text → Text
trim_front [] = []
trim_front (c ∷ s) = let rest = trim_front s in if is_space c then rest else c ∷ s

unfoldable pub trim_back : Text → Text
trim_back [] = []
trim_back (c ∷ s) = let rest = trim_back s in if is_empty rest && is_space c then [] else c ∷ rest

unfoldable pub trim : Text → Text
trim s = trim_back (trim_front s)

-- How far a byte moves the index: by its leading bits.
unfoldable pub width : ℕ → ℕ
width c =
    if ltb c 128
    then 1
    else if leb 192 c && ltb c 224
    then 2
    else if leb 224 c && ltb c 240
    then 3
    else if leb 240 c && ltb c 248
    then 4
    else 1

-- The loop, where `skip` bytes are still to be passed over.
unfoldable pub count_from : ℕ → Text → ℕ
count_from skip [] = 0
count_from zero (c ∷ s) = suc (count_from (width c - 1) s)
count_from (suc skip) (c ∷ s) = count_from skip s

unfoldable pub utf8_scalar_count : Text → ℕ
utf8_scalar_count s = count_from 0 s

-- `none` is one of the two exceptions.
unfoldable pub validate_required_text : Text → ℕ → Option Text
validate_required_text value max_len =
    let t = trim value in
    if is_empty t then none else if ltb max_len (utf8_scalar_count t) then none else some t

unfoldable pub validate_present : Text → ℕ → Option (Option Text)
validate_present value max_len =
    let t = trim value in
    if is_empty t
    then some none
    else if ltb max_len (utf8_scalar_count t)
    then none
    else some (some t)

unfoldable pub validate_optional_text : Option Text → ℕ → Option (Option Text)
validate_optional_text none max_len = some none
validate_optional_text (some value) max_len = validate_present value max_len

abbrev pub max_history_limit : ℕ
max_history_limit = 500

-- `limit` is what the arguments hold under that key, if anything.
unfoldable pub clamp_limit : Option ℕ → ℕ → ℕ
clamp_limit none def = min def max_history_limit
clamp_limit (some limit) def = min limit max_history_limit

trim_back_twice : (s : Text) → trim_back (trim_back s) ≡ trim_back s
unfolding trim_back is_empty
trim_back_twice [] = refl
trim_back_twice (c ∷ s) = ground (arith, trim_back_twice s)

-- A text that begins with no space.
unfoldable Starts : Text → Type 0
Starts [] = Unit
Starts (c ∷ s) = is_space c ≡ false

front_if :
    (b : Bool) (c : ℕ) (s rest : Text)
    → is_space c ≡ b
    → Starts rest
    → Starts (if b then rest else c ∷ s)
unfolding Starts
front_if true c s rest e h = h
front_if false c s rest e h = e

back_if :
    (a x : Bool) (c : ℕ) (rest : Text)
    → x ≡ false
    → Starts (c ∷ rest)
    → Starts (if a && x then [] else c ∷ rest)
back_if true true c rest e h = cc
back_if true false c rest e h = h
back_if false x c rest e h = h

trim_front-Starts : (s : Text) → Starts (trim_front s)
unfolding Starts trim_front
trim_front-Starts [] = tt
trim_front-Starts (c ∷ s) = front_if (is_space c) c s (trim_front s) refl (trim_front-Starts s)

trim_front_fixed : (s : Text) → Starts s → trim_front s ≡ s
unfolding Starts trim_front
trim_front_fixed [] h = refl
trim_front_fixed (c ∷ s) h = ground (arith, h)

trim_back-Starts : (s : Text) → Starts s → Starts (trim_back s)
unfolding Starts trim_back
trim_back-Starts [] h = tt
trim_back-Starts (c ∷ s) h = back_if (is_empty (trim_back s)) (is_space c) c (trim_back s) h h

trim_twice : (s : Text) → trim (trim s) ≡ trim s
unfolding trim
trim_twice s =
    ap trim_back (
      trim_front_fixed (trim_back (trim_front s))
        (trim_back-Starts (trim_front s) (trim_front-Starts s)))
    ∙ trim_back_twice (trim_front s)

-- A required text is accepted as it is trimmed, if that is not empty and within the limit, and refused otherwise; what was
-- accepted is accepted again, as it is.
pub validate_required_text_lem :
    (value : Text) (max_len : ℕ) (t : Text)
    → validate_required_text value max_len ≡ some t
    → (t ≡ trim value)
      × (is_empty t ≡ false)
      × (utf8_scalar_count t ≤ max_len)
      × (validate_required_text t max_len ≡ some t)
unfolding validate_required_text
validate_required_text_lem value max_len t h = ground (arith, h, trim_twice value)
