-- ===== src/Wire/Modes.antt =====
-- src/types.cpp and src/types.hpp: the focus mode and the goal categories, as JSON and back.
use snapback.Prelude.Text.{text_eq, codes}
use snapback.Wire.Json.{
  named, ◌>>=◌, Text, Codec, IsCodec, JsonLibrary, JsonLaws, get_or, vector, enumeration,
}
use snapback.Wire.Laws.{enumeration-IsCodec, field, vector-IsCodec}
use snapback.Tracker.AppContext.{GoalCategory}
use snapback.Engine.Guardrails.{FocusMode, normal, deep, recovery}
use snapback.Prelude.{◌≡◌, refl, List, [], ◌∷◌, Option, some}

unfoldable pub focus_mode_to_string : FocusMode → Text
focus_mode_to_string deep = codes "deep"
focus_mode_to_string recovery = codes "recovery"
focus_mode_to_string normal = codes "normal"

-- `normal` is listed first, so that it stands in for what is not known.
abbrev pub focus_mode_names : List (FocusMode × Text)
focus_mode_names =
    (normal, codes "normal") ∷ (deep, codes "deep") ∷ (recovery, codes "recovery") ∷ []

focus_mode_named : (m : FocusMode) → named focus_mode_names normal (focus_mode_to_string m) ≡ m
unfolding named focus_mode_to_string text_eq
focus_mode_named normal = refl
focus_mode_named deep = refl
focus_mode_named recovery = refl

abbrev pub focus_mode_codec : (L : JsonLibrary) → Codec L.Json FocusMode
focus_mode_codec L = enumeration L focus_mode_names normal focus_mode_to_string

pub focus_mode-IsCodec : (L : JsonLibrary) → JsonLaws L → IsCodec L.is_null (focus_mode_codec L)
focus_mode-IsCodec L laws =
    enumeration-IsCodec L laws focus_mode_names normal focus_mode_to_string focus_mode_named

module _ (L : JsonLibrary) where
  unfoldable pub category_to_json : GoalCategory → L.Json
  category_to_json v =
      L.object
        (("name", L.text.write v.name) ∷ ("keywords", (vector L L.text).write v.keywords) ∷ [])

  unfoldable pub category_from_json : L.Json → Option GoalCategory
  category_from_json j = do
    name ← get_or L L.text j "name" (codes "")
    keywords ← get_or L (vector L L.text) j "keywords" []
    some (record { name = name; keywords = keywords })

  abbrev pub category_codec : Codec L.Json GoalCategory
  category_codec = record { write = category_to_json; read = category_from_json }

  module _ (laws : JsonLaws L) where
    pub category-IsCodec : IsCodec L.is_null category_codec
    unfolding category_to_json category_from_json
    category-IsCodec = record {
      is_there = λ v. laws.object_law _;
      reads_back = λ v. field L laws L.text laws.text_law _ "name" _ _ refl (
          field L laws (vector L L.text) (vector-IsCodec L laws L.text laws.text_law) _ "keywords" _
            _ refl refl);
    }

abbrev pub categories_codec : (L : JsonLibrary) → Codec L.Json (List GoalCategory)
categories_codec L = vector L (category_codec L)

pub categories-IsCodec :
    (L : JsonLibrary) (laws : JsonLaws L) → IsCodec L.is_null (categories_codec L)
categories-IsCodec L laws = vector-IsCodec L laws (category_codec L) (category-IsCodec L laws)
