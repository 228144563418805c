-- ===== src/Wire/Dialog.antt =====
-- src/types.cpp: the choice of a file, as JSON and back.
use snapback.Prelude.{refl, List, [], ◌∷◌, Option, some}
use snapback.Prelude.Text.{codes}
use snapback.Wire.Json.{◌>>=◌, Text, Codec, IsCodec, JsonLibrary, JsonLaws, get_or, vector}
use snapback.Wire.Laws.{field, vector-IsCodec}

pub record FileDialogFilter : Type 0 where
  pub name : Text
  pub pattern : Text

module _ (L : JsonLibrary) where
  unfoldable pub filter_to_json : FileDialogFilter → L.Json
  filter_to_json v =
      L.object (("name", L.text.write v.name) ∷ ("pattern", L.text.write v.pattern) ∷ [])

  unfoldable pub filter_from_json : L.Json → Option FileDialogFilter
  filter_from_json j = do
    name ← get_or L L.text j "name" (codes "")
    pattern ← get_or L L.text j "pattern" (codes "")
    some (record { name = name; pattern = pattern })

  abbrev pub filter_codec : Codec L.Json FileDialogFilter
  filter_codec = record { write = filter_to_json; read = filter_from_json }

  module _ (laws : JsonLaws L) where
    pub filter-IsCodec : IsCodec L.is_null filter_codec
    unfolding filter_to_json filter_from_json
    filter-IsCodec = record {
      is_there = λ v. laws.object_law _;
      reads_back = λ v.
          field L laws L.text laws.text_law _ "name" _ _ refl
            (field L laws L.text laws.text_law _ "pattern" _ _ refl refl);
    }

pub record FileDialogOptions : Type 0 where
  pub title : Text
  pub default_path : Text
  pub default_name : Text
  pub filters : List FileDialogFilter

module _ (L : JsonLibrary) where
  unfoldable pub dialog_to_json : FileDialogOptions → L.Json
  dialog_to_json v = L.object (
      ("title", L.text.write v.title)
      ∷ ("defaultPath", L.text.write v.default_path)
      ∷ ("defaultName", L.text.write v.default_name)
      ∷ ("filters", (vector L (filter_codec L)).write v.filters)
      ∷ [])

  unfoldable pub dialog_from_json : L.Json → Option FileDialogOptions
  dialog_from_json j = do
    title ← get_or L L.text j "title" (codes "")
    default_path ← get_or L L.text j "defaultPath" (codes "")
    default_name ← get_or L L.text j "defaultName" (codes "")
    filters ← get_or L (vector L (filter_codec L)) j "filters" []
    some (record {
      title = title;
      default_path = default_path;
      default_name = default_name;
      filters = filters;
    })

  abbrev pub dialog_codec : Codec L.Json FileDialogOptions
  dialog_codec = record { write = dialog_to_json; read = dialog_from_json }

  module _ (laws : JsonLaws L) where
    pub dialog-IsCodec : IsCodec L.is_null dialog_codec
    unfolding dialog_to_json dialog_from_json
    dialog-IsCodec = record {
      is_there = λ v. laws.object_law _;
      reads_back = λ v. field L laws L.text laws.text_law _ "title" _ _ refl (
          field L laws L.text laws.text_law _ "defaultPath" _ _ refl (
            field L laws L.text laws.text_law _ "defaultName" _ _ refl (
              field L laws (vector L (filter_codec L))
                (vector-IsCodec L laws (filter_codec L) (filter-IsCodec L laws)) _ "filters" _ _
                refl refl)));
    }
