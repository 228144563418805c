-- ===== src/Wire/Channels.antt =====
-- src/types.cpp and src/types.hpp: the channels of an alert and the preview mode, as JSON and back.
use snapback.Prelude.{
  if◌then◌else◌, ◌≡◌, ap, refl, ◌∙◌, Bool, true, false, List, [], ◌∷◌, map, Option, none, some,
}
use snapback.Prelude.Text.{text_eq, codes}
use snapback.Wire.Json.{named, Text, Codec, IsCodec, JsonLibrary, JsonLaws, enumeration}
use snapback.Wire.Laws.{enumeration-IsCodec}
use snapback.Alert.Routing.{
  AlertChannels, AlertPreviewMode, detailed, generic, AlertDeliverySettings,
}
use snapback.Prelude.Int.{pos}

abbrev pub channels_of : Bool → Bool → Bool → AlertChannels
channels_of in_app overlay native = record { in_app = in_app; overlay = overlay; native = native }

-- The default values of the members.
abbrev pub default_delivery : AlertDeliverySettings
default_delivery = record {
  snapback_channels = channels_of false true false;
  hyperfocus_channels = channels_of false false true;
  pomodoro_channels = channels_of true false false;
  preview = detailed;
  quiet_hours_enabled = false;
  quiet_hours_start_min = pos 1320;
  quiet_hours_end_min = pos 420;
  snoozed_until_wall_ms = pos 0;
}

-- A name that is not known leaves the channels as they are.
unfoldable pub add_channel : AlertChannels → Text → AlertChannels
add_channel c name =
    if text_eq name (codes "inApp")
    then record c { in_app = true }
    else if text_eq name (codes "overlay")
    then record c { overlay = true }
    else if text_eq name (codes "native")
    then record c { native = true }
    else c

abbrev pub named_if : Bool → Text → List Text → List Text
named_if true name rest = name ∷ rest
named_if false name rest = rest

unfoldable pub channel_names : AlertChannels → List Text
channel_names c =
    named_if c.in_app (codes "inApp")
      (named_if c.overlay (codes "overlay") (named_if c.native (codes "native") []))

unfoldable pub add_named : AlertChannels → Option Text → AlertChannels
add_named c none = c
add_named c (some name) = add_channel c name

unfoldable pub preview_as_str : AlertPreviewMode → Text
preview_as_str detailed = codes "detailed"
preview_as_str generic = codes "generic"

abbrev pub preview_names : List (AlertPreviewMode × Text)
preview_names = (detailed, codes "detailed") ∷ (generic, codes "generic") ∷ []

module _ (L : JsonLibrary) where
  unfoldable pub channels_to_json : AlertChannels → L.Json
  channels_to_json v = L.array.write (map L.text.write (channel_names v))

  unfoldable pub add_entries : AlertChannels → List L.Json → AlertChannels
  add_entries c [] = c
  add_entries c (j ∷ js) = add_entries (add_named c (L.text.read j)) js

  unfoldable pub add_array : Option (List L.Json) → AlertChannels
  add_array none = channels_of false false false
  add_array (some js) = add_entries (channels_of false false false) js

  unfoldable pub channels_from_json : L.Json → Option AlertChannels
  channels_from_json j = some (add_array (L.array.read j))

  abbrev pub channels_codec : Codec L.Json AlertChannels
  channels_codec = record { write = channels_to_json; read = channels_from_json }

  abbrev pub preview_codec : Codec L.Json AlertPreviewMode
  preview_codec = enumeration L preview_names detailed preview_as_str

  unfoldable add_names : AlertChannels → List Text → AlertChannels
  add_names c [] = c
  add_names c (s ∷ ss) = add_names (add_channel c s) ss

  module _ (laws : JsonLaws L) where
    add_entries-map :
        (c : AlertChannels) (ss : List Text) → add_entries c (map L.text.write ss) ≡ add_names c ss
    unfolding add_entries add_names add_named
    add_entries-map c [] = refl
    add_entries-map c (s ∷ ss) =
        ap (λ o. add_entries (add_named c o) (map L.text.write ss)) (laws.text_law.reads_back s)
        ∙ add_entries-map (add_channel c s) ss

    add_names-channel_names :
        (a b n : Bool)
        → add_names (channels_of false false false) (channel_names (channels_of a b n))
          ≡ channels_of a b n
    unfolding add_names channel_names add_channel text_eq
    add_names-channel_names true true true = refl
    add_names-channel_names true true false = refl
    add_names-channel_names true false true = refl
    add_names-channel_names true false false = refl
    add_names-channel_names false true true = refl
    add_names-channel_names false true false = refl
    add_names-channel_names false false true = refl
    add_names-channel_names false false false = refl

    pub channels-IsCodec : IsCodec L.is_null channels_codec
    unfolding channels_to_json channels_from_json add_array
    channels-IsCodec = record {
      is_there = λ v. laws.array_law.is_there _;
      reads_back = λ v.
          ap (λ o. some (add_array o))
            (laws.array_law.reads_back (map L.text.write (channel_names v)))
          ∙ ap some (
              add_entries-map (channels_of false false false) (channel_names v)
              ∙ add_names-channel_names v.in_app v.overlay v.native);
    }

    preview_named : (a : AlertPreviewMode) → named preview_names detailed (preview_as_str a) ≡ a
    unfolding named preview_as_str text_eq
    preview_named detailed = refl
    preview_named generic = refl

    pub preview-IsCodec : IsCodec L.is_null preview_codec
    preview-IsCodec = enumeration-IsCodec L laws preview_names detailed preview_as_str preview_named
