-- ===== src/Wire/Delivery.antt =====
-- src/types.cpp and src/types.hpp: when and how the application may interrupt, as JSON and back.
use snapback.Prelude.{
  ◌&&◌, if◌then◌else◌, subst, arith, ◌≡◌, ap, refl, Bool, false, [], ◌∷◌, Option, some,
}
use snapback.Prelude.Int.{◌≤ℤ◌, ◌<ℤ◌, leb_ℤ, ltb_ℤ, max_ℤ, ℤ, pos}
use snapback.Wire.Laws.{bind-some, some_inj, field}
use snapback.Wire.Channels.{
  default_delivery, channels_codec, channels-IsCodec, preview_codec, preview-IsCodec,
}
use snapback.Alert.Routing.{AlertDeliverySettings}
use snapback.Wire.Json.{◌>>=◌, Codec, JsonLibrary, JsonLaws, get_or}

-- A minute of a day that is none gives way to the default, and a snooze is no negative instant.
unfoldable pub in_day : ℤ → Bool
in_day minute = leb_ℤ (pos 0) minute && ltb_ℤ minute (pos 1440)

unfoldable pub check_delivery : AlertDeliverySettings → AlertDeliverySettings
check_delivery v = record v {
  quiet_hours_start_min =
      if in_day v.quiet_hours_start_min
      then v.quiet_hours_start_min
      else default_delivery.quiet_hours_start_min;
  quiet_hours_end_min =
      if in_day v.quiet_hours_end_min
      then v.quiet_hours_end_min
      else default_delivery.quiet_hours_end_min;
  snoozed_until_wall_ms = max_ℤ (pos 0) v.snoozed_until_wall_ms;
}

pub record IsInDay (v : AlertDeliverySettings) : Type 0 where
  pub start : (pos 0 ≤ℤ v.quiet_hours_start_min) × (v.quiet_hours_start_min <ℤ pos 1440)
  pub end : (pos 0 ≤ℤ v.quiet_hours_end_min) × (v.quiet_hours_end_min <ℤ pos 1440)
  pub snooze : pos 0 ≤ℤ v.snoozed_until_wall_ms

check_delivery-IsInDay : (v : AlertDeliverySettings) → IsInDay (check_delivery v)
unfolding check_delivery in_day
check_delivery-IsInDay v = record {
  start = ground arith;
  end = ground arith;
  snooze = ground arith;
}

unchanged-IsInDay : (v : AlertDeliverySettings) → IsInDay v → check_delivery v ≡ v
unfolding check_delivery in_day
unchanged-IsInDay v h = ground (arith, h.start, h.end, h.snooze)

module _ (L : JsonLibrary) where
  unfoldable pub delivery_to_json : AlertDeliverySettings → L.Json
  delivery_to_json v = L.object (
      ("snapback", (channels_codec L).write v.snapback_channels)
      ∷ ("hyperfocus", (channels_codec L).write v.hyperfocus_channels)
      ∷ ("pomodoro", (channels_codec L).write v.pomodoro_channels)
      ∷ ("preview", (preview_codec L).write v.preview)
      ∷ ("quietHoursEnabled", L.boolean.write v.quiet_hours_enabled)
      ∷ ("quietHoursStartMin", L.integer.write v.quiet_hours_start_min)
      ∷ ("quietHoursEndMin", L.integer.write v.quiet_hours_end_min)
      ∷ ("snoozedUntilWallMs", L.integer.write v.snoozed_until_wall_ms)
      ∷ [])

  unfoldable pub delivery_from_json : L.Json → Option AlertDeliverySettings
  delivery_from_json j = do
    snapback_channels ← get_or L (channels_codec L) j "snapback" default_delivery.snapback_channels
    hyperfocus_channels ←
        get_or L (channels_codec L) j "hyperfocus" default_delivery.hyperfocus_channels
    pomodoro_channels ← get_or L (channels_codec L) j "pomodoro" default_delivery.pomodoro_channels
    preview ← get_or L (preview_codec L) j "preview" default_delivery.preview
    quiet_hours_enabled ← get_or L L.boolean j "quietHoursEnabled" false
    quiet_hours_start_min ←
        get_or L L.integer j "quietHoursStartMin" default_delivery.quiet_hours_start_min
    quiet_hours_end_min ←
        get_or L L.integer j "quietHoursEndMin" default_delivery.quiet_hours_end_min
    snoozed_until_wall_ms ← get_or L L.integer j "snoozedUntilWallMs" (pos 0)
    some (
        check_delivery (record {
          snapback_channels = snapback_channels;
          hyperfocus_channels = hyperfocus_channels;
          pomodoro_channels = pomodoro_channels;
          preview = preview;
          quiet_hours_enabled = quiet_hours_enabled;
          quiet_hours_start_min = quiet_hours_start_min;
          quiet_hours_end_min = quiet_hours_end_min;
          snoozed_until_wall_ms = snoozed_until_wall_ms;
        }))

  abbrev pub delivery_codec : Codec L.Json AlertDeliverySettings
  delivery_codec = record { write = delivery_to_json; read = delivery_from_json }

  module _ (laws : JsonLaws L) where
    pub delivery_is_there : (v : AlertDeliverySettings) → L.is_null (delivery_to_json v) ≡ false
    unfolding delivery_to_json
    delivery_is_there v = laws.object_law _

    pub delivery_reads_back :
        (v : AlertDeliverySettings) → IsInDay v → delivery_from_json (delivery_to_json v) ≡ some v
    unfolding delivery_to_json delivery_from_json
    delivery_reads_back v h =
        field L laws (channels_codec L) (channels-IsCodec L laws) _ "snapback" _ _ refl (
          field L laws (channels_codec L) (channels-IsCodec L laws) _ "hyperfocus" _ _ refl (
            field L laws (channels_codec L) (channels-IsCodec L laws) _ "pomodoro" _ _ refl (
              field L laws (preview_codec L) (preview-IsCodec L laws) _ "preview" _ _ refl (
                field L laws L.boolean laws.boolean_law _ "quietHoursEnabled" _ _ refl (
                  field L laws L.integer laws.integer_law _ "quietHoursStartMin" _ _ refl (
                    field L laws L.integer laws.integer_law _ "quietHoursEndMin" _ _ refl (
                      field L laws L.integer laws.integer_law _ "snoozedUntilWallMs" _ _ refl
                        (ap some (unchanged-IsInDay v h)))))))))

  pub delivery_from_json-IsInDay :
      (j : L.Json) (v : AlertDeliverySettings) → delivery_from_json j ≡ some v → IsInDay v
  unfolding delivery_from_json
  delivery_from_json-IsInDay j v h =
      let (snapback_channels, e0, h0) = bind-some h in
      let (hyperfocus_channels, e1, h1) = bind-some h0 in
      let (pomodoro_channels, e2, h2) = bind-some h1 in
      let (preview, e3, h3) = bind-some h2 in
      let (quiet_hours_enabled, e4, h4) = bind-some h3 in
      let (quiet_hours_start_min, e5, h5) = bind-some h4 in
      let (quiet_hours_end_min, e6, h6) = bind-some h5 in
      let (snoozed_until_wall_ms, e7, h7) = bind-some h6 in
      subst IsInDay (some_inj h7) (check_delivery-IsInDay _)
