-- ===== src/Activation/Tests.antt =====
-- A second launch beside a running instance.
use snapback.Prelude.{◌∷◌, ℕ, suc, ◌≡◌, true, ◌&&◌, refl, if◌then◌else◌}
use snapback.Prelude.Text.{codes, text_eq}
use snapback.Activation.Channel.{Text, Listener, activated, refused, request_activation}
use snapback.Activation.Id.{activation_channel_id}
use snapback.Activation.Launch.{second_launch}

-- A path here is a number, and `canonical` writes it out.
abbrev canonical : ℕ → Text
canonical n = n ∷ codes "/data"

abbrev running : Listener
running = record { channel_id = activation_channel_id canonical 47; activations = 2; calls = 2 }

second_launch_example :
    let (v, result) = request_activation running (activation_channel_id canonical 47) true in
    let honoured =
      true && text_eq (activation_channel_id canonical 47) (activation_channel_id canonical 47) in
    (result ≡ (if honoured then activated else refused))
    × (v.activations ≡ (if honoured then suc 2 else 2))
    × (v.calls ≡ (if honoured then suc 2 else 2))
second_launch_example = second_launch canonical running 47 47 true refl
