-- ===== src/Dispatch/Utf8.antt =====
-- src/app/command_dispatch.hpp: `utf8_scalar_count` at the encoding of RFC 3629.
use snapback.Prelude.{
  ℕ, suc, ◌+◌, ◌/◌, ◌%◌, ◌<◌, ◌≡◌, refl, ap, ◌∙◌, ltb, List, [], ◌∷◌, ◌++◌, length, arith,
  if◌then◌else◌,
}
use snapback.Dispatch.Input.{Text, width, count_from, utf8_scalar_count}

-- The bytes of a code point.
unfoldable pub encode : ℕ → Text
encode c =
    if ltb c 128
    then c ∷ []
    else if ltb c 2048
    then (192 + c / 64) ∷ (128 + c % 64) ∷ []
    else if ltb c 65536
    then (224 + c / 4096) ∷ (128 + c / 64 % 64) ∷ (128 + c % 64) ∷ []
    else (240 + c / 262144) ∷ (128 + c / 4096 % 64) ∷ (128 + c / 64 % 64) ∷ (128 + c % 64) ∷ []

unfoldable pub encode_all : List ℕ → Text
encode_all [] = []
encode_all (c ∷ cs) = encode c ++ encode_all cs

unfoldable pub AllScalar : List ℕ → Type 0
AllScalar [] = Unit
AllScalar (c ∷ cs) = (c < 1114112) × AllScalar cs

count_from-encode :
    (c : ℕ) (s : Text) → c < 1114112 → count_from 0 (encode c ++ s) ≡ suc (count_from 0 s)
unfolding count_from encode width
count_from-encode c s h = ground (arith, h)

-- Of the UTF-8 encoding of code points, the count is the number of the code points.
pub utf8_scalar_count-encode_all :
    (cs : List ℕ) → AllScalar cs → utf8_scalar_count (encode_all cs) ≡ length cs
unfolding utf8_scalar_count encode_all AllScalar count_from
utf8_scalar_count-encode_all [] h = refl
utf8_scalar_count-encode_all (c ∷ cs) h =
    count_from-encode c (encode_all cs) h.0 ∙ ap suc (utf8_scalar_count-encode_all cs h.1)
