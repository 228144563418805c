-- ===== src/Activation/Id.antt =====
-- src/app/activation_channel.hpp and src/app/activation_channel.cpp: the id of a data directory. `canonical` is the text that the library
-- of the language makes of a path, on Unix the whole of `canonical_key`.
use Prim.Native.Nat.{bit_xor}
use snapback.Prelude.{
  ℕ, zero, suc, ◌+◌, ◌*◌, ◌/◌, ◌%◌, ◌^◌, ◌≡◌, refl, ap, false, [], ◌∷◌, length, ltb, if◌then◌else◌,
  arith,
}
use snapback.Activation.Channel.{Text, is_break}

-- The loop of FNV-1a, on 64 bits.
unfoldable pub fnv1a_from : ℕ → Text → ℕ
fnv1a_from hash [] = hash
fnv1a_from hash (byte ∷ text) = fnv1a_from (bit_xor hash byte * 1099511628211 % 2 ^ 64) text

abbrev pub hex_digit : ℕ → ℕ
hex_digit n = if ltb n 10 then 48 + n else 87 + n

-- The lowest hexadecimal digits, the highest of them first.
unfoldable pub hex_digits : ℕ → ℕ → Text
hex_digits zero hash = []
hex_digits (suc n) hash = hex_digit (hash / 16 ^ n % 16) ∷ hex_digits n hash

unfoldable pub fnv1a_hex : Text → Text
fnv1a_hex text = hex_digits 16 (fnv1a_from 1469598103934665603 text)

unfoldable pub activation_channel_id : {D : Type 0} → (D → Text) → D → Text
activation_channel_id canonical data_dir = fnv1a_hex (canonical data_dir)

pub length-hex_digits : (n hash : ℕ) → length (hex_digits n hash) ≡ n
unfolding hex_digits
length-hex_digits zero hash = refl
length-hex_digits (suc n) hash = ap suc (length-hex_digits n hash)

pub digit_is_no_break : (n : ℕ) → is_break (hex_digit n) ≡ false
digit_is_no_break n = ground arith
