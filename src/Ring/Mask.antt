-- ===== src/Ring/Mask.antt =====
-- src/capture/ring_buffer.hpp: `x & kMask`, where the capacity is a power of two.
use Prim.Native.Nat.{bit_and, digits, bit_and-bitwise, ◌^◌}
use native.Mathlib.Nat.{
  pow-suc, one-le-pow, add-mul-mod_self_right, mod-eq_of_lt, mod-lt, mod-add-div',
}
use snapback.Prelude.{
  ℕ, zero, suc, ◌+◌, ◌-◌, ◌*◌, ◌/◌, ◌%◌, ◌≤◌, ◌<◌, ◌≡◌, min, sym, ap, ◌∙◌, arith,
}

pub two_pow_pos : (k : ℕ) → 0 < 2 ^ k
two_pow_pos k = one-le-pow k 2 (omega arith)

mod_double : (x p : ℕ) → 0 < p → x % (p * 2) ≡ x / 2 % p * 2 + x % 2
mod_double x p h =
    ap (λ y. y % (p * 2)) split
    ∙ add-mul-mod_self_right (x / 2 % p * 2 + x % 2) (x / 2 / p) (p * 2)
    ∙ mod-eq_of_lt (omega (arith, mod-lt (x / 2) h))
  where
    split : x ≡ x / 2 % p * 2 + x % 2 + x / 2 / p * (p * 2)
    split = omega (arith, mod-add-div' (x / 2) p)

mask_half : (k : ℕ) → ((2 ^ suc k - 1) / 2 ≡ 2 ^ k - 1) × ((2 ^ suc k - 1) % 2 ≡ 1)
mask_half k = omega (arith, pow-suc 2 k, two_pow_pos k)

low_digit : (a : ℕ) → min (a % 2) 1 ≡ a % 2
low_digit a = omega arith

digits_mask : (n a k : ℕ) → a ≤ n → digits (λ b. zero) min n a (2 ^ k - 1) ≡ a % 2 ^ k
digits_mask zero zero k h = omega arith
digits_mask zero (suc a) k h = absurd (omega arith)
digits_mask (suc n) zero k h = omega arith
digits_mask (suc n) (suc a) zero h = omega (arith, digits_mask n (suc a / 2) zero (omega arith))
digits_mask (suc n) (suc a) (suc k) h =
    rw ((mask_half k).0, (mask_half k).1, digits_mask n (suc a / 2) k (omega arith))
      (ap (λ d. suc a / 2 % 2 ^ k * 2 + d) (low_digit (suc a))
        ∙ sym (mod_double (suc a) (2 ^ k) (two_pow_pos k))
        ∙ ap (λ m. suc a % m) (sym (pow-suc 2 k)))

-- The mask of k ones keeps a number's remainder by 2 ^ k.
pub bit_and-mask : (a k : ℕ) → bit_and a (2 ^ k - 1) ≡ a % 2 ^ k
bit_and-mask a k = bit_and-bitwise a (2 ^ k - 1) ∙ digits_mask a a k (omega arith)
