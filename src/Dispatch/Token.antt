-- ===== src/Dispatch/Token.antt =====
-- src/app/command_dispatch.hpp: the capability token, and `run_json_command`. Text is a list of bytes; the JSON library and
-- the handler are parameters.
use Prim.Native.Nat.{digits, differ, bit_or-bitwise, bit_xor-bitwise, bit_or, bit_xor}
use snapback.Prelude.{
  subst, ◌%◌, zero, suc, refl, arith, Bool-cases, inl, inr, ◌⊎◌, [], true, arith, ◌≡◌, ◌↔◌, ◌≢◌,
  max, ap, ap₂, sym, ◌∙◌, ◌/◌, ◌≤◌, ℕ, Bool, false, not, List, ◌∷◌, ◌==◌, length, if◌then◌else◌,
}

-- `difference`, from what the loop has so far.
unfoldable pub difference : ℕ → List ℕ → List ℕ → ℕ
difference d (e ∷ es) (s ∷ ss) = difference (bit_or d (bit_xor e s)) es ss
difference d _ _ = d

unfoldable pub token_matches : List ℕ → List ℕ → Bool
token_matches expected supplied =
    if length expected == 0
    then false
    else if not (length expected == length supplied)
    then false
    else difference 0 expected supplied == 0

digits_or_zero : (n a b : ℕ) → a ≤ n → digits (λ x. x) max n a b ≡ 0 → (a ≡ 0) × (b ≡ 0)
digits_or_zero zero zero b h e = (refl, e)
digits_or_zero zero (suc a) b h e = absurd (omega arith)
digits_or_zero (suc n) zero b h e = (refl, e)
digits_or_zero (suc n) (suc a) b h e =
    absurd (omega (arith, digits_or_zero n (suc a / 2) (b / 2) (omega arith) (omega (arith, e)), e))

bit_or_zero : (a b : ℕ) → bit_or a b ≡ 0 → (a ≡ 0) × (b ≡ 0)
bit_or_zero a b e = digits_or_zero a a b (omega arith) (sym (bit_or-bitwise a b) ∙ e)

differ_zero : (a b : ℕ) → differ a b ≡ 0 → a ≡ b
differ_zero zero b e = sym e
differ_zero (suc a) zero e = absurd (omega (arith, e))
differ_zero (suc a) (suc b) e = ap suc (differ_zero a b e)

differ_self : (a : ℕ) → differ a a ≡ 0
differ_self zero = refl
differ_self (suc a) = differ_self a

digits_xor_zero : (n a b : ℕ) → a ≤ n → digits (λ x. x) differ n a b ≡ 0 → a ≡ b
digits_xor_zero zero zero b h e = sym e
digits_xor_zero zero (suc a) b h e = absurd (omega arith)
digits_xor_zero (suc n) zero b h e = sym e
digits_xor_zero (suc n) (suc a) b h e = ground (
  arith,
  e,
  digits_xor_zero n (suc a / 2) (b / 2) (omega arith) (omega (arith, e)),
  differ_zero (suc a % 2) (b % 2) (omega (arith, e)),
)

digits_xor_self : (n a : ℕ) → a ≤ n → digits (λ x. x) differ n a a ≡ 0
digits_xor_self zero zero h = refl
digits_xor_self zero (suc a) h = absurd (omega arith)
digits_xor_self (suc n) zero h = refl
digits_xor_self (suc n) (suc a) h =
    omega (arith, digits_xor_self n (suc a / 2) (omega arith), differ_self (suc a % 2))

bit_xor_zero : (a b : ℕ) → bit_xor a b ≡ 0 → a ≡ b
bit_xor_zero a b e = digits_xor_zero a a b (omega arith) (sym (bit_xor-bitwise a b) ∙ e)

bit_xor_self : (a : ℕ) → bit_xor a a ≡ 0
bit_xor_self a = bit_xor-bitwise a a ∙ digits_xor_self a a (omega arith)

difference_zero :
    (d : ℕ) (es ss : List ℕ) → length es ≡ length ss → difference d es ss ≡ 0 → (d ≡ 0) × (es ≡ ss)
unfolding difference
difference_zero d [] [] l h = (h, refl)
difference_zero d [] (s ∷ ss) l h = absurd (omega (arith, l))
difference_zero d (e ∷ es) [] l h = absurd (omega (arith, l))
difference_zero d (e ∷ es) (s ∷ ss) l h =
    let (both, tails) = difference_zero (bit_or d (bit_xor e s)) es ss (omega (arith, l)) h in
    let (none_, same) = bit_or_zero d (bit_xor e s) both in
    (none_, ap₂ (λ x xs. x ∷ xs) (bit_xor_zero e s same) tails)

difference_self : (es : List ℕ) → difference 0 es es ≡ 0
unfolding difference
difference_self [] = refl
difference_self (e ∷ es) =
    ap (λ d. difference (bit_or 0 d) es es) (bit_xor_self e) ∙ difference_self es

-- The comparison that looks at every byte accepts exactly the expected token, and nothing where none is expected.
pub token_matches_iff :
    (expected supplied : List ℕ)
    → (token_matches expected supplied ≡ true) ↔ ((expected ≡ supplied) × (expected ≢ []))
unfolding token_matches
token_matches_iff expected supplied = (to, from)
  where
    to : token_matches expected supplied ≡ true → (expected ≡ supplied) × (expected ≢ [])
    to h =
        by_length (Bool-cases (length expected == 0))
          (Bool-cases (length expected == length supplied))
      where
        by_length :
            ((length expected == 0) ≡ true) ⊎ ((length expected == 0) ≡ false)
            → ((length expected == length supplied) ≡ true)
              ⊎ ((length expected == length supplied) ≡ false)
            → (expected ≡ supplied) × (expected ≢ [])
        by_length (inl empty) _ = absurd (ground (arith, h))
        by_length (inr some_) (inr apart) = absurd (ground (arith, h))
        by_length (inr some_) (inl level) = (
          (difference_zero 0 expected supplied (ground arith) (ground (arith, h))).1,
          λ e. ground (arith, ap (λ xs. length xs) e),
        )

    from : (expected ≡ supplied) × (expected ≢ []) → token_matches expected supplied ≡ true
    from (same, some_) = subst (λ s. token_matches expected s ≡ true) same (by_token expected refl)
      where
        by_token : (e : List ℕ) → expected ≡ e → token_matches expected expected ≡ true
        by_token [] eq = absurd (some_ eq)
        by_token (x ∷ xs) eq = ground (arith, difference_self expected, ap (λ l. length l) eq)
