-- ===== src/Ring/Window.antt =====
-- src/capture/ring_buffer.hpp: the items between the tail and the head, going round at the capacity.
use native.Mathlib.Nat.{add-zero, mod-add-mod, mod-eq_of_lt, mod-eq-sub-mod, mod-lt}
use snapback.Prelude.{
  update, ℕ, suc, ◌+◌, ◌-◌, ◌%◌, ◌≤◌, ◌<◌, ◌≡◌, ◌≢◌, ◌∙◌, ap, sym, List, [], ◌∷◌, ◌++◌, length,
  arith,
}
use native.Mathlib.Decide.{dec_lt}

-- `n` steps from `t` come round to `t` only at the whole capacity.
pub round : (t n c : ℕ) → t < c → 0 < n → n ≤ c → (t + n) % c ≡ t → n ≡ c
round t n c ht hn hc e = elim (dec_lt (t + n) c) [
  | yes below ↦ absurd (omega (arith, mod-eq_of_lt below, e))
  | no above ↦ omega (
    arith,
    e,
    mod-eq-sub-mod {n = t + n} {m = c} (omega arith),
    mod-eq_of_lt {n = t + n - c} {m = c} (omega arith),
  )
]

pub shift : (i n c : ℕ) → (i + suc n) % c ≡ ((i + 1) % c + n) % c
shift i n c = ap (λ m. m % c) (omega arith) ∙ sym (mod-add-mod (i + 1) c n)

pub past_ne : (i n c : ℕ) → i < c → suc n < c → (i + suc n) % c ≢ i
past_ne i n c hi hn e = omega (arith, round i (suc n) c hi (omega arith) (omega arith) e)

pub home : (i c : ℕ) → i < c → (i + 0) % c ≡ i
home i c h = ap (λ m. m % c) (add-zero i) ∙ mod-eq_of_lt h

pub full_round : (t c : ℕ) → t < c → (t + c) % c ≡ t
full_round t c h = omega (
  arith,
  mod-eq-sub-mod {n = t + c} {m = c} (omega arith),
  mod-eq_of_lt {n = t + c - c} {m = c} (omega arith),
)

module _ {A : Type 0} where
  abbrev pub Holds : (ℕ → A) → ℕ → ℕ → List A → Type 0
  Holds slots c i [] = Unit {0}
  Holds slots c i (x ∷ q) = (slots i ≡ x) × Holds slots c ((i + 1) % c) q

  pub update-ne : (slots : ℕ → A) (i j : ℕ) (v : A) → j ≢ i → update slots j v i ≡ slots i
  update-ne slots i j v h = ground arith

  -- A write just past the window leaves it alone.
  pub Holds-update :
      (slots : ℕ → A) (c i j : ℕ) (v : A) (q : List A)
      → i < c
      → length q < c
      → j ≡ (i + length q) % c
      → Holds slots c i q
      → Holds (update slots j v) c i q
  Holds-update slots c i j v [] hi hq e h = tt
  Holds-update slots c i j v (x ∷ q) hi hq e h = (
    update-ne slots i j v (λ same. past_ne i (length q) c hi hq (sym e ∙ same)) ∙ h.0,
    Holds-update slots c ((i + 1) % c) j v q (mod-lt (i + 1) (omega arith)) (omega arith)
        (e ∙ shift i (length q) c) h.1,
  )

  pub Holds-append :
      (slots : ℕ → A) (c i : ℕ) (v : A) (q : List A)
      → slots ((i + length q) % c) ≡ v
      → i < c
      → Holds slots c i q
      → Holds slots c i (q ++ v ∷ [])
  Holds-append slots c i v [] e hi h = (ap slots (sym (home i c hi)) ∙ e, tt)
  Holds-append slots c i v (x ∷ q) e hi h = (
    h.0,
    Holds-append slots c ((i + 1) % c) v q (ap slots (sym (shift i (length q) c)) ∙ e)
        (mod-lt (i + 1) (omega arith)) h.1,
  )
