-- ===== src/Ring/Represents.antt =====
-- src/capture/ring_buffer.hpp: what a buffer shared by two threads stands for: a bounded queue.
use native.Mathlib.Nat.{mod-add-mod, mod-eq_of_lt, pow-le-pow_right}
use snapback.Prelude.{
  update, Bool, ℕ, suc, ◌+◌, ◌%◌, ◌^◌, ◌≤◌, ◌<◌, ◌≡◌, ◌≢◌, refl, ◌∙◌, ap, subst, List, [], ◌∷◌,
  ◌++◌, length, arith, Option, none, some, true, false,
}
use snapback.Ring.Mask.{bit_and-mask}
use snapback.Ring.Window.{Holds, round, update-ne}
use snapback.Ring.Buffer.{
  log, add_size, mask, Producer, ready, at_head, admitted, filled, published, Consumer, waiting,
  at_tail, occupied, took, System, Event, pushed, refused, popped, found_empty,
}

-- A first-in first-out queue of at most `cap` - 1 items.
abbrev pub Serves : {A : Type 0} → ℕ → List A → Option (Event A) → List A → Type 0
Serves cap q none r = r ≡ q
Serves cap q (some (pushed v)) r = (suc (length q) < cap) × (r ≡ q ++ v ∷ [])
Serves cap q (some (refused v)) r = (suc (length q) ≡ cap) × (r ≡ q)
Serves cap q (some (popped v)) r = q ≡ v ∷ r
Serves cap q (some found_empty) r = (q ≡ []) × (r ≡ [])

abbrev pub ServesAll : {A : Type 0} → ℕ → List A → List (Event A) → List A → Type 0
ServesAll cap q [] r = r ≡ q
ServesAll {A} cap q (e ∷ es) r = (m : List A) × Serves cap q (some e) m × ServesAll cap m es r

module _ {A : Type 0} where
  abbrev pub ProducerFits : ℕ → (ℕ → A) → ℕ → ℕ → Producer A → Type 0
  ProducerFits cap slots head n ready = Unit {0}
  ProducerFits cap slots head n (at_head v i) = i ≡ head
  ProducerFits cap slots head n (admitted v i t) = (i ≡ head) × (suc n < cap)
  ProducerFits cap slots head n (filled v i t) = (i ≡ head) × (suc n < cap) × (slots i ≡ v)
  ProducerFits cap slots head n (published i t) = Unit {0}

  abbrev pub ConsumerFits : (ℕ → A) → ℕ → ℕ → Consumer A → Type 0
  ConsumerFits slots tail n waiting = Unit {0}
  ConsumerFits slots tail n (at_tail t) = t ≡ tail
  ConsumerFits slots tail n (occupied t) = (t ≡ tail) × (0 < n)
  ConsumerFits slots tail n (took t v) = (t ≡ tail) × (0 < n) × (slots t ≡ v)

-- The buffer holds the queue from its tail to its head, and each thread's loads are still good.
pub record Represents {A : Type 0} (cap : ℕ) (s : System A) (q : List A) : Type 0 where
  pub room : length q < cap
  pub tail_in : s.buffer.tail < cap
  pub head_at : s.buffer.head ≡ (s.buffer.tail + length q) % cap
  pub held : Holds s.buffer.slots cap s.buffer.tail q
  pub producer_fits : ProducerFits cap s.buffer.slots s.buffer.head (length q) s.producer
  pub consumer_fits : ConsumerFits s.buffer.slots s.buffer.tail (length q) s.consumer

-- One access, and what it means for the queue.
abbrev pub Linear : {A : Type 0} → ℕ → List A → System A × Option (Event A) → Type 0
Linear {A} cap q (s, e) = (r : List A) × Serves cap q e r × Represents cap s r

module _ {A : Type 0} where
  pub ConsumerFits-update :
      (slots : ℕ → A) (tail n i : ℕ) (v : A) (c : Consumer A)
      → (0 < n → i ≢ tail)
      → ConsumerFits slots tail n c
      → ConsumerFits (update slots i v) tail n c
  ConsumerFits-update slots tail n i v waiting apart h = tt
  ConsumerFits-update slots tail n i v (at_tail t) apart h = h
  ConsumerFits-update slots tail n i v (occupied t) apart h = h
  ConsumerFits-update slots tail n i v (took t w) apart h =
      (h.0, h.1, update-ne slots t i v (λ e. apart h.1 (e ∙ h.0)) ∙ h.2)

  pub ConsumerFits-grow :
      (slots : ℕ → A) (tail m n : ℕ) (c : Consumer A)
      → m ≤ n
      → ConsumerFits slots tail m c
      → ConsumerFits slots tail n c
  ConsumerFits-grow slots tail m n waiting le h = tt
  ConsumerFits-grow slots tail m n (at_tail t) le h = h
  ConsumerFits-grow slots tail m n (occupied t) le h = (h.0, omega (arith, h.1))
  ConsumerFits-grow slots tail m n (took t v) le h = (h.0, omega (arith, h.1), h.2)

  pub ProducerFits-shrink :
      (cap : ℕ) (slots : ℕ → A) (head n : ℕ) (p : Producer A)
      → ProducerFits cap slots head (suc n) p
      → ProducerFits cap slots head n p
  ProducerFits-shrink cap slots head n ready h = tt
  ProducerFits-shrink cap slots head n (at_head v i) h = h
  ProducerFits-shrink cap slots head n (admitted v i t) h = (h.0, omega (arith, h.1))
  ProducerFits-shrink cap slots head n (filled v i t) h = (h.0, omega (arith, h.1), h.2)
  ProducerFits-shrink cap slots head n (published i t) h = tt

  pub update_self : (slots : ℕ → A) (i : ℕ) (v : A) → update slots i v i ≡ v
  update_self slots i v = ground arith

  pub empty_of_length : (q : List A) → ¬ (0 < length q) → q ≡ []
  empty_of_length [] h = refl
  empty_of_length (x ∷ q) h = absurd (h (omega arith))

pub absurd_test : {b : Bool} → b ≡ false → b ≡ true → ⊥
absurd_test p q = cc

pub log-ServesAll :
    {A : Type 0} (cap : ℕ) (q m r : List A) (e : Option (Event A)) (es : List (Event A))
    → Serves cap q e m
    → ServesAll cap m es r
    → ServesAll cap q (log e es) r
log-ServesAll cap q m r none es one rest = subst (λ p. ServesAll cap p es r) one rest
log-ServesAll cap q m r (some e) es one rest = (m, one, rest)

pub next_at : (c t n h : ℕ) → h ≡ (t + n) % c → (h + 1) % c ≡ (t + suc n) % c
next_at c t n h e =
    ap (λ m. (m + 1) % c) e ∙ mod-add-mod (t + n) c 1 ∙ ap (λ m. m % c) (omega arith)

pub apart_of_pos : (c t n : ℕ) → t < c → n < c → 0 < n → (t + n) % c ≢ t
apart_of_pos c t n ht hn pos e = omega (arith, round t n c ht pos (omega arith) e)

pub next_mod : (k : ℕ) → k ≤ 63 → (i : ℕ) → i < 2 ^ k → mask k (add_size i 1) ≡ (i + 1) % 2 ^ k
next_mod k small i h =
    bit_and-mask (add_size i 1) k
    ∙ ap (λ m. m % 2 ^ k)
        (mod-eq_of_lt {n = i + 1} {m = 2 ^ 64}
          (omega (arith, pow-le-pow_right {n = 2} (omega arith) small)))
