-- ===== src/Ring/Calls.antt =====
-- src/capture/ring_buffer.hpp: a whole call of `push` or `pop` is its accesses with nothing between.
use snapback.Prelude.{
  Option-cases, List, Bool, Option, ℕ, ◌≡◌, refl, true, false, none, some, [], ◌∷◌, ◌==◌,
  Bool-cases, inl, inr, ltb,
}
use snapback.Ring.Buffer.{
  System, Turn, Event, RingBuffer, push, pop, mask, add_size, sub_size, Producer, ready, Consumer,
  waiting, pushed, refused, popped, found_empty, produce_from, produce, consume_from, consume,
  producer_turn, consumer_turn, step, run,
}

-- The accesses of a call of `push` that accepts or refuses.
abbrev push_turns : {A : Type 0} → A → Bool → List (Turn A)
push_turns v true = let t = producer_turn v in t ∷ t ∷ t ∷ t ∷ t ∷ []
push_turns v false = producer_turn v ∷ producer_turn v ∷ []

abbrev push_event : {A : Type 0} → A → Bool → Event A
push_event v true = pushed v
push_event v false = refused v

abbrev pop_turns : {A : Type 0} → Option A → List (Turn A)
pop_turns (some w) = consumer_turn ∷ consumer_turn ∷ consumer_turn ∷ consumer_turn ∷ []
pop_turns none = consumer_turn ∷ consumer_turn ∷ []

abbrev pop_event : {A : Type 0} → Option A → Event A
pop_event (some w) = popped w
pop_event none = found_empty

push_cases :
    {A : Type 0} (k : ℕ) (b : RingBuffer A) (v : A) (c : Consumer A)
    → let s : System A = record { buffer = b; producer = ready; consumer = c } in
      ((push k b v).1 ≡ true
        → run k s (push_turns v true)
          ≡ (record { buffer = (push k b v).0; producer = ready; consumer = c }, pushed v ∷ []))
      × ((push k b v).1 ≡ false
          → run k s (push_turns v false)
            ≡ (record { buffer = (push k b v).0; producer = ready; consumer = c }, refused v ∷ []))
unfolding push run step produce produce_from
push_cases k b v c = elim (Bool-cases (mask k (add_size b.head 1) == b.tail)) [
  | inl full ↦ rw full (λ e. absurd (cc), λ e. refl)
  | inr free ↦
      elim (Bool-cases (ltb b.high_water (mask k (sub_size (mask k (add_size b.head 1)) b.tail)))) [
        | inl higher ↦ rw (free, higher) (λ e. refl, λ e. absurd (cc))
        | inr lower ↦ rw (free, lower) (λ e. refl, λ e. absurd (cc))
      ]
]

-- The accesses that a push makes when nothing comes between them, five if it accepts and two if it refuses, leave the buffer that
-- `push` leaves and tell its outcome.
pub push_accesses :
    {A : Type 0} (k : ℕ) (b : RingBuffer A) (v : A) (c : Consumer A)
    → run k (record { buffer = b; producer = ready; consumer = c }) (push_turns v (push k b v).1)
      ≡ (
        record { buffer = (push k b v).0; producer = ready; consumer = c },
        push_event v (push k b v).1 ∷ [],
      )
push_accesses k b v c = elim (Bool-cases (push k b v).1) [
  | inl went ↦ rw went ((push_cases k b v c).0 went)
  | inr held ↦ rw held ((push_cases k b v c).1 held)
]

pop_cases :
    {A : Type 0} (k : ℕ) (b : RingBuffer A) (p : Producer A)
    → let s : System A = record { buffer = b; producer = p; consumer = waiting } in
      ((w : A)
        → (pop k b).1 ≡ some w
        → run k s (pop_turns (some w))
          ≡ (record { buffer = (pop k b).0; producer = p; consumer = waiting }, popped w ∷ []))
      × ((pop k b).1 ≡ none
          → run k s (pop_turns {A = A} none)
            ≡ (record { buffer = (pop k b).0; producer = p; consumer = waiting }, found_empty ∷ []))
unfolding pop run step consume consume_from
pop_cases k b p = elim (Bool-cases (b.tail == b.head)) [
  | inl empty ↦ rw empty (λ w e. absurd (cc), λ e. refl)
  | inr some_ ↦ rw some_ (λ w e. cc, λ e. absurd (cc))
]

-- So for `pop`: four accesses take the oldest item out, or two find the buffer empty.
pub pop_accesses :
    {A : Type 0} (k : ℕ) (b : RingBuffer A) (p : Producer A)
    → run k (record { buffer = b; producer = p; consumer = waiting }) (pop_turns (pop k b).1) ≡ (
      record { buffer = (pop k b).0; producer = p; consumer = waiting },
      pop_event (pop k b).1 ∷ [],
    )
pop_accesses k b p = elim (Option-cases (pop k b).1) [
  | inl gone ↦ rw gone ((pop_cases k b p).1 gone)
  | inr (w, got) ↦ rw got ((pop_cases k b p).0 w got)
]
