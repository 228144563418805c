-- ===== src/Ring/Tests.antt =====
-- Interleavings of a buffer of four slots, and the theorems at them.
use snapback.Prelude.{ℕ, ◌≡◌, refl, List, [], ◌∷◌, arith}
use snapback.Ring.Buffer.{
  admitted, occupied, System, pushed, popped, found_empty, produce_from, produce, consume_from,
  consume, Turn, producer_turn, consumer_turn, step, run, fresh,
}
use snapback.Ring.Represents.{ServesAll, Represents}
use snapback.Ring.Linear.{run-ServesAll, fresh-Represents}

abbrev p : ℕ → Turn ℕ
p v = producer_turn v

abbrev c : Turn ℕ
c = consumer_turn

-- two pushes and a pop, their accesses mixed
abbrev mixed : List (Turn ℕ)
mixed = c ∷ c ∷ p 7 ∷ p 7 ∷ p 7 ∷ c ∷ p 7 ∷ c ∷ p 7 ∷ p 8 ∷ c ∷ p 8 ∷ p 8 ∷ c ∷ p 8 ∷ []

mixed_events : (run 2 (fresh 0) mixed).1 ≡ found_empty ∷ pushed 7 ∷ popped 7 ∷ pushed 8 ∷ []
unfolding run step produce produce_from consume consume_from fresh
mixed_events = refl

run-ServesAll_example :
    (r : List ℕ) × ServesAll 4 [] (run 2 (fresh 0) mixed).1 r
    × Represents 4 (run 2 (fresh 0) mixed).0 r
run-ServesAll_example =
    run-ServesAll 2 (omega arith) mixed (fresh 0) [] (fresh-Represents 2 (omega arith) 0)

abbrev busy : System ℕ
busy = record {
  buffer = record { slots = λ i. 7; head = 1; high_water = 1; tail = 0 };
  producer = admitted 8 1 0;
  consumer = occupied 0;
}
