-- ===== src/Wake/Writers.antt =====
-- src/util/writer_priority.hpp: writers that announce themselves, and readers that let them go first.
use snapback.Prelude.{
  ℕ, zero, suc, ◌+◌, ◌-◌, ◌≡◌, Bool, true, false, List, [], ◌∷◌, ltb, if◌then◌else◌, arith, Option,
  none, some,
}

-- `waiting_`, and for each announcement whether it still points at the gate.
pub record WriterPriority : Type 0 where
  pub waiting : ℕ
  pub announced : List Bool

unfoldable pub new_gate : WriterPriority
new_gate = record { waiting = 0; announced = [] }

-- `Announce(gate)`.
unfoldable pub announce : WriterPriority → WriterPriority
announce g = record { waiting = g.waiting + 1; announced = true ∷ g.announced }

-- Whether the announcement at a place points at the gate, and the announcements with it taken back.
unfoldable pub points : List Bool → ℕ → Bool
points [] i = false
points (a ∷ xs) zero = a
points (a ∷ xs) (suc i) = points xs i

unfoldable pub detach : List Bool → ℕ → List Bool
detach [] i = []
detach (a ∷ xs) zero = false ∷ xs
detach (a ∷ xs) (suc i) = a ∷ detach xs i

-- `release`, called by the writer once it has the lock and again by the destructor.
unfoldable pub release : WriterPriority → ℕ → WriterPriority
release g i =
    if points g.announced i
    then record { waiting = g.waiting - 1; announced = detach g.announced i }
    else g

-- `yield_to_writers`, by the values that its loads read: how many rounds it waits; `none` while it has not returned.
unfoldable pub yield_to_writers : List ℕ → Option ℕ
yield_to_writers [] = none
yield_to_writers (n ∷ ns) =
    let rest = yield_to_writers ns in
    if ltb 0 n then elim rest [ none ↦ none | some k ↦ some (suc k) ] else some 0

pub data Op : Type 0 where
  announces : Op
  releases : ℕ → Op

unfoldable pub apply_ops : WriterPriority → List Op → WriterPriority
apply_ops g [] = g
apply_ops g (announces ∷ ops) = apply_ops (announce g) ops
apply_ops g (releases i ∷ ops) = apply_ops (release g i) ops

unfoldable pub count : List Bool → ℕ
count [] = 0
count (true ∷ xs) = suc (count xs)
count (false ∷ xs) = count xs

count-detach : (xs : List Bool) (i : ℕ) → points xs i ≡ true → count xs ≡ suc (count (detach xs i))
unfolding count points detach
count-detach [] i h = absurd (cc)
count-detach (a ∷ xs) zero h = ground arith
count-detach (true ∷ xs) (suc i) h = ground (arith, count-detach xs i h)
count-detach (false ∷ xs) (suc i) h = ground (arith, count-detach xs i h)

announce-waiting :
    (g : WriterPriority)
    → g.waiting ≡ count g.announced
    → (announce g).waiting ≡ count (announce g).announced
unfolding announce count
announce-waiting g h = ground arith

release-waiting :
    (g : WriterPriority) (i : ℕ)
    → g.waiting ≡ count g.announced
    → (release g i).waiting ≡ count (release g i).announced
unfolding release
release-waiting g i h = ground (arith, count-detach g.announced i)

-- The gate counts the writers that are announced and have not let go, however often each lets go.
pub apply_ops-waiting :
    (g : WriterPriority) (ops : List Op)
    → g.waiting ≡ count g.announced
    → (apply_ops g ops).waiting ≡ count (apply_ops g ops).announced
unfolding apply_ops
apply_ops-waiting g [] h = h
apply_ops-waiting g (announces ∷ ops) h = apply_ops-waiting (announce g) ops (announce-waiting g h)
apply_ops-waiting g (releases i ∷ ops) h =
    apply_ops-waiting (release g i) ops (release-waiting g i h)
