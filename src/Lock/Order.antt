-- ===== src/Lock/Order.antt =====
-- src/util/ranked_mutex.hpp: what threads that the lock order finds no fault with cannot do.
use snapback.Prelude.{
  some, ◌+◌, subst, Option, ◌*◌, if◌then◌else◌, ℕ, suc, ◌<◌, ◌≤◌, ◌≡◌, ◌⊎◌, inl, inr, refl, true,
  false, List, [], ◌∷◌, ◌++◌, ◌==◌, leb, length, max, arith, Bool-cases,
}
use snapback.Lock.Held.{
  LockRank, state, activity_boundary, storage, rank_value, HeldRank, innermost, push, top_is,
  take_rank, pop, check_acquire, Op, locks, tries_in_vain, unlocks, apply_op, apply_ops,
}

-- Ranks of the enumeration, each deeper than those below it in the list.
unfoldable pub IsNested : List HeldRank → Type 0
IsNested [] = Unit
IsNested (h ∷ hs) = (r : LockRank) × (h.rank ≡ rank_value r) × (innermost hs < h.rank) × IsNested hs

-- What is really held, kept without any bound: the newest lock first.
unfoldable pub without : List LockRank → LockRank → List LockRank
without [] r = []
without (l ∷ ls) r =
    let rest = without ls r in if rank_value l == rank_value r then ls else l ∷ rest

unfoldable pub held_locks : List LockRank → Op → List LockRank
held_locks ls (locks r now) = r ∷ ls
held_locks ls (tries_in_vain r) = ls
held_locks ls (unlocks r) = without ls r

unfoldable pub all_held_locks : List LockRank → List Op → List LockRank
all_held_locks ls [] = ls
all_held_locks ls (op ∷ ops) = all_held_locks (held_locks ls op) ops

unfoldable pub Tracks : List HeldRank → List LockRank → Type 0
Tracks [] [] = Unit
Tracks [] (l ∷ ls) = ⊥
Tracks (h ∷ hs) [] = ⊥
Tracks (h ∷ hs) (l ∷ ls) = (h.rank ≡ rank_value l) × Tracks hs ls

rank_value_bound : (r : LockRank) → (100 ≤ rank_value r) × (rank_value r ≤ 300)
unfolding rank_value
rank_value_bound state = omega arith
rank_value_bound activity_boundary = omega arith
rank_value_bound storage = omega arith

ranks_apart : (q r : LockRank) → rank_value q < rank_value r → rank_value q + 100 ≤ rank_value r
unfolding rank_value
ranks_apart state state h = omega arith
ranks_apart state activity_boundary h = omega arith
ranks_apart state storage h = omega arith
ranks_apart activity_boundary state h = omega arith
ranks_apart activity_boundary activity_boundary h = omega arith
ranks_apart activity_boundary storage h = omega arith
ranks_apart storage q h = ground (arith, rank_value_bound q)

-- Ranks a hundred apart leave room for three.
IsNested-length :
    (hs : List HeldRank)
    → IsNested hs
    → (length hs ≡ 0)
      ⊎ ((length hs * 100 ≤ innermost hs) × (r : LockRank) × (innermost hs ≡ rank_value r))
unfolding IsNested innermost
IsNested-length [] n = inl refl
IsNested-length (h ∷ hs) (r, eq, deeper, n) = by_rest (IsNested-length hs n)
  where
    by_rest :
        (length hs ≡ 0)
          ⊎ ((length hs * 100 ≤ innermost hs) × (r : LockRank) × (innermost hs ≡ rank_value r))
        → (suc (length hs) ≡ 0)
          ⊎ ((suc (length hs) * 100 ≤ max h.rank (innermost hs))
              × (r : LockRank) × (max h.rank (innermost hs) ≡ rank_value r))
    by_rest (inl empty) =
        inr (ground (arith, rank_value_bound r, deeper), r, ground (arith, deeper))
    by_rest (inr (long, q, eq')) =
        inr (ground (arith, ranks_apart q r, deeper, rank_value_bound r), r, ground (arith, deeper))

-- A nested thread's list never fills up.
room_of_IsNested : (hs : List HeldRank) → IsNested hs → length hs ≤ 3
room_of_IsNested hs n = by_length (IsNested-length hs n)
  where
    by_length :
        (length hs ≡ 0)
          ⊎ ((length hs * 100 ≤ innermost hs) × (r : LockRank) × (innermost hs ≡ rank_value r))
        → length hs ≤ 3
    by_length (inl empty) = ground arith
    by_length (inr (long, r, eq)) = ground (arith, rank_value_bound r)

append-empty : {A : Type 0} (xs ys : List A) → xs ++ ys ≡ [] → (xs ≡ []) × (ys ≡ [])
append-empty [] ys e = (refl, e)
append-empty (x ∷ xs) ys e = absurd (cc)

apply_op_of_silent :
    (hs : List HeldRank) (ls : List LockRank) (op : Op)
    → IsNested hs
    → Tracks hs ls
    → (apply_op hs op).1 ≡ []
    → IsNested (apply_op hs op).0 × Tracks (apply_op hs op).0 (held_locks ls op)
unfolding apply_op held_locks check_acquire push pop top_is take_rank without IsNested Tracks
apply_op_of_silent hs ls (locks r now) n t quiet =
    by_room (room_of_IsNested hs n) (Bool-cases (leb (rank_value r) (innermost hs)))
  where
    entry : HeldRank
    entry = record { rank = rank_value r; acquired_ns = now }

    by_room :
        length hs ≤ 3
        → (leb (rank_value r) (innermost hs) ≡ true) ⊎ (leb (rank_value r) (innermost hs) ≡ false)
        → IsNested (push hs (rank_value r) now) × Tracks (push hs (rank_value r) now) (r ∷ ls)
    by_room short (inl fault) = absurd (ground arith)
    by_room short (inr deeper) =
        subst (λ p. IsNested p × Tracks p (r ∷ ls)) {x = entry ∷ hs} (ground arith)
          (((r, refl, ground arith, n), (refl, t)))
apply_op_of_silent hs ls (tries_in_vain r) n t quiet = (n, t)
apply_op_of_silent [] [] (unlocks r) n t quiet = absurd (ground arith)
apply_op_of_silent [] (l ∷ ls) (unlocks r) n t quiet = absurd t
apply_op_of_silent (h ∷ hs) [] (unlocks r) n t quiet = absurd t
apply_op_of_silent (h ∷ hs) (l ∷ ls) (unlocks r) n t quiet =
    by_top (Bool-cases (h.rank == rank_value r))
  where
    by_top :
        ((h.rank == rank_value r) ≡ true) ⊎ ((h.rank == rank_value r) ≡ false)
        → IsNested (take_rank (h ∷ hs) (rank_value r)).0
          × Tracks (take_rank (h ∷ hs) (rank_value r)).0 (without (l ∷ ls) r)
    by_top (inl top) =
        subst {A = List HeldRank × List LockRank} (λ p. IsNested p.0 × Tracks p.0 p.1)
          {x = (hs, ls)} (ground (arith, t.0)) (n.3, t.1)
    by_top (inr buried) = absurd (ground arith)

-- A thread that starts with a nested list of the locks it holds, and that the order check reports nothing
-- about, ends with a nested list of exactly the locks that it has taken and not released.
pub apply_ops-Tracks :
    (hs : List HeldRank) (ls : List LockRank) (ops : List Op)
    → IsNested hs
    → Tracks hs ls
    → (apply_ops hs ops).1 ≡ []
    → IsNested (apply_ops hs ops).0 × Tracks (apply_ops hs ops).0 (all_held_locks ls ops)
unfolding apply_ops all_held_locks
apply_ops-Tracks hs ls [] n t quiet = (n, t)
apply_ops-Tracks hs ls (op ∷ ops) n t quiet =
    let (first, others) =
      append-empty (apply_op hs op).1 (apply_ops (apply_op hs op).0 ops).1 quiet in
    let (n', t') = apply_op_of_silent hs ls op n t first in
    apply_ops-Tracks (apply_op hs op).0 (held_locks ls op) ops n' t' others

-- A rank that a thread's list names.
pub data Holds (r : ℕ) : List HeldRank → Type 0 where
  newest : {h : HeldRank} {hs : List HeldRank} → h.rank ≡ r → Holds r (h ∷ hs)
  older : {h : HeldRank} {hs : List HeldRank} → Holds r hs → Holds r (h ∷ hs)

Holds-innermost : (r : ℕ) (hs : List HeldRank) → Holds r hs → r ≤ innermost hs
unfolding innermost
Holds-innermost r [] x = elim x [ ]
Holds-innermost r (h ∷ hs) (newest eq) = ground arith
Holds-innermost r (h ∷ hs) (older rest) = ground (arith, Holds-innermost r hs rest)

module _ (held : ℕ → List HeldRank) (wants : ℕ → Option ℕ) where
  -- Thread `i` waits for a lock that `j` holds, or for one that waits for `j` in this sense.
  pub data Waits : ℕ → ℕ → Type 0 where
    directly : {i j r : ℕ} → wants i ≡ some r → Holds r (held j) → Waits i j
    in_turn : {i j k r : ℕ} → wants i ≡ some r → Holds r (held j) → Waits j k → Waits i k

  Waits-innermost :
      ((i r : ℕ) → wants i ≡ some r → check_acquire (held i) r ≡ [])
      → {i k : ℕ} → Waits i k
      → (r : ℕ) × (wants i ≡ some r) × (r ≤ innermost (held k))
  unfolding check_acquire
  Waits-innermost fine {k = k} (directly {r = r} w h) = (r, w, Holds-innermost r (held k) h)
  Waits-innermost fine {k = k} (in_turn {j = j} {r = r} w h rest) =
      let (s, ws, below) = Waits-innermost fine rest in
      (r, w, ground (arith, fine j s ws, Holds-innermost r (held j) h))

  -- No thread waits for itself, through any number of others, if the order has no fault to find with what each waiting
  -- thread waits for.
  pub no_deadlock :
      (i : ℕ) → ((i r : ℕ) → wants i ≡ some r → check_acquire (held i) r ≡ []) → ¬ Waits i i
  unfolding check_acquire
  no_deadlock i fine loop =
      let (r, w, below) = Waits-innermost fine loop in ground (arith, fine i r w)
