-- ===== src/Lock/Held.antt =====
-- src/util/ranked_mutex.hpp: `HeldRanks`, the locks that a thread holds, and what `RankedMutex`
-- does to it. The list has the newest entry of the array first.
use snapback.Prelude.{
  ℕ, Bool, true, false, List, [], ◌∷◌, ◌++◌, ◌==◌, leb, length, if◌then◌else◌, max,
}
use snapback.Prelude.Int.{ℤ, pos}

pub data LockRank : Type 0 where
  state activity_boundary storage : LockRank

unfoldable pub rank_value : LockRank → ℕ
rank_value state = 100
rank_value activity_boundary = 200
rank_value storage = 300

abbrev pub max_held_ranks : ℕ
max_held_ranks = 8

-- An element of `ranks` with the one of `acquired_ns` beside it.
pub record HeldRank : Type 0 where
  pub rank : ℕ
  pub acquired_ns : ℤ

pub record ReleasedRank : Type 0 where
  pub was_innermost : Bool
  pub timed : Bool
  pub acquired_ns : ℤ

pub record LockOrderViolation : Type 0 where
  pub held : ℕ
  pub requested : ℕ
  pub out_of_order_release : Bool

-- The deepest rank held, 0 when nothing is held.
unfoldable pub innermost : List HeldRank → ℕ
innermost [] = 0
innermost (h ∷ hs) = max h.rank (innermost hs)

unfoldable pub push : List HeldRank → ℕ → ℤ → List HeldRank
push hs rank now_ns =
    if leb max_held_ranks (length hs) then hs else record { rank = rank; acquired_ns = now_ns } ∷ hs

unfoldable pub top_is : List HeldRank → ℕ → Bool
top_is [] rank = false
top_is (h ∷ hs) rank = h.rank == rank

-- The list without its newest entry for the rank, with what the loop leaves in `timed` and `acquired_ns`.
unfoldable pub take_rank : List HeldRank → ℕ → List HeldRank × Bool × ℤ
take_rank [] rank = ([], false, pos 0)
take_rank (h ∷ hs) rank =
    let rest = take_rank hs rank in
    if h.rank == rank then (hs, true, h.acquired_ns) else (h ∷ rest.0, rest.1, rest.2)

unfoldable pub pop : List HeldRank → ℕ → List HeldRank × ReleasedRank
pop hs rank =
    let taken = take_rank hs rank in
    (taken.0, record { was_innermost = top_is hs rank; timed = taken.1; acquired_ns = taken.2 })

-- `check_acquire`: what it hands to `report`.
unfoldable pub check_acquire : List HeldRank → ℕ → List LockOrderViolation
check_acquire hs rank =
    if leb rank (innermost hs)
    then record { held = innermost hs; requested = rank; out_of_order_release = false } ∷ []
    else []

-- What a thread does to its ranked mutexes, with the reading of the clock.
pub data Op : Type 0 where
  locks : LockRank → ℤ → Op
  tries_in_vain : LockRank → Op
  unlocks : LockRank → Op

-- `lock` and a successful `try_lock`, a `try_lock` that fails, and `unlock`: the ranks held behind it, and the reports.
unfoldable pub apply_op : List HeldRank → Op → List HeldRank × List LockOrderViolation
apply_op hs (locks r now) = (push hs (rank_value r) now, check_acquire hs (rank_value r))
apply_op hs (tries_in_vain r) = (hs, check_acquire hs (rank_value r))
apply_op hs (unlocks r) =
    let (rest, released) = pop hs (rank_value r) in
    (
      rest,
      if released.was_innermost
          then []
          else record { held = innermost hs; requested = rank_value r; out_of_order_release = true }
            ∷ [],
    )

unfoldable pub apply_ops : List HeldRank → List Op → List HeldRank × List LockOrderViolation
apply_ops hs [] = (hs, [])
apply_ops hs (op ∷ ops) =
    let (next, reports) = apply_op hs op in
    let (last, others) = apply_ops next ops in (last, reports ++ others)
