-- ===== src/Lock/Buckets.antt =====
-- src/util/ranked_mutex.hpp: what the buckets of the histograms hold, and that no sample is lost.
use snapback.Prelude.{
  ap, ℕ, zero, suc, ◌+◌, ◌*◌, ◌-◌, ◌/◌, ◌^◌, ◌≤◌, ◌<◌, ◌≡◌, ◌⊎◌, inl, inr, refl, true, false, List,
  [], ◌∷◌, ◌==◌, ltb, if◌then◌else◌, update, arith, Bool-cases,
}
use snapback.Prelude.Int.{◌-ℤ◌, ℤ}
use snapback.Lock.Held.{LockRank, rank_value, HeldRank, take_rank, pop, push}
use snapback.Lock.Metrics.{
  elapsed_us, bucket_loop, lock_bucket_for_us, lock_bucket_upper_us, record_sample, Thread, enter,
  lock_contended, unlock,
}

pow_suc : (n : ℕ) → 2 ^ suc n ≡ 2 * 2 ^ n
pow_suc n = omega arith

-- The loop counts the digits of `us`.
bucket_loop_digits :
    (room us b : ℕ)
    → us < 2 ^ room
    → (n : ℕ) × (bucket_loop room us b ≡ n + b)
      × (us < 2 ^ n)
      × (((us ≡ 0) × (n ≡ 0)) ⊎ (2 ^ n ≤ 2 * us))
unfolding bucket_loop
bucket_loop_digits zero us b h = (0, omega arith, h, inl (omega arith, refl))
bucket_loop_digits (suc room) us b h =
    by_rest (bucket_loop_digits room (us / 2) (suc b) (omega (arith, pow_suc room)))
      (Bool-cases (ltb 0 us))
  where
    by_rest :
        (n : ℕ) × (bucket_loop room (us / 2) (suc b) ≡ n + suc b)
          × (us / 2 < 2 ^ n)
          × (((us / 2 ≡ 0) × (n ≡ 0)) ⊎ (2 ^ n ≤ 2 * (us / 2)))
        → (ltb 0 us ≡ true) ⊎ (ltb 0 us ≡ false)
        → (n : ℕ) × (bucket_loop (suc room) us b ≡ n + b)
          × (us < 2 ^ n)
          × (((us ≡ 0) × (n ≡ 0)) ⊎ (2 ^ n ≤ 2 * us))
    by_rest _ (inr none_) = (0, ground arith, ground arith, inl (ground arith, refl))
    by_rest (n, eq, below, inl (small, first)) (inl some_) = (
      suc n,
      ground (arith, eq),
      omega (arith, pow_suc n, below),
      inr (ground (arith, pow_suc n, first, ap (λ k. 2 ^ k) first)),
    )
    by_rest (n, eq, below, inr low) (inl some_) = (
      suc n,
      ground (arith, eq),
      omega (arith, pow_suc n, below),
      inr (omega (arith, pow_suc n, low)),
    )

-- A positive duration that is too short to saturate the top bucket lies within the bounds of its bucket: at most
-- `lock_bucket_upper_us`, and above that of the bucket below.
pub lock_bucket_bounds :
    (us : ℕ)
    → 0 < us
    → us < 2 ^ 23
    → (us ≤ lock_bucket_upper_us (lock_bucket_for_us us))
      × (lock_bucket_upper_us (lock_bucket_for_us us - 1) < us)
unfolding lock_bucket_for_us lock_bucket_upper_us
lock_bucket_bounds us p h = by_digits (bucket_loop_digits 23 us 0 h)
  where
    by_digits :
        (n : ℕ) × (bucket_loop 23 us 0 ≡ n + 0)
          × (us < 2 ^ n)
          × (((us ≡ 0) × (n ≡ 0)) ⊎ (2 ^ n ≤ 2 * us))
        → (us ≤ (if bucket_loop 23 us 0 == 0 then 0 else 2 ^ bucket_loop 23 us 0 - 1))
          × ((if bucket_loop 23 us 0 - 1 == 0 then 0 else 2 ^ (bucket_loop 23 us 0 - 1) - 1) < us)
    by_digits (n, eq, below, inl (none_, _)) = absurd (omega (arith, none_))
    by_digits (zero, eq, below, inr low) = absurd (omega (arith, below))
    by_digits (suc m, eq, below, inr low) =
        let at : bucket_loop 23 us 0 ≡ suc m = omega (arith, eq) in
        (
          ground (arith, at, ap (λ k. 2 ^ k) at),
          ground (arith, at, pow_suc m, ap (λ k. 2 ^ (k - 1)) at),
        )

unfoldable pub sum_to : ℕ → (ℕ → ℕ) → ℕ
sum_to zero f = 0
sum_to (suc n) f = sum_to n f + f n

sum_to-update_past : (n b v : ℕ) (f : ℕ → ℕ) → n ≤ b → sum_to n (update f b v) ≡ sum_to n f
unfolding sum_to
sum_to-update_past zero b v f h = refl
sum_to-update_past (suc n) b v f h = ground (arith, sum_to-update_past n b v f)

sum_to-update : (n b : ℕ) (f : ℕ → ℕ) → b < n → sum_to n (update f b (f b + 1)) ≡ sum_to n f + 1
unfolding sum_to
sum_to-update zero b f h = absurd (omega arith)
sum_to-update (suc n) b f h =
    ground (arith, sum_to-update n b f, sum_to-update_past n b (f b + 1) f)

bucket_loop_bound : (room us b : ℕ) → bucket_loop room us b < suc (room + b)
unfolding bucket_loop
bucket_loop_bound zero us b = omega arith
bucket_loop_bound (suc room) us b = ground (arith, bucket_loop_bound room (us / 2) (suc b))

lock_bucket_in_range : (us : ℕ) → lock_bucket_for_us us < 24
unfolding lock_bucket_for_us
lock_bucket_in_range us = bucket_loop_bound 23 us 0

-- How many of a thread's entries are for a rank.
unfoldable pub count_rank : List HeldRank → ℕ → ℕ
count_rank [] rank = 0
count_rank (h ∷ hs) rank = (if h.rank == rank then 1 else 0) + count_rank hs rank

count_rank-take_rank :
    (hs : List HeldRank) (rank : ℕ)
    → count_rank hs rank
      ≡ count_rank (take_rank hs rank).0 rank + (if (take_rank hs rank).1 then 1 else 0)
unfolding count_rank take_rank
count_rank-take_rank [] rank = refl
count_rank-take_rank (h ∷ hs) rank = ground (arith, count_rank-take_rank hs rank)

record_sample-sum :
    (f : ℕ → ℕ) (m : ℕ) (ns : ℤ) → sum_to 24 (record_sample f m ns).0 ≡ sum_to 24 f + 1
unfolding record_sample
record_sample-sum f m ns =
    sum_to-update 24 (lock_bucket_for_us (elapsed_us ns)) f (lock_bucket_in_range (elapsed_us ns))

-- What a thread does to one mutex that nobody else uses the metrics of, with the readings of the clock.
pub data Use : Type 0 where
  enters unlocks : ℤ → Use
  waits : ℤ → ℤ → Use

unfoldable pub use_lock : LockRank → Thread → Use → Thread
use_lock r t (enters at) = enter t r at
use_lock r t (waits from at) = lock_contended t r from at
use_lock r t (unlocks at) = unlock t r at

unfoldable pub use_locks : LockRank → Thread → List Use → Thread
use_locks r t [] = t
use_locks r t (u ∷ us) = use_locks r (use_lock r t u) us

-- Hold samples and locks still held are no more than the acquisitions, and there is a wait sample for each contended one.
pub record IsAccounted (r : LockRank) (t : Thread) : Type 0 where
  pub holds :
      sum_to 24 t.metrics.hold + count_rank t.held_ranks (rank_value r) ≤ t.metrics.acquisitions
  pub waited : sum_to 24 t.metrics.wait ≡ t.metrics.contended

use_lock-IsAccounted :
    (r : LockRank) (t : Thread) (u : Use) → IsAccounted r t → IsAccounted r (use_lock r t u)
unfolding use_lock enter lock_contended unlock pop push count_rank
use_lock-IsAccounted r t (enters at) h = ground (arith, h.holds, h.waited)
use_lock-IsAccounted r t (waits from at) h =
    ground (
      arith,
      h.holds,
      h.waited,
      record_sample-sum t.metrics.wait t.metrics.max_wait_us (at -ℤ from),
    )
use_lock-IsAccounted r t (unlocks at) h = ground (
  arith,
  h.holds,
  h.waited,
  count_rank-take_rank t.held_ranks (rank_value r),
  record_sample-sum t.metrics.hold t.metrics.max_hold_us
      (at -ℤ (take_rank t.held_ranks (rank_value r)).2),
)

-- From metrics that account for the locks held, however the mutex is used, in order or not: the hold
-- samples and the locks still held are never more than the acquisitions, and there is exactly one wait
-- sample for each contended acquisition.
pub use_locks-IsAccounted :
    (r : LockRank) (t : Thread) (us : List Use) → IsAccounted r t → IsAccounted r (use_locks r t us)
unfolding use_locks
use_locks-IsAccounted r t [] h = h
use_locks-IsAccounted r t (u ∷ us) h =
    use_locks-IsAccounted r (use_lock r t u) us (use_lock-IsAccounted r t u h)
