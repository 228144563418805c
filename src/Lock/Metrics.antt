-- ===== src/Lock/Metrics.antt =====
-- src/util/ranked_mutex.hpp: the hold and wait times of a ranked mutex. A counter is an unbounded number.
use snapback.Prelude.{◌-◌, ◌^◌, ℕ, zero, suc, ◌+◌, ◌/◌, List, ◌==◌, if◌then◌else◌, ltb, update, max}
use snapback.Prelude.Int.{ℤ, pos, ◌-ℤ◌, pos_part, ltb_ℤ}
use snapback.Lock.Held.{LockRank, rank_value, HeldRank, push, pop}

abbrev pub lock_histogram_buckets : ℕ
lock_histogram_buckets = 24

-- `bucket` rounds on from where the loop stands, with room for `room` more.
unfoldable pub bucket_loop : ℕ → ℕ → ℕ → ℕ
bucket_loop zero us bucket = bucket
bucket_loop (suc room) us bucket =
    let next = bucket_loop room (us / 2) (suc bucket) in if ltb 0 us then next else bucket

unfoldable pub lock_bucket_for_us : ℕ → ℕ
lock_bucket_for_us us = bucket_loop 23 us 0

unfoldable pub lock_bucket_upper_us : ℕ → ℕ
lock_bucket_upper_us index = if index == 0 then 0 else 2 ^ index - 1

pub record LockMetrics : Type 0 where
  pub acquisitions : ℕ
  pub contended : ℕ
  pub total_hold_us : ℕ
  pub max_hold_us : ℕ
  pub max_wait_us : ℕ
  pub hold : ℕ → ℕ
  pub wait : ℕ → ℕ

-- Nanoseconds as microseconds, a negative span as none.
unfoldable pub elapsed_us : ℤ → ℕ
elapsed_us ns = if ltb_ℤ (pos 0) ns then pos_part ns / 1000 else 0

unfoldable pub record_sample : (ℕ → ℕ) → ℕ → ℤ → (ℕ → ℕ) × ℕ
record_sample buckets max_us elapsed_ns =
    let us = elapsed_us elapsed_ns in
    let bucket = lock_bucket_for_us us in
    (update buckets bucket (buckets bucket + 1), max max_us us)

unfoldable pub lock_metric_slot : ℕ → ℕ
lock_metric_slot rank = let slot = rank / 100 in if ltb slot 8 then slot else 7

-- The metrics of one rank, and the locks that one thread holds.
pub record Thread : Type 0 where
  pub metrics : LockMetrics
  pub held_ranks : List HeldRank

unfoldable pub enter : Thread → LockRank → ℤ → Thread
enter t r acquired_ns = record {
  metrics = record (t.metrics) { acquisitions = t.metrics.acquisitions + 1 };
  held_ranks = push t.held_ranks (rank_value r) acquired_ns;
}

-- `lock` where somebody else holds the mutex: the wait from `started_ns` to `acquired_ns` is sampled.
unfoldable pub lock_contended : Thread → LockRank → ℤ → ℤ → Thread
lock_contended t r started_ns acquired_ns =
    let sample = record_sample t.metrics.wait t.metrics.max_wait_us (acquired_ns -ℤ started_ns) in
    enter
      (record t {
        metrics = record (t.metrics) {
          contended = t.metrics.contended + 1;
          wait = sample.0;
          max_wait_us = sample.1;
        };
      })
      r acquired_ns

unfoldable pub unlock : Thread → LockRank → ℤ → Thread
unlock t r now_ns =
    let (rest, released) = pop t.held_ranks (rank_value r) in
    let held_ns = now_ns -ℤ released.acquired_ns in
    let sample = record_sample t.metrics.hold t.metrics.max_hold_us held_ns in
    record {
      held_ranks = rest;
      metrics =
          if released.timed
          then record (t.metrics) {
            hold = sample.0;
            max_hold_us = sample.1;
            total_hold_us = t.metrics.total_hold_us + elapsed_us held_ns;
          }
          else t.metrics;
    }
