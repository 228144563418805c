-- ===== src/Storage/Prune.antt =====
-- src/storage/storage.cpp and src/app/state.cpp: the retention deletes, all at once and in bounded batches, and the loop of
-- `run_retention_maintenance` over the batches. A table is the list of its timestamps in the order of the ids.
use snapback.Prelude.{
  ℕ, zero, suc, ◌+◌, ◌-◌, Bool, false, List, [], ◌∷◌, Option, none, some, if◌then◌else◌, ◌==◌,
}
use snapback.Prelude.Int.{ℤ, ltb_ℤ, eqb_ℤ}

pub record Runtime : Type 0 where
  pub predictions : List ℤ
  pub context_snapshots : List ℤ
  pub feature_snapshots : List ℤ

-- DELETE ... WHERE timestamp < ?1: what stays, and how many rows go.
unfoldable pub kept : ℤ → List ℤ → List ℤ
kept cutoff [] = []
kept cutoff (t ∷ ts) = if ltb_ℤ t cutoff then kept cutoff ts else t ∷ kept cutoff ts

unfoldable pub expired : ℤ → List ℤ → ℕ
expired cutoff [] = 0
expired cutoff (t ∷ ts) = if ltb_ℤ t cutoff then suc (expired cutoff ts) else expired cutoff ts

unfoldable pub prune_runtime_data : ℤ → Runtime → Runtime
prune_runtime_data cutoff r = record {
  predictions = kept cutoff r.predictions;
  context_snapshots = kept cutoff r.context_snapshots;
  feature_snapshots = kept cutoff r.feature_snapshots;
}

unfoldable pub total_expired : ℤ → Runtime → ℕ
total_expired cutoff r =
    expired cutoff r.predictions
    + expired cutoff r.context_snapshots
    + expired cutoff r.feature_snapshots

unfoldable pub older : ℤ → Option ℤ → ℤ
older t none = t
older t (some u) = if ltb_ℤ u t then u else t

-- The first of WHERE timestamp < ?1 ORDER BY timestamp, id.
unfoldable pub oldest : ℤ → List ℤ → Option ℤ
oldest cutoff [] = none
oldest cutoff (t ∷ ts) =
    let rest = oldest cutoff ts in if ltb_ℤ t cutoff then some (older t rest) else rest

unfoldable pub remove_first : ℤ → List ℤ → List ℤ
remove_first t [] = []
remove_first t (u ∷ us) = if eqb_ℤ u t then us else u ∷ remove_first t us

-- The same with LIMIT, and how many rows went.
unfoldable pub delete_oldest : ℤ → ℕ → List ℤ → List ℤ × ℕ
delete_oldest cutoff zero rows = (rows, 0)
delete_oldest cutoff (suc n) rows = elim (oldest cutoff rows) [
  | none ↦ (rows, 0)
  | some t ↦ let rest = delete_oldest cutoff n (remove_first t rows) in (rest.0, suc rest.1)
]

pub record Batch : Type 0 where
  pub left : Runtime
  pub deleted : ℕ
  pub has_more : Bool

unfoldable pub prune_runtime_data_batch : ℤ → ℕ → Runtime → Batch
prune_runtime_data_batch cutoff max_rows r =
    let p = delete_oldest cutoff max_rows r.predictions in
    let c = delete_oldest cutoff (max_rows - p.1) r.context_snapshots in
    let f = delete_oldest cutoff (max_rows - (p.1 + c.1)) r.feature_snapshots in
    record {
      left = record { predictions = p.0; context_snapshots = c.0; feature_snapshots = f.0 };
      deleted = p.1 + c.1 + f.1;
      has_more = if max_rows == 0 then false else p.1 + c.1 + f.1 == max_rows;
    }

-- What a round of the loop meets: a request to stop; a pause, before the lock or behind it, after which the loop goes on; an exception,
-- which undoes the batch; or nothing.
pub data Round : Type 0 where
  stops pauses pauses_late throws goes : Round

pub data Ending : Type 0 where
  finished stopped failed unfinished : Ending

pub record Maintenance : Type 0 where
  pub left : Runtime
  pub deleted : ℕ
  pub ending : Ending

-- The loop over the batches through these rounds.
unfoldable pub prune_loop : ℤ → ℕ → List Round → Runtime → ℕ → Maintenance
prune_loop cutoff max_rows [] r total = record { left = r; deleted = total; ending = unfinished }
prune_loop cutoff max_rows (stops ∷ rounds) r total = record {
  left = r;
  deleted = total;
  ending = stopped;
}
prune_loop cutoff max_rows (pauses ∷ rounds) r total = prune_loop cutoff max_rows rounds r total
prune_loop cutoff max_rows (pauses_late ∷ rounds) r total =
    prune_loop cutoff max_rows rounds r total
prune_loop cutoff max_rows (throws ∷ rounds) r total = record {
  left = r;
  deleted = total;
  ending = failed;
}
prune_loop cutoff max_rows (goes ∷ rounds) r total =
    let b = prune_runtime_data_batch cutoff max_rows r in
    let rest = prune_loop cutoff max_rows rounds b.left (total + b.deleted) in
    if b.has_more
    then rest
    else record { left = b.left; deleted = total + b.deleted; ending = finished }
