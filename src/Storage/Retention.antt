-- ===== src/Storage/Retention.antt =====
-- src/storage/storage.cpp: the bounded batches do what the unbounded deletes do.
use snapback.Prelude.{
  not, ◌&&◌, inr, inl, ◌⊎◌, ℕ, zero, suc, ◌+◌, ◌-◌, ◌<◌, ◌≡◌, refl, ap, ◌∙◌, Bool, true, false,
  List, [], ◌∷◌, Option, none, some, if◌then◌else◌, ◌==◌, arith, min, Option-cases,
}
use snapback.Prelude.Int.{ℤ, ltb_ℤ, eqb_ℤ}
use snapback.Storage.Prune.{
  Round, stops, pauses, pauses_late, throws, goes, Ending, finished, stopped, failed, unfinished,
  Runtime, kept, expired, prune_runtime_data, total_expired, older, oldest, remove_first,
  delete_oldest, prune_runtime_data_batch, prune_loop,
}

unfoldable holds : ℤ → List ℤ → Bool
holds t [] = false
holds t (u ∷ us) = if eqb_ℤ u t then true else holds t us

oldest-none : (cutoff : ℤ) (rows : List ℤ) → oldest cutoff rows ≡ none → expired cutoff rows ≡ 0
unfolding oldest expired
oldest-none cutoff [] h = refl
oldest-none cutoff (t ∷ ts) h = ground (arith, h, oldest-none cutoff ts)

older-cases : (t : ℤ) (o : Option ℤ) → (older t o ≡ t) ⊎ (o ≡ some (older t o))
unfolding older
older-cases t none = inl refl
older-cases t (some u) = ground arith

oldest-some :
    (cutoff : ℤ) (rows : List ℤ) (t : ℤ)
    → oldest cutoff rows ≡ some t
    → (ltb_ℤ t cutoff ≡ true) × (holds t rows ≡ true)
unfolding oldest holds
oldest-some cutoff [] t h = cc
oldest-some cutoff (u ∷ us) t h =
    ground (arith, h, older-cases u (oldest cutoff us), oldest-some cutoff us t)

eqb_refl : (a b : ℤ) → eqb_ℤ a b ≡ true → a ≡ b
eqb_refl a b h = ground arith

kept-remove_first :
    (cutoff t : ℤ) (rows : List ℤ)
    → ltb_ℤ t cutoff ≡ true
    → kept cutoff (remove_first t rows) ≡ kept cutoff rows
unfolding kept remove_first
kept-remove_first cutoff t [] h = refl
kept-remove_first cutoff t (u ∷ us) h =
    ground (arith, h, eqb_refl u t, kept-remove_first cutoff t us h)

expired-remove_first :
    (cutoff t : ℤ) (rows : List ℤ)
    → ltb_ℤ t cutoff ≡ true
    → holds t rows ≡ true
    → expired cutoff rows ≡ suc (expired cutoff (remove_first t rows))
unfolding expired remove_first holds
expired-remove_first cutoff t [] h k = cc
expired-remove_first cutoff t (u ∷ us) h k =
    ground (arith, h, k, eqb_refl u t, expired-remove_first cutoff t us h)

-- A bounded delete takes as many expired rows as it may, and no other row.
delete_oldest_lem :
    (cutoff : ℤ) (n : ℕ) (rows : List ℤ)
    → let d = delete_oldest cutoff n rows in
      (kept cutoff d.0 ≡ kept cutoff rows)
      × (d.1 + expired cutoff d.0 ≡ expired cutoff rows)
      × (d.1 ≡ min n (expired cutoff rows))
unfolding delete_oldest
delete_oldest_lem cutoff zero rows = (refl, omega arith, omega arith)
delete_oldest_lem cutoff (suc n) rows = elim (Option-cases (oldest cutoff rows)) [
  | inl e ↦ ground (arith, e, oldest-none cutoff rows e)
  | inr (t, e) ↦
      let (old, here) = oldest-some cutoff rows t e in
      ground (
        arith,
        e,
        kept-remove_first cutoff t rows old,
        expired-remove_first cutoff t rows old here,
        delete_oldest_lem cutoff n (remove_first t rows),
      )
]

kept-idle : (cutoff : ℤ) (rows : List ℤ) → expired cutoff rows ≡ 0 → kept cutoff rows ≡ rows
unfolding kept expired
kept-idle cutoff [] h = refl
kept-idle cutoff (t ∷ ts) h = ground (arith, h, kept-idle cutoff ts)

-- A batch deletes as many of the expired rows as it may, and no other row.
pub prune_runtime_data_batch_lem :
    (cutoff : ℤ) (max_rows : ℕ) (r : Runtime)
    → let b = prune_runtime_data_batch cutoff max_rows r in
      (prune_runtime_data cutoff b.left ≡ prune_runtime_data cutoff r)
      × (b.deleted + total_expired cutoff b.left ≡ total_expired cutoff r)
      × (b.deleted ≡ min max_rows (total_expired cutoff r))
unfolding prune_runtime_data_batch prune_runtime_data total_expired
prune_runtime_data_batch_lem cutoff max_rows r =
    let p = delete_oldest cutoff max_rows r.predictions in
    let c = delete_oldest cutoff (max_rows - p.1) r.context_snapshots in
    ground (
      arith,
      delete_oldest_lem cutoff max_rows r.predictions,
      delete_oldest_lem cutoff (max_rows - p.1) r.context_snapshots,
      delete_oldest_lem cutoff (max_rows - (p.1 + c.1)) r.feature_snapshots,
    )

prune_idle :
    (cutoff : ℤ) (r : Runtime) → total_expired cutoff r ≡ 0 → prune_runtime_data cutoff r ≡ r
unfolding prune_runtime_data total_expired
prune_idle cutoff r h = ground (
  arith,
  h,
  kept-idle cutoff r.predictions,
  kept-idle cutoff r.context_snapshots,
  kept-idle cutoff r.feature_snapshots,
)

has_more_lem :
    (cutoff : ℤ) (max_rows : ℕ) (r : Runtime)
    → 0 < max_rows
    → let b = prune_runtime_data_batch cutoff max_rows r in b.has_more ≡ (b.deleted == max_rows)
unfolding prune_runtime_data_batch
has_more_lem cutoff max_rows r h = ground (arith, h)

-- How many rounds delete, if none stops or fails.
unfoldable pub undisturbed : List Round → Bool
undisturbed [] = true
undisturbed (stops ∷ rounds) = false
undisturbed (pauses ∷ rounds) = undisturbed rounds
undisturbed (pauses_late ∷ rounds) = undisturbed rounds
undisturbed (throws ∷ rounds) = false
undisturbed (goes ∷ rounds) = undisturbed rounds

unfoldable pub count_goes : List Round → ℕ
count_goes [] = 0
count_goes (stops ∷ rounds) = count_goes rounds
count_goes (pauses ∷ rounds) = count_goes rounds
count_goes (pauses_late ∷ rounds) = count_goes rounds
count_goes (throws ∷ rounds) = count_goes rounds
count_goes (goes ∷ rounds) = suc (count_goes rounds)

abbrev is_finished : Ending → Bool
is_finished finished = true
is_finished stopped = false
is_finished failed = false
is_finished unfinished = false

prune_loop_from :
    (cutoff : ℤ) (max_rows : ℕ) (rounds : List Round) (r : Runtime) (total : ℕ)
    → 0 < max_rows
    → undisturbed rounds ≡ true
    → total_expired cutoff r < count_goes rounds
    → prune_loop cutoff max_rows rounds r total ≡ record {
      left = prune_runtime_data cutoff r;
      deleted = total + total_expired cutoff r;
      ending = finished;
    }
unfolding prune_loop undisturbed count_goes
prune_loop_from cutoff max_rows [] r total some_rows calm enough = absurd (omega (arith, enough))
prune_loop_from cutoff max_rows (stops ∷ rounds) r total some_rows calm enough = cc
prune_loop_from cutoff max_rows (pauses ∷ rounds) r total some_rows calm enough =
    prune_loop_from cutoff max_rows rounds r total some_rows calm enough
prune_loop_from cutoff max_rows (pauses_late ∷ rounds) r total some_rows calm enough =
    prune_loop_from cutoff max_rows rounds r total some_rows calm enough
prune_loop_from cutoff max_rows (throws ∷ rounds) r total some_rows calm enough = cc
prune_loop_from cutoff max_rows (goes ∷ rounds) r total some_rows calm enough =
    let b = prune_runtime_data_batch cutoff max_rows r in
    ground (
      arith,
      some_rows,
      calm,
      enough,
      prune_runtime_data_batch_lem cutoff max_rows r,
      has_more_lem cutoff max_rows r some_rows,
      prune_idle cutoff b.left,
      prune_loop_from cutoff max_rows rounds b.left (total + b.deleted) some_rows calm,
    )

-- With batches of at least one row, the loop over the batches finishes, however often it is paused, if it is not told to stop, no batch
-- fails, and one batch more than there are expired rows gets its turn; it leaves what the unbounded deletes leave, and has deleted each
-- expired row once.
pub prune_loop-prune_runtime_data :
    (cutoff : ℤ) (max_rows : ℕ) (rounds : List Round) (r : Runtime)
    → 0 < max_rows
    → undisturbed rounds ≡ true
    → total_expired cutoff r < count_goes rounds
    → prune_loop cutoff max_rows rounds r 0 ≡ record {
      left = prune_runtime_data cutoff r;
      deleted = total_expired cutoff r;
      ending = finished;
    }
prune_loop-prune_runtime_data cutoff max_rows rounds r some_rows calm enough =
    prune_loop_from cutoff max_rows rounds r 0 some_rows calm enough
    ∙ ap (λ n. record { left = prune_runtime_data cutoff r; deleted = n; ending = finished })
        (omega arith)

-- Whatever the rounds of the loop meet, and wherever it ends, it has deleted no row that is not expired and has counted each that it has
-- deleted; and where it finishes, with batches of at least one row, no expired row is left.
prune_loop_disturbed :
    (cutoff : ℤ) (max_rows : ℕ) (rounds : List Round) (r : Runtime) (total : ℕ)
    → 0 < max_rows
    → let m = prune_loop cutoff max_rows rounds r total in
      (prune_runtime_data cutoff m.left ≡ prune_runtime_data cutoff r)
      × (m.deleted + total_expired cutoff m.left ≡ total + total_expired cutoff r)
      × ((is_finished m.ending && not (total_expired cutoff m.left == 0)) ≡ false)
unfolding prune_loop
prune_loop_disturbed cutoff max_rows [] r total some_rows = (refl, refl, refl)
prune_loop_disturbed cutoff max_rows (stops ∷ rounds) r total some_rows = (refl, refl, refl)
prune_loop_disturbed cutoff max_rows (pauses ∷ rounds) r total some_rows =
    prune_loop_disturbed cutoff max_rows rounds r total some_rows
prune_loop_disturbed cutoff max_rows (pauses_late ∷ rounds) r total some_rows =
    prune_loop_disturbed cutoff max_rows rounds r total some_rows
prune_loop_disturbed cutoff max_rows (throws ∷ rounds) r total some_rows = (refl, refl, refl)
prune_loop_disturbed cutoff max_rows (goes ∷ rounds) r total some_rows =
    let b = prune_runtime_data_batch cutoff max_rows r in
    let rest = prune_loop_disturbed cutoff max_rows rounds b.left (total + b.deleted) some_rows in
    ground (
      arith,
      some_rows,
      prune_runtime_data_batch_lem cutoff max_rows r,
      has_more_lem cutoff max_rows r some_rows,
      rest,
    )
