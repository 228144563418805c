-- ===== src/Storage/Signs.antt =====
-- src/storage/storage.cpp: the last sign of a session, by which a span that a crash left open is closed.
use snapback.Prelude.{
  subst, sym, ℕ, ◌≡◌, refl, Bool, true, false, ◌&&◌, ◌||◌, not, ◌==◌, List, [], ◌∷◌, ◌++◌, Option,
  none, some, inl, inr, arith, Option-cases, Bool-cases,
}
use snapback.Prelude.Int.{ℤ, max_ℤ, leb_ℤ, eqb_ℤ}
use snapback.Storage.Tables.{Evidence, max_null, max_timestamp, last_seen, settled_end}

-- No row of the session is later than `end`; one of its rows is at `end`.
unfoldable pub none_later : ℕ → ℤ → List (ℕ × ℤ) → Bool
none_later id end [] = true
none_later id end ((session, t) ∷ rows) =
    (not (session == id) || leb_ℤ t end) && none_later id end rows

unfoldable pub some_at : ℕ → ℤ → List (ℕ × ℤ) → Bool
some_at id end [] = false
some_at id end ((session, t) ∷ rows) = (session == id && eqb_ℤ t end) || some_at id end rows

abbrev pub signs : Evidence → List (ℕ × ℤ)
signs e = e.predictions ++ (e.context_snapshots ++ e.snapback_events)

-- The last sign of a session that is not before a start, or that start.
pub record IsLastSign (id : ℕ) (start : ℤ) (e : Evidence) (end : ℤ) : Type 0 where
  pub behind : leb_ℤ start end ≡ true
  pub latest : none_later id end (signs e) ≡ true
  pub is_one : (eqb_ℤ end start || some_at id end (signs e)) ≡ true

none_later-append :
    (id : ℕ) (m : ℤ) (xs ys : List (ℕ × ℤ))
    → none_later id m (xs ++ ys) ≡ (none_later id m xs && none_later id m ys)
unfolding none_later
none_later-append id m [] ys = refl
none_later-append id m ((session, t) ∷ xs) ys = ground (arith, none_later-append id m xs ys)

some_at-append :
    (id : ℕ) (m : ℤ) (xs ys : List (ℕ × ℤ))
    → some_at id m (xs ++ ys) ≡ (some_at id m xs || some_at id m ys)
unfolding some_at
some_at-append id m [] ys = refl
some_at-append id m ((session, t) ∷ xs) ys = ground (arith, some_at-append id m xs ys)

none_later_mono :
    (id : ℕ) (s t : ℤ) (rows : List (ℕ × ℤ))
    → leb_ℤ s t ≡ true
    → none_later id s rows ≡ true
    → none_later id t rows ≡ true
unfolding none_later
none_later_mono id s t [] h k = refl
none_later_mono id s t ((session, u) ∷ rows) h k =
    ground (arith, h, k, none_later_mono id s t rows h)

max_timestamp-none :
    (id : ℕ) (t : ℤ) (rows : List (ℕ × ℤ))
    → max_timestamp id rows ≡ none
    → none_later id t rows ≡ true
unfolding max_timestamp none_later max_null
max_timestamp-none id t [] h = refl
max_timestamp-none id t ((session, u) ∷ rows) h = elim (Option-cases (max_timestamp id rows)) [
  | inl e ↦ ground (arith, h, e, max_timestamp-none id t rows)
  | inr (r, e) ↦ ground (arith, h, e)
]

max_timestamp-some :
    (id : ℕ) (m : ℤ) (rows : List (ℕ × ℤ))
    → max_timestamp id rows ≡ some m
    → (none_later id m rows ≡ true) × (some_at id m rows ≡ true)
unfolding max_timestamp none_later some_at max_null
max_timestamp-some id m [] h = cc
max_timestamp-some id m ((session, u) ∷ rows) h = elim (Option-cases (max_timestamp id rows)) [
  | inl e ↦ ground (arith, h, e, max_timestamp-none id m rows e)
  | inr (r, e) ↦ ground (
    arith,
    h,
    e,
    max_timestamp-some id m rows,
    max_timestamp-some id r rows e,
    none_later_mono id r m rows,
  )
]

IsMax : ℕ → List (ℕ × ℤ) → Option ℤ → Type 0
IsMax id rows none = (t : ℤ) → none_later id t rows ≡ true
IsMax id rows (some m) = (none_later id m rows ≡ true) × (some_at id m rows ≡ true)

max_timestamp-IsMax : (id : ℕ) (rows : List (ℕ × ℤ)) → IsMax id rows (max_timestamp id rows)
unfolding IsMax
max_timestamp-IsMax id rows = by_cases (max_timestamp id rows) refl
  where
    by_cases : (o : Option ℤ) → max_timestamp id rows ≡ o → IsMax id rows o
    by_cases none e = λ t. max_timestamp-none id t rows e
    by_cases (some m) e = max_timestamp-some id m rows e

abbrev IsMaxAt : ℕ → List (ℕ × ℤ) → ℤ → Type 0
IsMaxAt id rows m = (none_later id m rows ≡ true) × (some_at id m rows ≡ true)

max_right : (m n : ℤ) → leb_ℤ m n ≡ true → max_ℤ m n ≡ n
max_right m n h = ground (arith, h)

max_left : (m n : ℤ) → leb_ℤ m n ≡ false → max_ℤ m n ≡ m
max_left m n h = ground (arith, h)

leb_total : (m n : ℤ) → leb_ℤ m n ≡ false → leb_ℤ n m ≡ true
leb_total m n h = ground (arith, h)

both_IsMax :
    (id : ℕ) (xs ys : List (ℕ × ℤ)) (p q : Option ℤ)
    → IsMax id xs p
    → IsMax id ys q
    → IsMax id (xs ++ ys) (max_null p q)
unfolding IsMax max_null
both_IsMax id xs ys none none hp hq = λ t. ground (arith, hp t, hq t, none_later-append id t xs ys)
both_IsMax id xs ys none (some m) hp hq =
    ground (arith, hp m, hq, none_later-append id m xs ys, some_at-append id m xs ys)
both_IsMax id xs ys (some m) none hp hq =
    ground (arith, hp, hq m, none_later-append id m xs ys, some_at-append id m xs ys)
both_IsMax id xs ys (some m) (some n) hp hq = elim (Bool-cases (leb_ℤ m n)) [
  | inl h ↦ subst (IsMaxAt id (xs ++ ys)) (sym (max_right m n h)) (
      ground (
        arith,
        h,
        hp,
        hq,
        none_later_mono id m n xs,
        none_later-append id n xs ys,
        some_at-append id n xs ys,
      ))
  | inr h ↦ subst (IsMaxAt id (xs ++ ys)) (sym (max_left m n h)) (
      ground (
        arith,
        hp,
        hq,
        none_later_mono id n m ys (leb_total m n h),
        none_later-append id m xs ys,
        some_at-append id m xs ys,
      ))
]

settle_IsMax :
    (id : ℕ) (start : ℤ) (e : Evidence) (o : Option ℤ)
    → IsMax id (signs e) o
    → IsLastSign id start e (settled_end o start)
unfolding IsMax settled_end
settle_IsMax id start e none h = record {
  behind = ground arith;
  latest = h start;
  is_one = ground arith;
}
settle_IsMax id start e (some m) h = record {
  behind = ground arith;
  latest = ground (arith, h, none_later_mono id m start (signs e));
  is_one = ground (arith, h);
}

pub settled_end-IsLastSign :
    (id : ℕ) (start : ℤ) (e : Evidence) → IsLastSign id start e (settled_end (last_seen id e) start)
unfolding last_seen
settled_end-IsLastSign id start e = settle_IsMax id start e _ (
    both_IsMax id e.predictions _ _ _ (max_timestamp-IsMax id e.predictions) (
      both_IsMax id e.context_snapshots _ _ _ (max_timestamp-IsMax id e.context_snapshots)
        (max_timestamp-IsMax id e.snapback_events)))
