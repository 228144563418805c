-- ===== src/Ring/Linear.antt =====
-- src/capture/ring_buffer.hpp: every interleaving of the two threads' accesses acts as a bounded queue.
use native.Mathlib.Nat.{mod-lt}
use snapback.Prelude.{
  ℕ, suc, ◌+◌, ◌%◌, ◌^◌, ◌≤◌, ◌<◌, ◌≡◌, ◌≢◌, refl, ◌∙◌, ap, sym, subst, List, [], ◌∷◌, ◌++◌, length,
  length-append, arith, Bool-cases, inl, inr, false, ◌==◌, ==_iff,
}
use snapback.Ring.Mask.{two_pow_pos}
use native.Mathlib.Decide.{dec_lt}
use snapback.Ring.Window.{home, Holds, Holds-update, Holds-append, round, full_round, shift}
use snapback.Ring.Buffer.{
  add_size, mask, Producer, ready, at_head, admitted, filled, published, Consumer, waiting, at_tail,
  occupied, took, System, produce_from, produce, consume_from, consume, Turn, producer_turn,
  consumer_turn, step, run, fresh,
}
use snapback.Ring.Represents.{
  ServesAll, ProducerFits, ConsumerFits, Represents, Linear, ConsumerFits-update, ConsumerFits-grow,
  ProducerFits-shrink, update_self, empty_of_length, absurd_test, next_at, apart_of_pos, next_mod,
  log-ServesAll,
}

module _ (k : ℕ) (small : k ≤ 63) {A : Type 0} where
  head_in : (s : System A) (q : List A) → Represents (2 ^ k) s q → s.buffer.head < 2 ^ k
  head_in s q h = rw h.head_at (mod-lt (s.buffer.tail + length q) (two_pow_pos k))

  -- the index behind the head, seen from the tail
  next_of_head :
      (s : System A) (q : List A) (i : ℕ)
      → i ≡ s.buffer.head
      → Represents (2 ^ k) s q
      → mask k (add_size i 1) ≡ (s.buffer.tail + suc (length q)) % 2 ^ k
  next_of_head s q i e h =
      next_mod k small i (rw e (head_in s q h))
      ∙ next_at (2 ^ k) s.buffer.tail (length q) i (e ∙ h.head_at)

  refused_full :
      (s : System A) (q : List A) (i : ℕ)
      → i ≡ s.buffer.head
      → Represents (2 ^ k) s q
      → mask k (add_size i 1) ≡ s.buffer.tail
      → suc (length q) ≡ 2 ^ k
  refused_full s q i e h same =
      round s.buffer.tail (suc (length q)) (2 ^ k) h.tail_in (omega arith) h.room
        (sym (next_of_head s q i e h) ∙ same)

  admitted_room :
      (s : System A) (q : List A) (i : ℕ)
      → i ≡ s.buffer.head
      → Represents (2 ^ k) s q
      → mask k (add_size i 1) ≢ s.buffer.tail
      → suc (length q) < 2 ^ k
  admitted_room s q i e h other = elim (dec_lt (suc (length q)) (2 ^ k)) [
    | yes below ↦ below
    | no above ↦ absurd (
        other (
          next_of_head s q i e h
          ∙ ap (λ n. (s.buffer.tail + n) % 2 ^ k) (omega (arith, h.room))
          ∙ full_round s.buffer.tail (2 ^ k) h.tail_in))
  ]

  -- a change of the threads' places alone
  moved :
      (s : System A) (q : List A) (p : Producer A) (c : Consumer A)
      → Represents (2 ^ k) s q
      → ProducerFits (2 ^ k) s.buffer.slots s.buffer.head (length q) p
      → ConsumerFits s.buffer.slots s.buffer.tail (length q) c
      → Represents (2 ^ k) (record s { producer = p; consumer = c }) q
  moved s q p c h fp fc = record {
    room = h.room;
    tail_in = h.tail_in;
    head_at = h.head_at;
    held = h.held;
    producer_fits = fp;
    consumer_fits = fc;
  }

  admit-Linear :
      (value : A) (s : System A) (q : List A) (v : A) (head : ℕ)
      → head ≡ s.buffer.head
      → Represents (2 ^ k) s q
      → Linear (2 ^ k) q (produce_from k value s (at_head v head))
  unfolding produce_from
  admit-Linear value s q v head fits h =
      elim (Bool-cases (mask k (add_size head 1) == s.buffer.tail)) [
        | inl full ↦ rw full (
          q,
          (refused_full s q head fits h ((==_iff _ _).0 full), refl),
          moved s q ready s.consumer h tt h.consumer_fits,
        )
        | inr free ↦ rw free (
          q,
          refl,
          moved s q (admitted v head s.buffer.tail) s.consumer h
              (fits, admitted_room s q head fits h (λ e. absurd_test free ((==_iff _ _).1 e)))
              h.consumer_fits,
        )
      ]

  produce-Linear :
      (value : A) (s : System A) (q : List A) (p : Producer A)
      → ProducerFits (2 ^ k) s.buffer.slots s.buffer.head (length q) p
      → Represents (2 ^ k) s q
      → Linear (2 ^ k) q (produce_from k value s p)
  unfolding produce_from
  produce-Linear value s q ready fits h = (
    q,
    refl,
    record {
      room = h.room;
      tail_in = h.tail_in;
      head_at = h.head_at;
      held = h.held;
      producer_fits = refl;
      consumer_fits = h.consumer_fits;
    },
  )
  produce-Linear value s q (at_head v head) fits h = admit-Linear value s q v head fits h
  produce-Linear value s q (admitted v head tail) fits h = (
    q,
    refl,
    record {
      room = h.room;
      tail_in = h.tail_in;
      head_at = h.head_at;
      held =
          Holds-update s.buffer.slots (2 ^ k) s.buffer.tail head v q h.tail_in h.room
            (fits.0 ∙ h.head_at) h.held;
      producer_fits = (fits.0, fits.1, update_self s.buffer.slots head v);
      consumer_fits =
          ConsumerFits-update s.buffer.slots s.buffer.tail (length q) head v s.consumer
            (λ some_ e.
              apart_of_pos (2 ^ k) s.buffer.tail (length q) h.tail_in h.room some_
                (sym (fits.0 ∙ h.head_at) ∙ e))
            h.consumer_fits;
    },
  )
  produce-Linear value s q (filled v head tail) fits h = (
    q ++ v ∷ [],
    (fits.1, refl),
    record {
      room = omega (arith, fits.1, length-append q (v ∷ []));
      tail_in = h.tail_in;
      head_at =
          next_of_head s q head fits.0 h
          ∙ ap (λ n. (s.buffer.tail + n) % 2 ^ k) (omega (arith, length-append q (v ∷ [])));
      held =
          Holds-append s.buffer.slots (2 ^ k) s.buffer.tail v q
            (ap s.buffer.slots (sym (fits.0 ∙ h.head_at)) ∙ fits.2) h.tail_in h.held;
      producer_fits = tt;
      consumer_fits =
          ConsumerFits-grow s.buffer.slots s.buffer.tail (length q) (length (q ++ v ∷ []))
            s.consumer (omega (arith, length-append q (v ∷ []))) h.consumer_fits;
    },
  )
  produce-Linear value s q (published head tail) fits h = (
    q,
    refl,
    record {
      room = h.room;
      tail_in = h.tail_in;
      head_at = h.head_at;
      held = h.held;
      producer_fits = tt;
      consumer_fits = h.consumer_fits;
    },
  )

  past :
      (s : System A) (q : List A) (i : ℕ)
      → i ≡ s.buffer.tail
      → Represents (2 ^ k) s q
      → mask k (add_size i 1) ≡ (s.buffer.tail + 1) % 2 ^ k
  past s q i e h = next_mod k small i (rw e h.tail_in) ∙ ap (λ j. (j + 1) % 2 ^ k) e

  occupied_pos :
      (s : System A) (q : List A) (i : ℕ)
      → i ≡ s.buffer.tail
      → Represents (2 ^ k) s q
      → (i == s.buffer.head) ≡ false
      → 0 < length q
  occupied_pos s [] i e h other = absurd (
      absurd_test other
        ((==_iff _ _).1 (e ∙ sym (h.head_at ∙ home s.buffer.tail (2 ^ k) h.tail_in))))
  occupied_pos s (x ∷ q) i e h other = omega arith

  consume-Linear :
      (s : System A) (q : List A) (c : Consumer A)
      → ConsumerFits s.buffer.slots s.buffer.tail (length q) c
      → Represents (2 ^ k) s q
      → Linear (2 ^ k) q (consume_from k s c)
  unfolding consume_from
  consume-Linear s q waiting fits h =
      (q, refl, moved s q s.producer (at_tail s.buffer.tail) h h.producer_fits refl)
  consume-Linear s q (at_tail tail) fits h = elim (Bool-cases (tail == s.buffer.head)) [
    | inl same ↦
        let empty : q ≡ [] = empty_of_length q (λ some_.
          apart_of_pos (2 ^ k) s.buffer.tail (length q) h.tail_in h.room some_
            (sym h.head_at ∙ sym ((==_iff _ _).0 same) ∙ fits)) in
        rw same (q, (empty, empty), moved s q s.producer waiting h h.producer_fits tt)
    | inr other ↦ rw other (
      q,
      refl,
      moved s q s.producer (occupied tail) h h.producer_fits
          (fits, occupied_pos s q tail fits h other),
    )
  ]
  consume-Linear s q (occupied tail) fits h = (
    q,
    refl,
    moved s q s.producer (took tail (s.buffer.slots tail)) h h.producer_fits (fits.0, fits.1, refl),
  )
  consume-Linear s [] (took tail v) fits h = absurd (omega (arith, fits.1))
  consume-Linear s (x ∷ q) (took tail v) fits h = (
    q,
    ap (λ w. w ∷ q) (sym h.held.0 ∙ ap s.buffer.slots (sym fits.0) ∙ fits.2),
    record {
      room = omega (arith, h.room);
      tail_in = rw (past s (x ∷ q) tail fits.0 h) (mod-lt (s.buffer.tail + 1) (two_pow_pos k));
      head_at =
          h.head_at
          ∙ shift s.buffer.tail (length q) (2 ^ k)
          ∙ ap (λ i. (i + length q) % 2 ^ k) (sym (past s (x ∷ q) tail fits.0 h));
      held =
          subst (λ i. Holds s.buffer.slots (2 ^ k) i q) (sym (past s (x ∷ q) tail fits.0 h))
            h.held.1;
      producer_fits =
          ProducerFits-shrink (2 ^ k) s.buffer.slots s.buffer.head (length q) s.producer
            h.producer_fits;
      consumer_fits = tt;
    },
  )

  step-Linear :
      (s : System A) (q : List A) (t : Turn A)
      → Represents (2 ^ k) s q
      → Linear (2 ^ k) q (step k s t)
  unfolding step produce consume
  step-Linear s q (producer_turn v) h = produce-Linear v s q s.producer h.producer_fits h
  step-Linear s q consumer_turn h = consume-Linear s q s.consumer h.consumer_fits h

  -- From a system that represents a queue, however the accesses of the two threads interleave: the results of
  -- their calls are those of a first-in first-out queue of at most 2 ^ k - 1 items, in the order in which the
  -- calls take effect, with a push refused exactly when the queue is full at that moment and a pop finding
  -- nothing exactly when it is empty; and the buffer goes on holding the queue.
  pub run-ServesAll :
      (ts : List (Turn A)) (s : System A) (q : List A)
      → Represents (2 ^ k) s q
      → (r : List A) × ServesAll (2 ^ k) q (run k s ts).1 r × Represents (2 ^ k) (run k s ts).0 r
  unfolding run
  run-ServesAll [] s q h = (q, refl, h)
  run-ServesAll (t ∷ ts) s q h =
      let (m, one, kept) = step-Linear s q t h in
      let (r, rest, last) = run-ServesAll ts (step k s t).0 m kept in
      (r, log-ServesAll (2 ^ k) q m r (step k s t).1 (run k (step k s t).0 ts).1 one rest, last)

  pub fresh-Represents : (blank : A) → Represents (2 ^ k) (fresh blank) []
  unfolding fresh
  fresh-Represents blank = record {
    room = two_pow_pos k;
    tail_in = two_pow_pos k;
    head_at = sym (home 0 (2 ^ k) (two_pow_pos k));
    held = tt;
    producer_fits = tt;
    consumer_fits = tt;
  }
