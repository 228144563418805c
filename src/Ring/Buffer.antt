-- ===== src/Ring/Buffer.antt =====
-- src/capture/ring_buffer.hpp: `RingBuffer`, whole calls and the atomic accesses that they make.
-- The capacity is 2 ^ k. Atomics are sequentially consistent here: with one writer for each index,
-- the source's acquire and release pairs give the same orders between an index and its slot.
use Prim.Native.Nat.{bit_and}
use snapback.Prelude.{
  ℕ, ◌+◌, ◌-◌, ◌%◌, ◌^◌, Bool, true, false, not, Option, none, some, List, [], ◌∷◌, ltb, ◌==◌,
  if◌then◌else◌, update,
}

-- `slots_` is a function of the index; `Ring.Linear.threads_apart` shows that every index used is below
-- the capacity.
pub record RingBuffer (A : Type 0) : Type 0 where
  pub slots : ℕ → A
  pub head : ℕ
  pub high_water : ℕ
  pub tail : ℕ

-- `std::size_t` sums and differences wrap.
abbrev pub add_size : ℕ → ℕ → ℕ
add_size a b = (a + b) % 2 ^ 64

abbrev pub sub_size : ℕ → ℕ → ℕ
sub_size a b = (a + 2 ^ 64 - b) % 2 ^ 64

-- `x & kMask`
abbrev pub mask : ℕ → ℕ → ℕ
mask k x = bit_and x (2 ^ k - 1)

module _ {A : Type 0} where
  unfoldable pub push : ℕ → RingBuffer A → A → RingBuffer A × Bool
  push k b value =
      let next = mask k (add_size b.head 1) in
      let occupancy = mask k (sub_size next b.tail) in
      let stored = record b { slots = update b.slots b.head value; head = next } in
      if next == b.tail
      then (b, false)
      else if ltb b.high_water occupancy
      then (record stored { high_water = occupancy }, true)
      else (stored, true)

  unfoldable pub pop : ℕ → RingBuffer A → RingBuffer A × Option A
  pop k b =
      if b.tail == b.head
      then (b, none)
      else (record b { tail = mask k (add_size b.tail 1) }, some (b.slots b.tail))

  unfoldable pub has_pending : RingBuffer A → Bool
  has_pending b = not (b.tail == b.head)

-- Where a thread stands between two accesses, with what it has loaded.
pub data Producer (A : Type 0) : Type 0 where
  ready : Producer A
  at_head : A → ℕ → Producer A
  admitted : A → ℕ → ℕ → Producer A
  filled : A → ℕ → ℕ → Producer A
  published : ℕ → ℕ → Producer A

pub data Consumer (A : Type 0) : Type 0 where
  waiting : Consumer A
  at_tail : ℕ → Consumer A
  occupied : ℕ → Consumer A
  took : ℕ → A → Consumer A

pub record System (A : Type 0) : Type 0 where
  pub buffer : RingBuffer A
  pub producer : Producer A
  pub consumer : Consumer A

-- What a call does to the queue, at the access that decides it.
pub data Event (A : Type 0) : Type 0 where
  pushed refused popped : A → Event A
  found_empty : Event A

module _ {A : Type 0} where
  -- The next access of `push`: load of the head; load of the tail; write of the slot; store of the
  -- head; the high-water mark. A resting producer begins to push `value`.
  unfoldable pub produce_from : ℕ → A → System A → Producer A → System A × Option (Event A)
  produce_from k value s ready = (record s { producer = at_head value s.buffer.head }, none)
  produce_from k value s (at_head v head) =
      if mask k (add_size head 1) == s.buffer.tail
      then (record s { producer = ready }, some (refused v))
      else (record s { producer = admitted v head s.buffer.tail }, none)
  produce_from k value s (admitted v head tail) = (
    record s {
      buffer = record (s.buffer) { slots = update s.buffer.slots head v };
      producer = filled v head tail;
    },
    none,
  )
  produce_from k value s (filled v head tail) = (
    record s {
      buffer = record (s.buffer) { head = mask k (add_size head 1) };
      producer = published head tail;
    },
    some (pushed v),
  )
  produce_from k value s (published head tail) =
      let occupancy = mask k (sub_size (mask k (add_size head 1)) tail) in
      (
        record s {
          buffer = record (s.buffer) {
            high_water =
                if ltb s.buffer.high_water occupancy then occupancy else s.buffer.high_water;
          };
          producer = ready;
        },
        none,
      )

  unfoldable pub produce : ℕ → A → System A → System A × Option (Event A)
  produce k value s = produce_from k value s s.producer

  -- The next access of `pop`: load of the tail; load of the head; move out of the slot; store of
  -- the tail.
  unfoldable pub consume_from : ℕ → System A → Consumer A → System A × Option (Event A)
  consume_from k s waiting = (record s { consumer = at_tail s.buffer.tail }, none)
  consume_from k s (at_tail tail) =
      if tail == s.buffer.head
      then (record s { consumer = waiting }, some found_empty)
      else (record s { consumer = occupied tail }, none)
  consume_from k s (occupied tail) = (record s { consumer = took tail (s.buffer.slots tail) }, none)
  consume_from k s (took tail v) = (
    record s { buffer = record (s.buffer) { tail = mask k (add_size tail 1) }; consumer = waiting },
    some (popped v),
  )

  unfoldable pub consume : ℕ → System A → System A × Option (Event A)
  consume k s = consume_from k s s.consumer

-- Which thread runs next; a producer that is ready begins to push the value.
pub data Turn (A : Type 0) : Type 0 where
  producer_turn : A → Turn A
  consumer_turn : Turn A

module _ {A : Type 0} where
  unfoldable pub step : ℕ → System A → Turn A → System A × Option (Event A)
  step k s (producer_turn v) = produce k v s
  step k s consumer_turn = consume k s

  abbrev pub log : Option (Event A) → List (Event A) → List (Event A)
  log none es = es
  log (some e) es = e ∷ es

  -- The state and the events, in order, of an interleaving.
  unfoldable pub run : ℕ → System A → List (Turn A) → System A × List (Event A)
  run k s [] = (s, [])
  run k s (t ∷ ts) = let (u, e) = step k s t in let (v, es) = run k u ts in (v, log e es)

  unfoldable pub fresh : A → System A
  fresh blank = record {
    buffer = record { slots = λ _. blank; head = 0; high_water = 0; tail = 0 };
    producer = ready;
    consumer = waiting;
  }
