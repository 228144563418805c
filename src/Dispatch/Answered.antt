-- ===== src/Dispatch/Answered.antt =====
-- src/app/command_dispatch.hpp: every request to a family of commands is answered once.
use snapback.Prelude.{
  ℕ, zero, suc, ◌+◌, ◌≡◌, ◌≤◌, refl, Bool, true, false, List, [], ◌∷◌, length, if◌then◌else◌, ◌==◌,
  ltb, arith,
}
use snapback.Dispatch.Flight.{
  Reply, Phase, calling, claimed, submitting, queued, running, releasing, resolving,
  dispatch_single_flight, Family, idle_family, put, step, Event, arrives, accesses, handle,
  handle_all,
}

unfoldable pub count : {A : Type 0} → ℕ → List (ℕ × A) → ℕ
count r [] = 0
count r ((q, a) ∷ qs) = (if q == r then 1 else 0) + count r qs

unfoldable pub count_arrivals : ℕ → List Event → ℕ
count_arrivals r [] = 0
count_arrivals r (arrives q ∷ es) = (if q == r then 1 else 0) + count_arrivals r es
count_arrivals r (accesses i accepts ∷ es) = count_arrivals r es

-- Whether a request is between taking the gate and giving it back.
unfoldable pub holds : Phase → ℕ
holds calling = 0
holds claimed = 1
holds submitting = 1
holds queued = 1
holds running = 1
holds (releasing reply) = 1
holds (resolving reply) = 0

unfoldable pub holders : List (ℕ × Phase) → ℕ
holders [] = 0
holders ((r, p) ∷ ps) = holds p + holders ps

-- The most accesses that are left to a request.
unfoldable pub to_go : Phase → ℕ
to_go calling = 7
to_go claimed = 6
to_go submitting = 5
to_go queued = 4
to_go running = 3
to_go (releasing reply) = 2
to_go (resolving reply) = 1

unfoldable pub all_to_go : List (ℕ × Phase) → ℕ
all_to_go [] = 0
all_to_go ((r, p) ∷ ps) = to_go p + all_to_go ps

abbrev pub one_if : Bool → ℕ
one_if true = 1
one_if false = 0

-- A request that holds the gate finds it held, if there is any other or not.
put-holders :
    (active accepts : Bool) (r : ℕ) (p : Phase) (ps : List (ℕ × Phase)) (replies : List (ℕ × Reply))
    (others : ℕ)
    → others + (holds p + holders ps) ≡ one_if active
    → let f = put r ps replies (dispatch_single_flight active accepts p) in
      others + holders f.requests ≡ one_if f.active
unfolding put dispatch_single_flight holders holds
put-holders active accepts r calling ps replies others h = ground (arith, h)
put-holders active accepts r claimed ps replies others h = ground (arith, h)
put-holders active accepts r submitting ps replies others h = ground (arith, h)
put-holders active accepts r queued ps replies others h = ground (arith, h)
put-holders active accepts r running ps replies others h = ground (arith, h)
put-holders active accepts r (releasing reply) ps replies others h = ground (arith, h)
put-holders active accepts r (resolving reply) ps replies others h = ground (arith, h)

step-holders :
    (active accepts : Bool) (replies : List (ℕ × Reply)) (i : ℕ) (ps : List (ℕ × Phase))
    (others : ℕ)
    → others + holders ps ≡ one_if active
    → let f = step active accepts replies i ps in others + holders f.requests ≡ one_if f.active
unfolding step holders
step-holders active accepts replies i [] others h = h
step-holders active accepts replies zero ((r, p) ∷ ps) others h =
    put-holders active accepts r p ps replies others h
step-holders active accepts replies (suc i) ((r, p) ∷ ps) others h =
    let rest = step-holders active accepts replies i ps (others + holds p) (omega (arith, h)) in
    omega (arith, rest)

put-count :
    (active accepts : Bool) (k r : ℕ) (p : Phase) (ps : List (ℕ × Phase))
    (replies : List (ℕ × Reply))
    → let f = put r ps replies (dispatch_single_flight active accepts p) in
      count k f.replies + count k f.requests ≡ count k replies + count k ((r, p) ∷ ps)
unfolding put dispatch_single_flight count
put-count active accepts k r calling ps replies = ground arith
put-count active accepts k r claimed ps replies = ground arith
put-count active accepts k r submitting ps replies = ground arith
put-count active accepts k r queued ps replies = ground arith
put-count active accepts k r running ps replies = ground arith
put-count active accepts k r (releasing reply) ps replies = ground arith
put-count active accepts k r (resolving reply) ps replies = ground arith

step-count :
    (active accepts : Bool) (k : ℕ) (replies : List (ℕ × Reply)) (i : ℕ) (ps : List (ℕ × Phase))
    → let f = step active accepts replies i ps in
      count k f.replies + count k f.requests ≡ count k replies + count k ps
unfolding step count
step-count active accepts k replies i [] = refl
step-count active accepts k replies zero ((r, p) ∷ ps) = put-count active accepts k r p ps replies
step-count active accepts k replies (suc i) ((r, p) ∷ ps) =
    omega (arith, step-count active accepts k replies i ps)

put-to_go :
    (active accepts : Bool) (r : ℕ) (p : Phase) (ps : List (ℕ × Phase)) (replies : List (ℕ × Reply))
    → suc (all_to_go (put r ps replies (dispatch_single_flight active accepts p)).requests)
      ≤ to_go p + all_to_go ps
unfolding put dispatch_single_flight all_to_go to_go
put-to_go active accepts r calling ps replies = ground arith
put-to_go active accepts r claimed ps replies = ground arith
put-to_go active accepts r submitting ps replies = ground arith
put-to_go active accepts r queued ps replies = ground arith
put-to_go active accepts r running ps replies = ground arith
put-to_go active accepts r (releasing reply) ps replies = ground arith
put-to_go active accepts r (resolving reply) ps replies = ground arith

step-to_go :
    (active accepts : Bool) (replies : List (ℕ × Reply)) (i : ℕ) (ps : List (ℕ × Phase))
    → all_to_go (step active accepts replies i ps).requests + one_if (ltb i (length ps))
      ≤ all_to_go ps
unfolding step all_to_go
step-to_go active accepts replies i [] = ground arith
step-to_go active accepts replies zero ((r, p) ∷ ps) =
    let nearer = put-to_go active accepts r p ps replies in ground (arith, nearer)
step-to_go active accepts replies (suc i) ((r, p) ∷ ps) =
    let rest = step-to_go active accepts replies i ps in ground (arith, rest)

handle-holders :
    (f : Family) (e : Event)
    → holders f.requests ≡ one_if f.active
    → holders (handle f e).requests ≡ one_if (handle f e).active
unfolding handle holders holds
handle-holders f (arrives r) h = omega (arith, h)
handle-holders f (accesses i accepts) h =
    let rest = step-holders f.active accepts f.replies i f.requests 0 (omega (arith, h)) in
    omega (arith, rest)

handle_all-holders :
    (f : Family) (es : List Event)
    → holders f.requests ≡ one_if f.active
    → holders (handle_all f es).requests ≡ one_if (handle_all f es).active
unfolding handle_all
handle_all-holders f [] h = h
handle_all-holders f (e ∷ es) h = handle_all-holders (handle f e) es (handle-holders f e h)

handle-count :
    (f : Family) (e : Event) (es : List Event) (r : ℕ)
    → count r (handle f e).replies + count r (handle f e).requests + count_arrivals r es
      ≡ count r f.replies + count r f.requests + count_arrivals r (e ∷ es)
unfolding handle count count_arrivals
handle-count f (arrives q) es r = omega arith
handle-count f (accesses i accepts) es r =
    omega (arith, step-count f.active accepts r f.replies i f.requests)

handle_all-count :
    (f : Family) (es : List Event) (r : ℕ)
    → count r (handle_all f es).replies + count r (handle_all f es).requests
      ≡ count r f.replies + count r f.requests + count_arrivals r es
unfolding handle_all count_arrivals
handle_all-count f [] r = omega arith
handle_all-count f (e ∷ es) r =
    omega (arith, handle_all-count (handle f e) es r, handle-count f e es r)

-- However the accesses of the requests and of their jobs interleave: each request is answered exactly once or waits, since its replies
-- and the times that it waits are together as many as the times that it arrived; the gate is held by exactly one request, from its
-- exchange to its store, while the flag is set, and by none while it is not; and every access of one that waits brings the end nearer.
pub answered_once :
    (es : List Event) (r i : ℕ) (accepts : Bool)
    → let f = handle_all idle_family es in
      (count r f.replies + count r f.requests ≡ count_arrivals r es)
      × (holders f.requests ≡ one_if f.active)
      × (all_to_go (handle f (accesses i accepts)).requests + one_if (ltb i (length f.requests))
          ≤ all_to_go f.requests)
unfolding handle count holders
answered_once es r i accepts =
    let f = handle_all idle_family es in
    (
      omega (arith, handle_all-count idle_family es r),
      handle_all-holders idle_family es refl,
      step-to_go f.active accepts f.replies i f.requests,
    )
