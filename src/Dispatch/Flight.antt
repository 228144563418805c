-- ===== src/Dispatch/Flight.antt =====
-- src/app/command_dispatch.hpp: `dispatch_single_flight`, one slow command of a family at a time, access by access. The runner is a
-- parameter: it takes a job or refuses it, and starts a job that it has taken at any later instant; `on_claimed` and the handler return.
use snapback.Prelude.{ℕ, zero, suc, Bool, true, false, List, [], ◌∷◌, if◌then◌else◌}

pub data Reply : Type 0 where
  result busy shutting_down : Reply

-- What a request does next: try the gate; call `on_claimed`; call `submit`; wait with the runner; run the handler; give the gate back;
-- call `resolve`.
pub data Phase : Type 0 where
  calling claimed submitting queued running : Phase
  releasing resolving : Reply → Phase

pub data Next : Type 0 where
  moves : Phase → Next
  answers : Reply → Next

-- One access of a request, with the runner's answer if it is to `submit`: the gate behind it, and what comes next.
unfoldable pub dispatch_single_flight : Bool → Bool → Phase → Bool × Next
dispatch_single_flight active accepts calling =
    if active then (true, moves (resolving busy)) else (true, moves claimed)
dispatch_single_flight active accepts claimed = (active, moves submitting)
dispatch_single_flight active accepts submitting =
    if accepts then (active, moves queued) else (active, moves (releasing shutting_down))
dispatch_single_flight active accepts queued = (active, moves running)
dispatch_single_flight active accepts running = (active, moves (releasing result))
dispatch_single_flight active accepts (releasing reply) = (false, moves (resolving reply))
dispatch_single_flight active accepts (resolving reply) = (active, answers reply)

-- The gate, the requests that wait for a reply, and the replies, the last first.
pub record Family : Type 0 where
  pub active : Bool
  pub requests : List (ℕ × Phase)
  pub replies : List (ℕ × Reply)

abbrev pub idle_family : Family
idle_family = record { active = false; requests = []; replies = [] }

unfoldable pub put : ℕ → List (ℕ × Phase) → List (ℕ × Reply) → Bool × Next → Family
put r ps replies (active, moves p) = record {
  active = active;
  requests = (r, p) ∷ ps;
  replies = replies;
}
put r ps replies (active, answers reply) = record {
  active = active;
  requests = ps;
  replies = (r, reply) ∷ replies;
}

-- The request at a place in the list makes its next access.
unfoldable pub step : Bool → Bool → List (ℕ × Reply) → ℕ → List (ℕ × Phase) → Family
step active accepts replies i [] = record { active = active; requests = []; replies = replies }
step active accepts replies zero ((r, p) ∷ ps) =
    put r ps replies (dispatch_single_flight active accepts p)
step active accepts replies (suc i) (rp ∷ ps) =
    let f = step active accepts replies i ps in record f { requests = rp ∷ f.requests }

-- A new request, or the next access of one that waits.
pub data Event : Type 0 where
  arrives : ℕ → Event
  accesses : ℕ → Bool → Event

unfoldable pub handle : Family → Event → Family
handle f (arrives r) = record f { requests = (r, calling) ∷ f.requests }
handle f (accesses i accepts) = step f.active accepts f.replies i f.requests

unfoldable pub handle_all : Family → List Event → Family
handle_all f [] = f
handle_all f (e ∷ es) = handle_all (handle f e) es
