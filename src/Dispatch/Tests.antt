-- ===== src/Dispatch/Tests.antt =====
-- Requests to one family of commands, tokens, and the theorems at them.
use snapback.Prelude.{◌≤◌, ltb, ℕ, List, [], ◌∷◌, arith, ◌≡◌, ◌+◌, true, length}
use snapback.Dispatch.Input.{utf8_scalar_count}
use snapback.Dispatch.Utf8.{encode_all, AllScalar, utf8_scalar_count-encode_all}
use snapback.Dispatch.Flight.{idle_family, arrives, accesses, handle, handle_all, Event}
use snapback.Dispatch.Answered.{count, count_arrivals, holders, all_to_go, one_if, answered_once}

-- a second request while the first job is out, and the first one to its end
abbrev traffic : List Event
traffic =
    arrives 1
    ∷ accesses 0 true
    ∷ arrives 2
    ∷ accesses 0 true
    ∷ accesses 1 true
    ∷ accesses 1 true
    ∷ accesses 1 true
    ∷ accesses 1 true
    ∷ []

answered_once_example :
    let f = handle_all idle_family traffic in
    (count 2 f.replies + count 2 f.requests ≡ count_arrivals 2 traffic)
    × (holders f.requests ≡ one_if f.active)
    × (all_to_go (handle f (accesses 1 true)).requests + one_if (ltb 1 (length f.requests))
        ≤ all_to_go f.requests)
answered_once_example = answered_once traffic 2 1 true

-- a letter, an umlaut, the euro sign and a face, of one to four bytes
abbrev four_widths : List ℕ
four_widths = 97 ∷ 252 ∷ 8364 ∷ 128512 ∷ []

utf8_scalar_count-encode_all_example : utf8_scalar_count (encode_all four_widths) ≡ 4
unfolding AllScalar
utf8_scalar_count-encode_all_example =
    utf8_scalar_count-encode_all four_widths
      (omega arith, (omega arith, (omega arith, (omega arith, tt))))
