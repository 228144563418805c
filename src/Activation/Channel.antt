-- ===== src/Activation/Channel.antt =====
-- src/app/activation_channel.hpp, and the Unix branch of src/app/activation_channel.cpp. What the calls of the system return is an
-- argument; a channel id is the text that both processes compute.
use snapback.Prelude.{
  ℕ, zero, suc, ◌==◌, Bool, not, ◌&&◌, ◌||◌, List, [], ◌∷◌, ◌++◌, Option, none, some, if◌then◌else◌,
}
use snapback.Prelude.Int.{ℤ, pos, ltb_ℤ}
use snapback.Prelude.Text.{codes, starts_with, is_empty, text_eq}

abbrev pub Text : Type 0
Text = List ℕ

pub data ActivationResult : Type 0 where
  activated no_owner timed_out refused error : ActivationResult

abbrev pub max_request_bytes : ℕ
max_request_bytes = 256

abbrev pub activation_timeout_ms : ℤ
activation_timeout_ms = pos 1500

unfoldable pub clamp_timeout : ℤ → ℤ
clamp_timeout timeout_ms =
    if ltb_ℤ timeout_ms (pos 0)
    then pos 0
    else if ltb_ℤ activation_timeout_ms timeout_ms
    then activation_timeout_ms
    else timeout_ms

abbrev pub ack_ok : Text
ack_ok = codes "OK"

abbrev pub ack_refused : Text
ack_refused = codes "REFUSED"

-- The tag, the version and the id, without the line break that frames them.
abbrev pub request_body : Text → Text
request_body channel_id = codes "SNAPBACK-ACTIVATE 1 " ++ channel_id

unfoldable pub activation_request_line : Text → Text
activation_request_line channel_id = request_body channel_id ++ 10 ∷ []

abbrev pub is_break : ℕ → Bool
is_break c = c == 10 || c == 13

-- The loop that takes line breaks off the end.
unfoldable pub strip_breaks : Text → Text
strip_breaks [] = []
strip_breaks (c ∷ s) =
    let rest = strip_breaks s in if is_empty rest && is_break c then [] else c ∷ rest

unfoldable pub activation_request_matches : Text → Text → Bool
activation_request_matches line channel_id = text_eq (strip_breaks line) (request_body channel_id)

-- What `read` puts into the buffer: no more than it holds.
unfoldable pub take : ℕ → Text → Text
take zero s = []
take (suc n) [] = []
take (suc n) (c ∷ s) = c ∷ take n s

-- The listener: its id, how many requests it has honoured, and how often it has called `on_activate`.
pub record Listener : Type 0 where
  pub channel_id : Text
  pub activations : ℕ
  pub calls : ℕ

-- One connection: what the other end sent, if `read` gives anything, and whether it is the same user. The answer is what is written.
unfoldable pub serve_one : Listener → Option Text → Bool → Listener × Text
serve_one l none same_user = (l, ack_refused ++ 10 ∷ [])
serve_one l (some sent) same_user =
    let line = take max_request_bytes sent in
    if not (is_empty line) && (same_user && activation_request_matches line l.channel_id)
    then (record l { activations = suc l.activations; calls = suc l.calls }, ack_ok ++ 10 ∷ [])
    else (l, ack_refused ++ 10 ∷ [])

-- How the calls of the requesting process end: the address too long or no socket; the connection refused by `errno`; the write
-- failed; nothing read; or an answer.
pub data Exchange : Type 0 where
  no_socket : Exchange
  not_connected : Bool → Exchange
  not_written : Exchange
  nothing_read : Exchange
  answered : Text → Exchange

-- `not_connected` says whether the error is ENOENT or ECONNREFUSED.
unfoldable pub send_activation_request : Exchange → ActivationResult
send_activation_request no_socket = error
send_activation_request (not_connected missing) = if missing then no_owner else error
send_activation_request not_written = error
send_activation_request nothing_read = timed_out
send_activation_request (answered sent) =
    let ack = take max_request_bytes sent in
    if is_empty ack
    then timed_out
    else if starts_with ack ack_ok
    then activated
    else if starts_with ack ack_refused
    then refused
    else error

-- A second launch for `channel_id` that reaches a listener.
unfoldable pub request_activation : Listener → Text → Bool → Listener × ActivationResult
request_activation l channel_id same_user =
    let (served, ack) = serve_one l (some (activation_request_line channel_id)) same_user in
    (served, send_activation_request (answered ack))
