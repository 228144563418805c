-- ===== src/Activation/Launch.antt =====
-- src/app/activation_channel.cpp: what a second launch gets, and what it does to the running instance.
use snapback.Prelude.{
  ◌/◌, ◌%◌, ◌^◌, ◌∙◌, true, false, not, sym, subst, some, subst, if◌then◌else◌, some, ◌&&◌,
  length-append, Bool, ℕ, zero, suc, ◌≤◌, ◌≡◌, refl, ap, false, [], ◌∷◌, ◌++◌, length, arith,
}
use snapback.Prelude.Text.{text_eq, codes, starts_with, is_empty}
use snapback.Activation.Id.{
  fnv1a_from, hex_digits, fnv1a_hex, activation_channel_id, length-hex_digits, digit_is_no_break,
}
use snapback.Activation.Channel.{
  ack_refused, refused, activated, ack_ok, answered, max_request_bytes, request_body, Listener,
  serve_one, activation_request_matches, send_activation_request, activation_request_line,
  request_activation, Text, is_break, strip_breaks, take,
}

-- A text of one line.
unfoldable pub OneLine : Text → Type 0
OneLine [] = Unit
OneLine (c ∷ s) = (is_break c ≡ false) × OneLine s

strip_breaks-OneLine : (s : Text) → OneLine s → strip_breaks (s ++ 10 ∷ []) ≡ s
unfolding strip_breaks OneLine is_empty
strip_breaks-OneLine [] h = refl
strip_breaks-OneLine (c ∷ s) h = ground (arith, h.0, strip_breaks-OneLine s h.1)

OneLine-append : (s t : Text) → OneLine s → OneLine t → OneLine (s ++ t)
unfolding OneLine
OneLine-append [] t h k = k
OneLine-append (c ∷ s) t h k = (h.0, OneLine-append s t h.1 k)

take_all : (n : ℕ) (s : Text) → length s ≤ n → take n s ≡ s
unfolding take
take_all zero [] h = refl
take_all zero (c ∷ s) h = absurd (omega (arith, h))
take_all (suc n) [] h = refl
take_all (suc n) (c ∷ s) h = ap (λ t. c ∷ t) (take_all n s (omega (arith, h)))

request_body-OneLine : (id : Text) → OneLine id → OneLine (request_body id)
unfolding OneLine
request_body-OneLine id h = OneLine-append (codes "SNAPBACK-ACTIVATE 1 ") id prefix h
  where
    prefix : OneLine (codes "SNAPBACK-ACTIVATE 1 ")
    prefix = (
      refl,
      (
        refl,
        (
          refl,
          (
            refl,
            (
              refl,
              (
                refl,
                (
                  refl,
                  (
                    refl,
                    (
                      refl,
                      (
                        refl,
                        (
                          refl,
                          (
                            refl,
                            (refl, (refl, (refl, (refl, (refl, (refl, (refl, (refl, tt)))))))),
                          ),
                        ),
                      ),
                    ),
                  ),
                ),
              ),
            ),
          ),
        ),
      ),
    )

matches_iff :
    (id own : Text)
    → OneLine id
    → activation_request_matches (activation_request_line id) own ≡ text_eq id own
unfolding activation_request_matches activation_request_line text_eq
matches_iff id own h =
    ap (λ s. text_eq s (request_body own))
      (strip_breaks-OneLine (request_body id) (request_body-OneLine id h))

line_fits :
    (id : Text)
    → length id ≤ 200
    → take max_request_bytes (activation_request_line id) ≡ activation_request_line id
unfolding activation_request_line
line_fits id h =
    take_all max_request_bytes (request_body id ++ 10 ∷ [])
      (omega (arith, h, length-append id (10 ∷ [])))

-- What a connection does that is honoured or not.
abbrev outcome : Listener → Bool → Listener × Text
outcome l honoured =
    if honoured
    then (record l { activations = suc l.activations; calls = suc l.calls }, ack_ok ++ 10 ∷ [])
    else (l, ack_refused ++ 10 ∷ [])

served :
    (l : Listener) (id : Text) (same_user : Bool)
    → OneLine id
    → length id ≤ 200
    → serve_one l (some (activation_request_line id)) same_user
      ≡ outcome l (same_user && text_eq id l.channel_id)
unfolding serve_one is_empty activation_request_line
served l id same_user h k =
    ap
      (λ line.
        outcome l
          (not (is_empty line) && (same_user && activation_request_matches line l.channel_id)))
      (line_fits id k)
    ∙ ap (λ b. outcome l (same_user && b)) (matches_iff id l.channel_id h)

outcome_lem :
    (l : Listener) (honoured : Bool)
    → let o = outcome l honoured in
      (send_activation_request (answered o.1) ≡ (if honoured then activated else refused))
      × (o.0.activations ≡ (if honoured then suc l.activations else l.activations))
      × (o.0.calls ≡ (if honoured then suc l.calls else l.calls))
unfolding send_activation_request take is_empty starts_with
outcome_lem l true = (refl, refl, refl)
outcome_lem l false = (refl, refl, refl)

reaches :
    (l : Listener) (id : Text) (same_user : Bool)
    → OneLine id
    → length id ≤ 200
    → let (v, result) = request_activation l id same_user in
      let honoured = same_user && text_eq id l.channel_id in
      (result ≡ (if honoured then activated else refused))
      × (v.activations ≡ (if honoured then suc l.activations else l.activations))
      × (v.calls ≡ (if honoured then suc l.calls else l.calls))
unfolding request_activation
reaches l id same_user h k =
    subst
      (λ o.
        (send_activation_request (answered o.1)
          ≡ (if same_user && text_eq id l.channel_id then activated else refused))
        × (o.0.activations
            ≡ (if same_user && text_eq id l.channel_id then suc l.activations else l.activations))
        × (o.0.calls ≡ (if same_user && text_eq id l.channel_id then suc l.calls else l.calls)))
      (sym (served l id same_user h k)) (outcome_lem l (same_user && text_eq id l.channel_id))

hex_digits-OneLine : (n hash : ℕ) → OneLine (hex_digits n hash)
unfolding OneLine hex_digits
hex_digits-OneLine zero hash = tt
hex_digits-OneLine (suc n) hash =
    (digit_is_no_break (hash / 16 ^ n % 16), hex_digits-OneLine n hash)

channel_id_lem :
    {D : Type 0} (canonical : D → Text) (data_dir : D)
    → OneLine (activation_channel_id canonical data_dir)
      × (length (activation_channel_id canonical data_dir) ≤ 200)
unfolding activation_channel_id fnv1a_hex
channel_id_lem canonical data_dir = (
  hex_digits-OneLine 16 (fnv1a_from 1469598103934665603 (canonical data_dir)),
  omega (arith, length-hex_digits 16 (fnv1a_from 1469598103934665603 (canonical data_dir))),
)

-- A second launch that reaches an instance running for a data directory is told that it was activated exactly when it is of the same user
-- and the hash of its own data directory is the same; then the instance counts it once and shows itself once, and otherwise not at all.
pub second_launch :
    {D : Type 0} (canonical : D → Text) (l : Listener) (mine theirs : D) (same_user : Bool)
    → l.channel_id ≡ activation_channel_id canonical theirs
    → let (v, result) = request_activation l (activation_channel_id canonical mine) same_user in
      let honoured =
        same_user
        && text_eq
            (activation_channel_id canonical mine)
            (activation_channel_id canonical theirs) in
      (result ≡ (if honoured then activated else refused))
      × (v.activations ≡ (if honoured then suc l.activations else l.activations))
      × (v.calls ≡ (if honoured then suc l.calls else l.calls))
second_launch canonical l mine theirs same_user e =
    let id = activation_channel_id canonical mine in
    let (one_line, fits) = channel_id_lem canonical mine in
    let P : Text → Type 0 = λ own.
      let (v, result) = request_activation l id same_user in
      let honoured = same_user && text_eq id own in
      (result ≡ (if honoured then activated else refused))
      × (v.activations ≡ (if honoured then suc l.activations else l.activations))
      × (v.calls ≡ (if honoured then suc l.calls else l.calls)) in
    subst P e (reaches l id same_user one_line fits)
