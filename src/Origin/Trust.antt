-- ===== src/Origin/Trust.antt =====
-- src/app/webview_origin.cpp: what is trusted.
use snapback.Prelude.{
  ℕ, ◌==◌, ◌≡◌, ◌≢◌, ◌↔◌, refl, ap, sym, ◌∙◌, Bool, true, false, ◌||◌, [], ◌∷◌, ◌++◌, arith,
  if◌then◌else◌,
}
use snapback.Prelude.Text.{lower, drop, starts_with, codes, text_eq, is_empty}
use snapback.Origin.Url.{
  skip_slashes, holds, before, Text, cut_query, canonical_document_url, canonical_value,
  is_loopback_authority, is_trusted_document, classify_navigation, scheme_of, allowed,
  open_externally, blocked,
}

text_eq_self : (s : Text) → text_eq s s ≡ true
unfolding text_eq
text_eq_self [] = refl
text_eq_self (c ∷ s) = ground (arith, text_eq_self s)

cut_query-append :
    (s q : Text) (c : ℕ) → (c == 63 || c == 35) ≡ true → cut_query (s ++ c ∷ q) ≡ cut_query s
unfolding cut_query
cut_query-append [] q c h = ground (arith, h)
cut_query-append (d ∷ s) q c h = ground (arith, cut_query-append s q c h)

-- A query or a fragment changes nothing of the form of a URL.
canonical_query :
    (url q : Text) (c : ℕ)
    → (c == 63 || c == 35) ≡ true
    → canonical_document_url (url ++ c ∷ q) ≡ canonical_document_url url
canonical_query url q c h = ap canonical_value (cut_query-append url q c h)

text_eq_sound : (s t : Text) → text_eq s t ≡ true → s ≡ t
unfolding text_eq
text_eq_sound [] [] h = refl
text_eq_sound [] (d ∷ t) h = cc
text_eq_sound (c ∷ s) [] h = cc
text_eq_sound (c ∷ s) (d ∷ t) h = ground (arith, h, text_eq_sound s t)

text_eq_iff : (s t : Text) → (text_eq s t ≡ true) ↔ (s ≡ t)
text_eq_iff s t = (text_eq_sound s t, λ e. ap (text_eq s) (sym e) ∙ text_eq_self s)

is_empty-false : (s : Text) → s ≢ [] → is_empty s ≡ false
unfolding is_empty
is_empty-false [] h = absurd (h refl)
is_empty-false (c ∷ s) h = refl

decides :
    (b : Bool) (rest : Bool)
    → ((if b then allowed else if rest then open_externally else blocked) ≡ allowed) ↔ (b ≡ true)
decides true rest = (λ h. refl, λ h. refl)
decides false true = (λ h. cc, λ h. cc)
decides false false = (λ h. cc, λ h. cc)

trusted_iff :
    (url trusted_url : Text)
    → url ≢ []
    → trusted_url ≢ []
    → is_trusted_document url trusted_url false
      ≡ text_eq (canonical_document_url url) (canonical_document_url trusted_url)
unfolding is_trusted_document
trusted_iff url trusted_url h k = ground (arith, is_empty-false url h, is_empty-false trusted_url k)

-- A scheme whose documents open in the browser.
abbrev goes_out : Text → Bool
goes_out canonical =
    let scheme = scheme_of canonical in
    text_eq scheme (codes "http")
    || text_eq scheme (codes "https")
    || text_eq scheme (codes "mailto")

classify_release :
    (target trusted_url : Text)
    → target ≢ []
    → trusted_url ≢ []
    → classify_navigation target trusted_url false ≡ (
        if text_eq (canonical_document_url target) (canonical_document_url trusted_url)
        then allowed
        else if goes_out (canonical_document_url target)
        then open_externally
        else blocked)
unfolding classify_navigation
classify_release target trusted_url h k =
    ground (arith, is_empty-false target h, trusted_iff target trusted_url h k)

append_ne : (s q : Text) (c : ℕ) → s ++ c ∷ q ≢ []
append_ne [] q c h = cc
append_ne (d ∷ s) q c h = cc

-- In a release build a navigation is allowed exactly when its target, without query and fragment, has the form of the trusted URL,
-- where neither is empty; a query or a fragment behind the target changes nothing.
pub release_navigation :
    (target trusted_url query : Text) (c : ℕ)
    → target ≢ []
    → trusted_url ≢ []
    → (c == 63 || c == 35) ≡ true
    → ((classify_navigation target trusted_url false ≡ allowed)
        ↔ (canonical_document_url target ≡ canonical_document_url trusted_url))
      × (classify_navigation (target ++ c ∷ query) trusted_url false
          ≡ classify_navigation target trusted_url false)
release_navigation target trusted_url query c h k mark =
    let same =
      decides (text_eq (canonical_document_url target) (canonical_document_url trusted_url))
        (goes_out (canonical_document_url target)) in
    let here = classify_release target trusted_url h k in
    (
      (λ e. text_eq_sound _ _ (same.0 (sym here ∙ e)), λ e. here ∙ same.1 ((text_eq_iff _ _).1 e)),
      classify_release (target ++ c ∷ query) trusted_url (append_ne target query c) k
          ∙ ap
              (λ u.
                if text_eq u (canonical_document_url trusted_url)
                then allowed
                else if goes_out u
                then open_externally
                else blocked)
              (canonical_query target query c mark)
          ∙ sym here,
    )

loopback_name :
    (s : Text)
    → is_loopback_authority (canonical_document_url (codes "http://localhost:" ++ s)) ≡ true
unfolding is_loopback_authority canonical_value starts_with is_empty scheme_of holds cut_query lower
    before text_eq drop skip_slashes
loopback_name s = refl

loopback_v6 :
    (s : Text) → is_loopback_authority (canonical_document_url (codes "http://[::1]" ++ s)) ≡ false
unfolding is_loopback_authority canonical_value starts_with is_empty scheme_of holds cut_query lower
    before text_eq drop skip_slashes
loopback_v6 s = refl

-- In a debug build every URL that begins with `http://localhost:` is allowed, whatever follows, a user name and another host
-- included; and the build makes no difference to the URLs of the loopback address of IPv6.
pub debug_loopback :
    (s trusted_url : Text)
    → trusted_url ≢ []
    → (classify_navigation (codes "http://localhost:" ++ s) trusted_url true ≡ allowed)
      × (is_trusted_document (codes "http://[::1]" ++ s) trusted_url true
          ≡ is_trusted_document (codes "http://[::1]" ++ s) trusted_url false)
unfolding classify_navigation is_trusted_document is_empty
debug_loopback s trusted_url h =
    (ground (arith, is_empty-false trusted_url h, loopback_name s), ground (arith, loopback_v6 s))
