-- ===== src/Origin/Url.antt =====
-- src/app/webview_origin.cpp: the canonical form of a URL, and the decision on a navigation. Texts are lists of bytes.
use snapback.Prelude.{
  ℕ, suc, ◌==◌, Bool, true, false, not, ◌&&◌, ◌||◌, List, [], ◌∷◌, ◌++◌, length, if◌then◌else◌,
}
use snapback.Prelude.Text.{codes, lower, starts_with, drop, is_empty, text_eq}

abbrev pub Text : Type 0
Text = List ℕ

-- `erase(find_first_of("?#"))`.
unfoldable pub cut_query : Text → Text
cut_query [] = []
cut_query (c ∷ s) = let rest = cut_query s in if c == 63 || c == 35 then [] else c ∷ rest

-- What stands before the first `sep`, or the whole text; and what begins with it.
unfoldable pub before : ℕ → Text → Text
before sep [] = []
before sep (c ∷ s) = let rest = before sep s in if c == sep then [] else c ∷ rest

unfoldable pub from : ℕ → Text → Text
from sep [] = []
from sep (c ∷ s) = let rest = from sep s in if c == sep then c ∷ s else rest

unfoldable pub holds : ℕ → Text → Bool
holds sep [] = false
holds sep (c ∷ s) = c == sep || holds sep s

-- The scheme in lower case, and nothing where there is no colon.
unfoldable pub scheme_of : Text → Text
scheme_of url = if holds 58 url then lower (before 58 url) else []

unfoldable pub skip_slashes : Text → Text
skip_slashes [] = []
skip_slashes (c ∷ s) = let rest = skip_slashes s in if c == 47 then rest else c ∷ s

-- The pieces between the slashes; `getline` leaves out an empty last one, which is skipped all the same.
abbrev pub extend : ℕ → List Text → List Text
extend c [] = (c ∷ []) ∷ []
extend c (p ∷ ps) = (c ∷ p) ∷ ps

unfoldable pub pieces : Text → List Text
pieces [] = [] ∷ []
pieces (c ∷ s) = let rest = pieces s in if c == 47 then [] ∷ rest else extend c rest

abbrev pub pop : List Text → List Text
pop [] = []
pop (p ∷ ps) = ps

-- One round of the loop: the parts so far, the last one first.
unfoldable pub step : List Text → Text → List Text
step parts segment =
    if is_empty segment || text_eq segment (codes ".")
    then parts
    else if text_eq segment (codes "..")
    then pop parts
    else segment ∷ parts

unfoldable pub collapse : List Text → List Text → List Text
collapse parts [] = parts
collapse parts (p ∷ ps) = collapse (step parts p) ps

-- A slash before each part, from the last part of the list to its first.
unfoldable pub join : List Text → Text
join [] = []
join (p ∷ ps) = join ps ++ (47 ∷ p)

unfoldable pub normalize_path_segments : Text → Text
normalize_path_segments path =
    let out = join (collapse [] (pieces path)) in
    if is_empty out then (if starts_with path (codes "/") then codes "/" else []) else out

unfoldable pub slashes : Text → Text
slashes [] = []
slashes (c ∷ s) = (if c == 92 then 47 else c) ∷ slashes s

abbrev pub file_url : Text → Text
file_url behind =
    codes "file://" ++ lower (normalize_path_segments (slashes (47 ∷ skip_slashes behind)))

abbrev pub other_url : Text → Text → Text
other_url scheme behind =
    let rest = skip_slashes behind in
    scheme ++ (codes "://" ++ (lower (before 47 rest) ++ normalize_path_segments (from 47 rest)))

-- What `canonical_document_url` does behind the cut.
unfoldable pub canonical_value : Text → Text
canonical_value value =
    let scheme = scheme_of value in
    let behind = drop (suc (length scheme)) value in
    if is_empty scheme
    then lower value
    else if text_eq scheme (codes "file")
    then file_url behind
    else other_url scheme behind

abbrev pub canonical_document_url : Text → Text
canonical_document_url url = canonical_value (cut_query url)

-- The authority of an http URL, up to its first colon, is a loopback name.
unfoldable pub is_loopback_authority : Text → Bool
is_loopback_authority canonical =
    let authority = before 58 (before 47 (drop 7 canonical)) in
    if not (starts_with canonical (codes "http://"))
    then false
    else text_eq authority (codes "localhost")
      || text_eq authority (codes "127.0.0.1")
      || text_eq authority (codes "[::1]")

unfoldable pub is_trusted_document : Text → Text → Bool → Bool
is_trusted_document url trusted_url debug_build =
    let canonical = canonical_document_url url in
    if is_empty url || is_empty trusted_url
    then false
    else if text_eq canonical (canonical_document_url trusted_url)
    then true
    else debug_build && is_loopback_authority canonical

pub data NavigationDecision : Type 0 where
  allowed open_externally blocked : NavigationDecision

unfoldable pub classify_navigation : Text → Text → Bool → NavigationDecision
classify_navigation target trusted_url debug_build =
    let scheme = scheme_of (canonical_document_url target) in
    if is_empty target
    then blocked
    else if is_trusted_document target trusted_url debug_build
    then allowed
    else if text_eq scheme (codes "http")
        || text_eq scheme (codes "https")
        || text_eq scheme (codes "mailto")
    then open_externally
    else blocked
