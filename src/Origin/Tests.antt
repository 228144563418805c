-- ===== src/Origin/Tests.antt =====
-- A page of the application and its doubles, and the theorems at them.
use snapback.Prelude.{◌≡◌, ◌≢◌, ◌↔◌, refl, true, false, ◌++◌, []}
use snapback.Prelude.Text.{codes}
use snapback.Origin.Url.{
  is_trusted_document, Text, pieces, collapse, normalize_path_segments, canonical_document_url,
  classify_navigation, allowed,
}
use snapback.Origin.Paths.{AllNames, normalize_path_segments_lem}
use snapback.Origin.Trust.{release_navigation, debug_loopback}

abbrev page : Text
page = codes "file:///opt/snapback/ui/index.html"

abbrev alias : Text
alias = codes "FILE:/opt/x/../snapback/./ui//index.html"

alias_nonempty : alias ≢ []
alias_nonempty h = cc

page_nonempty : page ≢ []
page_nonempty h = cc

release_navigation_example :
    ((classify_navigation alias page false ≡ allowed)
      ↔ (canonical_document_url alias ≡ canonical_document_url page))
    × (classify_navigation (alias ++ codes "?x=1") page false
        ≡ classify_navigation alias page false)
release_navigation_example =
    release_navigation alias page (codes "x=1") 63 alias_nonempty page_nonempty refl

normalize_path_segments_lem_example :
    AllNames (collapse [] (pieces (codes "/a/../../b/./c")))
    × (normalize_path_segments (normalize_path_segments (codes "/a/../../b/./c"))
        ≡ normalize_path_segments (codes "/a/../../b/./c"))
normalize_path_segments_lem_example = normalize_path_segments_lem (codes "/a/../../b/./c")

debug_loopback_example :
    (classify_navigation (codes "http://localhost:" ++ codes "x@evil.example/") page true ≡ allowed)
    × (is_trusted_document (codes "http://[::1]" ++ codes "x@evil.example/") page true
        ≡ is_trusted_document (codes "http://[::1]" ++ codes "x@evil.example/") page false)
debug_loopback_example = debug_loopback (codes "x@evil.example/") page page_nonempty
