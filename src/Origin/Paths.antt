-- ===== src/Origin/Paths.antt =====
-- src/app/webview_origin.cpp: a path has one normal form, without an alias in it.
use snapback.Prelude.{
  ℕ, ◌==◌, ◌≡◌, ◌≢◌, refl, ap, ◌∙◌, Bool, true, false, ◌||◌, List, [], ◌∷◌, ◌++◌, arith,
  if◌then◌else◌,
}
use snapback.Prelude.Text.{codes, text_eq, is_empty, starts_with}
use snapback.Origin.Url.{
  Text, holds, pieces, extend, pop, step, collapse, join, normalize_path_segments,
}

-- A part that is neither empty nor a dot nor two, and holds no slash.
pub record IsName (p : Text) : Type 0 where
  pub plain : (is_empty p || text_eq p (codes ".")) ≡ false
  pub no_parent : text_eq p (codes "..") ≡ false
  pub no_slash : holds 47 p ≡ false

unfoldable pub AllNames : List Text → Type 0
AllNames [] = Unit
AllNames (p ∷ ps) = IsName p × AllNames ps

unfoldable NoSlash : List Text → Type 0
NoSlash [] = Unit
NoSlash (p ∷ ps) = (holds 47 p ≡ false) × NoSlash ps

extend-NoSlash : (c : ℕ) (ps : List Text) → (c == 47) ≡ false → NoSlash ps → NoSlash (extend c ps)
unfolding NoSlash holds
extend-NoSlash c [] e h = (ground (arith, e), tt)
extend-NoSlash c (p ∷ ps) e h = (ground (arith, e, h.0), h.1)

piece_if :
    (b : Bool) (c : ℕ) (rest : List Text)
    → (c == 47) ≡ b
    → NoSlash rest
    → NoSlash (if b then [] ∷ rest else extend c rest)
unfolding NoSlash holds
piece_if true c rest e h = (refl, h)
piece_if false c rest e h = extend-NoSlash c rest e h

pieces-NoSlash : (s : Text) → NoSlash (pieces s)
unfolding pieces NoSlash holds
pieces-NoSlash [] = (refl, tt)
pieces-NoSlash (c ∷ s) = piece_if (c == 47) c (pieces s) refl (pieces-NoSlash s)

pop-AllNames : (ps : List Text) → AllNames ps → AllNames (pop ps)
unfolding AllNames
pop-AllNames [] h = h
pop-AllNames (p ∷ ps) h = h.1

step_if :
    (a b : Bool) (ps : List Text) (p : Text)
    → (is_empty p || text_eq p (codes ".")) ≡ a
    → text_eq p (codes "..") ≡ b
    → holds 47 p ≡ false
    → AllNames ps
    → AllNames (if a then ps else if b then pop ps else p ∷ ps)
unfolding AllNames
step_if true b ps p e f k h = h
step_if false true ps p e f k h = pop-AllNames ps h
step_if false false ps p e f k h = (record { plain = e; no_parent = f; no_slash = k }, h)

step-AllNames :
    (ps : List Text) (p : Text) → holds 47 p ≡ false → AllNames ps → AllNames (step ps p)
unfolding step
step-AllNames ps p k h =
    step_if (is_empty p || text_eq p (codes ".")) (text_eq p (codes "..")) ps p refl refl k h

collapse-AllNames : (ps qs : List Text) → AllNames ps → NoSlash qs → AllNames (collapse ps qs)
unfolding collapse NoSlash
collapse-AllNames ps [] h k = h
collapse-AllNames ps (q ∷ qs) h k = collapse-AllNames (step ps q) qs (step-AllNames ps q k.0 h) k.1

step_name : (ps : List Text) (p : Text) → IsName p → step ps p ≡ p ∷ ps
unfolding step
step_name ps p h = ground (arith, h.plain, h.no_parent)

pieces_name : (p : Text) → holds 47 p ≡ false → pieces p ≡ p ∷ []
unfolding pieces holds
pieces_name [] h = refl
pieces_name (c ∷ p) h = ground (arith, h, pieces_name p)

extend-append : (c : ℕ) (ps qs : List Text) → ps ≢ [] → extend c (ps ++ qs) ≡ extend c ps ++ qs
extend-append c [] qs h = absurd (h refl)
extend-append c (p ∷ ps) qs h = refl

piece_ne : (b : Bool) (c : ℕ) (rest : List Text) → (if b then [] ∷ rest else extend c rest) ≢ []
piece_ne true c rest h = cc
piece_ne false c [] h = cc
piece_ne false c (p ∷ ps) h = cc

pieces_ne : (s : Text) → pieces s ≢ []
unfolding pieces
pieces_ne [] h = cc
pieces_ne (c ∷ s) h = piece_ne (c == 47) c (pieces s) h

pieces-append : (s t : Text) → pieces (s ++ (47 ∷ t)) ≡ pieces s ++ pieces t
unfolding pieces
pieces-append [] t = refl
pieces-append (c ∷ s) t =
    ground (arith, pieces-append s t, extend-append c (pieces s) (pieces t) (pieces_ne s))

collapse-append : (ps qs rs : List Text) → collapse ps (qs ++ rs) ≡ collapse (collapse ps qs) rs
unfolding collapse
collapse-append ps [] rs = refl
collapse-append ps (q ∷ qs) rs = collapse-append (step ps q) qs rs

-- Parts that are names come back from the path that they make.
collapse-join : (ps : List Text) → AllNames ps → collapse [] (pieces (join ps)) ≡ ps
unfolding AllNames join collapse step pieces is_empty
collapse-join [] h = refl
collapse-join (p ∷ ps) h =
    ap (collapse [])
      (pieces-append (join ps) p ∙ ap (λ q. pieces (join ps) ++ q) (pieces_name p h.0.no_slash))
    ∙ collapse-append [] (pieces (join ps)) (p ∷ [])
    ∙ ap (λ qs. step qs p) (collapse-join ps h.1)
    ∙ step_name ps p h.0

rooted : Bool → Text
rooted b = if b then codes "/" else []

rooted_normal : (b : Bool) → normalize_path_segments (rooted b) ≡ rooted b
unfolding rooted normalize_path_segments collapse step pieces join is_empty starts_with
rooted_normal true = refl
rooted_normal false = refl

normal_of_join :
    (ps : List Text)
    → AllNames ps
    → is_empty (join ps) ≡ false
    → normalize_path_segments (join ps) ≡ join ps
unfolding normalize_path_segments
normal_of_join ps h ne = ground (arith, ne, collapse-join ps h)

normal_if :
    (b r : Bool) (ps : List Text)
    → AllNames ps
    → is_empty (join ps) ≡ b
    → normalize_path_segments (if b then rooted r else join ps) ≡ (if b then rooted r else join ps)
normal_if true r ps h e = rooted_normal r
normal_if false r ps h e = normal_of_join ps h e

-- The parts of a path, once its aliases are resolved, are names: none is empty, a dot or two, or holds a slash; and resolving the
-- normal form of a path changes nothing.
pub normalize_path_segments_lem :
    (path : Text)
    → AllNames (collapse [] (pieces path))
      × (normalize_path_segments (normalize_path_segments path) ≡ normalize_path_segments path)
unfolding normalize_path_segments AllNames rooted
normalize_path_segments_lem path =
    let names = collapse-AllNames [] (pieces path) tt (pieces-NoSlash path) in
    (
      names,
      normal_if (is_empty (join (collapse [] (pieces path)))) (starts_with path (codes "/"))
          (collapse [] (pieces path)) names refl,
    )
