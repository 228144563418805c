-- ===== src/Wire/Laws.antt =====
-- The laws of the JSON library, carried over to the helpers of src/types.cpp.
use Prim.Native.String.{String}
use snapback.Prelude.{
  subst, false, Bool, ◌≡◌, ap, refl, ◌∙◌, List, [], ◌∷◌, map, Bool, true, false, Option, none, some,
  if◌then◌else◌,
}
use snapback.Wire.Json.{
  named, Text, named_or, enumeration, ◌>>=◌, Codec, JsonLibrary, JsonLaws, put_opt, opt, opt_found,
  read_opt, found_or, get_or, traverse, vector, IsCodec, lookup, set,
}

-- A step of a conversion that goes through, and what is behind it.
pub bind_some :
    {A B : Type 0} {m : Option A} {a : A} {r : Option B} (f : A → Option B)
    → m ≡ some a
    → f a ≡ r
    → m >>= f ≡ r
unfolding ◌>>=◌
bind_some f e h = ap (λ m. m >>= f) e ∙ h

pub some_inj : {A : Type 0} {a b : A} → some a ≡ some b → a ≡ b
some_inj h = cc

-- What is behind a step that went through.
pub bind-some :
    {A B : Type 0} {m : Option A} {f : A → Option B} {b : B}
    → m >>= f ≡ some b
    → (a : A) × (m ≡ some a) × (f a ≡ some b)
unfolding ◌>>=◌
bind-some {m = none} h = cc
bind-some {m = some a} h = (a, refl, h)

module _ (L : JsonLibrary) (laws : JsonLaws L) {A : Type 0} (c : Codec L.Json A) where
  found_or-write :
      (a d : A)
      → L.is_null (c.write a) ≡ false
      → c.read (c.write a) ≡ some a
      → found_or L c (some (c.write a)) d ≡ some a
  unfolding found_or
  found_or-write a d there back = ap (λ b. if b then some d else c.read (c.write a)) there ∙ back

  -- A step of a conversion that reads a key under which a value was written, and what is behind it.
  pub written_field :
      {B : Type 0} (ps : List (String × L.Json)) (key : String) {a : A} (d : A) {r : Option B}
      (f : A → Option B)
      → L.is_null (c.write a) ≡ false
      → c.read (c.write a) ≡ some a
      → lookup ps key ≡ some (c.write a)
      → f a ≡ r
      → get_or L c (L.object ps) key d >>= f ≡ r
  unfolding get_or
  written_field ps key {a} d f there back e h =
      bind_some f
        (ap (λ o. found_or L c o d) (laws.find_law ps key ∙ e) ∙ found_or-write a d there back) h

module _ (L : JsonLibrary) {A : Type 0} (c : Codec L.Json A) where
  if-holds :
      (P : A → Type 0) (b : Bool) (v : L.Json) (d : A) {a : A}
      → P d
      → (c.read v ≡ some a → P a)
      → (if b then some d else c.read v) ≡ some a
      → P a
  if-holds P true v d base reads h = subst P (some_inj h) base
  if-holds P false v d base reads h = reads h

  found_or-holds :
      (P : A → Type 0) (o : Option L.Json) (d : A) {a : A}
      → P d
      → ((v : L.Json) (x : A) → c.read v ≡ some x → P x)
      → found_or L c o d ≡ some a
      → P a
  unfolding found_or
  found_or-holds P none d base reads h = subst P (some_inj h) base
  found_or-holds P (some v) d base reads h = if-holds P (L.is_null v) v d base (λ e. reads v _ e) h

  -- What holds of the default and of whatever is read holds of the value of a key.
  pub get_or-holds :
      (P : A → Type 0) (j : L.Json) (key : String) (d : A) {a : A}
      → P d
      → ((v : L.Json) (x : A) → c.read v ≡ some x → P x)
      → get_or L c j key d ≡ some a
      → P a
  unfolding get_or
  get_or-holds P j key d base reads h = found_or-holds P (L.find j key) d base reads h

module _ (L : JsonLibrary) (laws : JsonLaws L) {A : Type 0} (c : Codec L.Json A)
    (good : IsCodec L.is_null c) where
  -- What `put_opt` writes.
  abbrev pub opt_json : Option A → L.Json
  opt_json none = L.null
  opt_json (some a) = c.write a

  pub put_opt-object :
      (ps : List (String × L.Json)) (key : String) (o : Option A)
      → put_opt L c (L.object ps) key o ≡ L.object (set ps key (opt_json o))
  unfolding put_opt
  put_opt-object ps key none = laws.assign_law ps key L.null
  put_opt-object ps key (some a) = laws.assign_law ps key (c.write a)

  opt_found-write : (o : Option A) → opt_found L c (some (opt_json o)) ≡ some o
  unfolding opt_found read_opt ◌>>=◌
  opt_found-write none =
      ap (λ b. if b then some none else c.read L.null >>= λ a. some (some a)) laws.null_law
  opt_found-write (some a) =
      ap (λ b. if b then some none else c.read (c.write a) >>= λ x. some (some x)) (good.is_there a)
      ∙ ap (λ m. m >>= λ x. some (some x)) (good.reads_back a)

  pub opt-object :
      (ps : List (String × L.Json)) (key : String) {o : Option A}
      → lookup ps key ≡ some (opt_json o)
      → opt L c (L.object ps) key ≡ some o
  unfolding opt
  opt-object ps key {o} e = ap (opt_found L c) (laws.find_law ps key ∙ e) ∙ opt_found-write o

  traverse-map : (xs : List A) → traverse L c (map c.write xs) ≡ some xs
  unfolding traverse
  traverse-map [] = refl
  traverse-map (x ∷ xs) = bind_some _ (good.reads_back x) (bind_some _ (traverse-map xs) refl)

  pub vector-IsCodec : IsCodec L.is_null (vector L c)
  unfolding vector
  vector-IsCodec = record {
    is_there = λ xs. laws.array_law.is_there (map c.write xs);
    reads_back = λ xs. bind_some _ (laws.array_law.reads_back (map c.write xs)) (traverse-map xs);
  }

  -- The steps for a type whose values all read back.
  pub field :
      {B : Type 0} (ps : List (String × L.Json)) (key : String) {a : A} (d : A) {r : Option B}
      (f : A → Option B)
      → lookup ps key ≡ some (c.write a)
      → f a ≡ r
      → get_or L c (L.object ps) key d >>= f ≡ r
  field ps key {a} d f e h =
      written_field L laws c ps key d f (good.is_there a) (good.reads_back a) e h

  pub opt_field :
      {B : Type 0} (ps : List (String × L.Json)) (key : String) {o : Option A} {r : Option B}
      (f : Option A → Option B)
      → lookup ps key ≡ some (opt_json o)
      → f o ≡ r
      → (opt L c (L.object ps) key >>= f) ≡ r
  opt_field ps key f e h = bind_some f (opt-object ps key e) h

module _ (L : JsonLibrary) (laws : JsonLaws L) {A : Type 0} (c : Codec L.Json A)
    (good : IsCodec L.is_null c) where
  -- `j.at(key).get`, which throws where there is no such key.
  pub at_field :
      {B : Type 0} (ps : List (String × L.Json)) (key : String) {a : A} {r : Option B}
      (f : A → Option B)
      → lookup ps key ≡ some (c.write a)
      → f a ≡ r
      → L.find (L.object ps) key >>= c.read >>= f ≡ r
  at_field ps key {a} f e h =
      bind_some f
        (ap (λ o. o >>= c.read) (laws.find_law ps key ∙ e)
          ∙ bind_some c.read refl (good.reads_back a))
        h

-- An enumeration whose names lead back to its members.
pub enumeration-IsCodec :
    (L : JsonLibrary) (laws : JsonLaws L) {A : Type 0} (names : List (A × Text)) (first : A)
    (name : A → Text)
    → ((a : A) → named names first (name a) ≡ a)
    → IsCodec L.is_null (enumeration L names first name)
unfolding enumeration named_or
enumeration-IsCodec L laws names first name h = record {
  is_there = λ a. laws.text_law.is_there (name a);
  reads_back = λ a.
      ap (λ o. some (named_or names first o)) (laws.text_law.reads_back (name a)) ∙ ap some (h a);
}
