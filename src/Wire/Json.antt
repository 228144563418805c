-- ===== src/Wire/Json.antt =====
-- src/types.cpp: the helpers of the conversions. The JSON library (nlohmann) is a parameter: `JsonLibrary` lists
-- what the conversions call of it, and `JsonLaws` what they rely on. Texts are lists of bytes.
use Prim.Native.String.{String}
use text.Mathlib.Text.{◌==◌ as str_eq}
use snapback.Prelude.{
  ℕ, ◌≡◌, Bool, true, false, List, [], ◌∷◌, map, Option, none, some, if◌then◌else◌,
}
use snapback.Prelude.Int.{ℤ}
use snapback.Prelude.Text.{text_eq}

infixl 5 ◌>>=◌
unfoldable pub ◌>>=◌ : {A B : Type 0} → Option A → (A → Option B) → Option B
none >>= f = none
some a >>= f = f a

abbrev pub Text : Type 0
Text = List ℕ

-- How the values of a type are written, and read: `none` is the library's `type_error`.
pub record Codec (J A : Type 0) : Type 0 where
  pub write : A → J
  pub read : J → Option A

-- What is written is not null, and reads back.
pub record IsCodec {J A : Type 0} (is_null : J → Bool) (c : Codec J A) : Type 0 where
  pub is_there : (a : A) → is_null (c.write a) ≡ false
  pub reads_back : (a : A) → c.read (c.write a) ≡ some a

pub record JsonLibrary : Type 1 where
  pub Json : Type 0
  pub Double : Type 0
  pub null : Json
  pub is_null : Json → Bool
  pub object : List (String × Json) → Json
  pub assign : Json → String → Json → Json
  pub find : Json → String → Option Json
  pub array : Codec Json (List Json)
  pub text : Codec Json Text
  pub boolean : Codec Json Bool
  pub integer : Codec Json ℤ
  pub unsigned : Codec Json ℕ
  pub double : Codec Json Double
  pub zero_double : Double
  pub half_double : Double

-- The value of a key: the first one counts.
abbrev pub lookup : {J : Type 0} → List (String × J) → String → Option J
lookup [] k = none
lookup ((k', v) ∷ ps) k = if str_eq k' k then some v else lookup ps k

abbrev pub set : {J : Type 0} → List (String × J) → String → J → List (String × J)
set [] k v = (k, v) ∷ []
set ((k', w) ∷ ps) k v = if str_eq k' k then (k, v) ∷ ps else (k', w) ∷ set ps k v

-- An object holds the pairs that it is made of, `j[key] = v` sets one of them, and each kind of value reads back.
pub record JsonLaws (L : JsonLibrary) : Type 0 where
  pub null_law : L.is_null L.null ≡ true
  pub object_law : (ps : List (String × L.Json)) → L.is_null (L.object ps) ≡ false
  pub find_law : (ps : List (String × L.Json)) (k : String) → L.find (L.object ps) k ≡ lookup ps k
  pub assign_law :
      (ps : List (String × L.Json)) (k : String) (v : L.Json)
      → L.assign (L.object ps) k v ≡ L.object (set ps k v)
  pub array_law : IsCodec L.is_null L.array
  pub text_law : IsCodec L.is_null L.text
  pub boolean_law : IsCodec L.is_null L.boolean
  pub integer_law : IsCodec L.is_null L.integer
  pub unsigned_law : IsCodec L.is_null L.unsigned
  pub double_law : IsCodec L.is_null L.double

module _ (L : JsonLibrary) {A : Type 0} where
  -- `put_opt`: an empty optional is a null.
  unfoldable pub put_opt : Codec L.Json A → L.Json → String → Option A → L.Json
  put_opt c j key none = L.assign j key L.null
  put_opt c j key (some v) = L.assign j key (c.write v)

  unfoldable pub read_opt : Codec L.Json A → L.Json → Option (Option A)
  read_opt c v = if L.is_null v then some none else c.read v >>= λ a. some (some a)

  unfoldable pub opt_found : Codec L.Json A → Option L.Json → Option (Option A)
  opt_found c none = some none
  opt_found c (some v) = read_opt c v

  -- `opt_str`, `opt_ms` and their like: absent or null is an empty optional.
  unfoldable pub opt : Codec L.Json A → L.Json → String → Option (Option A)
  opt c j key = opt_found c (L.find j key)

  unfoldable pub found_or : Codec L.Json A → Option L.Json → A → Option A
  found_or c none d = some d
  found_or c (some v) d = if L.is_null v then some d else c.read v

  -- `get_or`: absent or null is the default.
  unfoldable pub get_or : Codec L.Json A → L.Json → String → A → Option A
  get_or c j key d = found_or c (L.find j key) d

  unfoldable pub traverse : Codec L.Json A → List L.Json → Option (List A)
  traverse c [] = some []
  traverse c (j ∷ js) = do x ← c.read j; xs ← traverse c js; some (x ∷ xs)

  -- `std::vector` of what `c` writes.
  unfoldable pub vector : Codec L.Json A → Codec L.Json (List A)
  vector c = record {
    write = λ xs. L.array.write (map c.write xs);
    read = λ j. L.array.read j >>= traverse c;
  }

-- The member of an enumeration that the library finds under a text; the first one listed, if there is none.
unfoldable pub named : {A : Type 0} → List (A × Text) → A → Text → A
named [] first s = first
named ((a, name) ∷ rest) first s = if text_eq s name then a else named rest first s

unfoldable pub named_or : {A : Type 0} → List (A × Text) → A → Option Text → A
named_or names first none = first
named_or names first (some s) = named names first s

-- `NLOHMANN_JSON_SERIALIZE_ENUM`, which never throws.
unfoldable pub enumeration :
    (L : JsonLibrary) {A : Type 0} → List (A × Text) → A → (A → Text) → Codec L.Json A
enumeration L names first name = record {
  write = λ a. L.text.write (name a);
  read = λ j. some (named_or names first (L.text.read j));
}
