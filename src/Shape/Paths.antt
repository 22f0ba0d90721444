-- ===== src/Shape/Paths.antt =====
-- The paths of src/shape.rs as its documentation writes them.
use Prim.Native.Char.{Char, char, code}
use text.Mathlib.TextEquality.{Char-path}
use mcp_eval.Prelude.{
  ◌≡◌, refl, ap, sym, ◌∙◌, String, true, false, Option, none, some, map_some, List, [], ◌∷◌, ◌==◌,
  ==_iff, str_eq, eq_iff, strip_prefix, tilde, slash, Bool-cases, inl, inr, if◌then◌else◌,
}
use mcp_eval.Shape.{
  key, item, SchemaPath, EnumIndex, decode_key, split, segments, public_path, is_enum, is_enum_at,
}

-- A key with `~` as `~0` and `/` as `~1`, before the rest of the path.
unfoldable pub escape : String → String → String
escape String.[] rest = rest
escape (String.◌∷◌ c k) rest =
    let more : String = escape k rest in
    if code c == b'~'
    then String.◌∷◌ tilde (String.◌∷◌ (char 0x30 tt) more)
    else if code c == b'/'
    then String.◌∷◌ tilde (String.◌∷◌ (char 0x31 tt) more)
    else String.◌∷◌ c more

-- `/k/<key>` for a property and `/i` for an array item
unfoldable pub encode_path : SchemaPath → String
unfolding escape
encode_path [] = ""
encode_path (key k ∷ path) =
    String.◌∷◌ slash (String.◌∷◌ (char 0x6B tt) (String.◌∷◌ slash (escape k (encode_path path))))
encode_path (item ∷ path) = String.◌∷◌ slash (String.◌∷◌ (char 0x69 tt) (encode_path path))

plain_char :
    (c : Char) (text : String)
    → (code c == b'~') ≡ false
    → decode_key (String.◌∷◌ c text) ≡ map_some (λ rest. String.◌∷◌ c rest) (decode_key text)
unfolding decode_key
plain_char c String.[] h = rw h refl
plain_char c (String.◌∷◌ d text) h = rw h refl

char_of : (c d : Char) → (code c == code d) ≡ true → d ≡ c
char_of c d h = sym (Char-path c d ((==_iff (code c) (code d)).0 h))

decode_key-escape : (k : String) → decode_key (escape k "") ≡ some k
unfolding decode_key escape
decode_key-escape String.[] = refl
decode_key-escape (String.◌∷◌ c k) = elim (Bool-cases (code c == b'~')) [
  | inl t ↦ rw (t, decode_key-escape k) (ap (λ d. some (String.◌∷◌ d k)) (char_of c tilde t))
  | inr t ↦ elim (Bool-cases (code c == b'/')) [
    | inl s ↦ rw (t, s, decode_key-escape k) (ap (λ d. some (String.◌∷◌ d k)) (char_of c slash s))
    | inr s ↦ rw (t, s) (plain_char c (escape k "") t ∙ rw (decode_key-escape k) refl)
  ]
]

-- The parts between the slashes.
abbrev parts : SchemaPath → List String
parts [] = []
parts (key k ∷ path) = "k" ∷ escape k "" ∷ parts path
parts (item ∷ path) = "i" ∷ parts path

split-escape :
    (k rest : String) (more : List String)
    → split rest ≡ "" ∷ more
    → split (escape k rest) ≡ escape k "" ∷ more
unfolding split escape
split-escape String.[] rest more h = h
split-escape (String.◌∷◌ c k) rest more h = elim (Bool-cases (code c == b'~')) [
  | inl t ↦ rw (t, split-escape k rest more h) refl
  | inr t ↦ elim (Bool-cases (code c == b'/')) [
    | inl s ↦ rw (t, s, split-escape k rest more h) refl
    | inr s ↦ rw (t, s, split-escape k rest more h) (rw s refl)
  ]
]

split-encode_path : (path : SchemaPath) → split (encode_path path) ≡ "" ∷ parts path
unfolding split encode_path
split-encode_path [] = refl
split-encode_path (key k ∷ path) =
    rw (split-escape k (encode_path path) (parts path) (split-encode_path path)) refl
split-encode_path (item ∷ path) = rw (split-encode_path path) refl

segments-parts : (path : SchemaPath) → segments (parts path) ≡ some path
unfolding segments
segments-parts [] = refl
segments-parts (key k ∷ path) = rw (decode_key-escape k, segments-parts path) refl
segments-parts (item ∷ []) = refl
segments-parts (item ∷ key k ∷ path) = rw (segments-parts (key k ∷ path)) refl
segments-parts (item ∷ item ∷ path) = rw (segments-parts (item ∷ path)) refl

not_brackets : (text : String) → str_eq (String.◌∷◌ slash text) "[]" ≡ false
not_brackets text = elim (Bool-cases (str_eq (String.◌∷◌ slash text) "[]")) [
  | inl e ↦
      let same : ◌≡◌ {A = Option String} (some text) none =
        ap (λ t. strip_prefix b'/' t) ((eq_iff (String.◌∷◌ slash text) "[]").0 e) in
      cc
  | inr e ↦ e
]

slashed :
    (text : String) (path : SchemaPath)
    → segments (split text) ≡ some path
    → public_path (String.◌∷◌ slash text) ≡ some path
unfolding public_path
slashed text path h = rw (not_brackets text) h

rest_of :
    (path : SchemaPath) (text : String)
    → split (String.◌∷◌ slash text) ≡ "" ∷ parts path
    → split text ≡ parts path
unfolding split
rest_of path text h = ap tail h
  where
    tail : List String → List String
    tail [] = []
    tail (x ∷ xs) = xs

public_path-encode_path : (path : SchemaPath) → public_path (encode_path path) ≡ some path
unfolding public_path encode_path
public_path-encode_path [] = refl
public_path-encode_path (key k ∷ path) =
    slashed (String.◌∷◌ (char 0x6B tt) (String.◌∷◌ slash (escape k (encode_path path))))
      (key k ∷ path)
      (rw (rest_of (key k ∷ path) _ (split-encode_path (key k ∷ path)))
        (segments-parts (key k ∷ path)))
public_path-encode_path (item ∷ path) =
    slashed (String.◌∷◌ (char 0x69 tt) (encode_path path)) (item ∷ path) (
      rw (rest_of (item ∷ path) _ (split-encode_path (item ∷ path))) (segments-parts (item ∷ path)))

-- A path that is written as documented, `/k/<key>` for a property with `~` and `/` of the key
-- escaped and `/i` for an array item, is looked up as the path it stands for.
pub is_enum-encode_path :
    (index : EnumIndex) (tool : String) (path : SchemaPath) (value : String)
    → is_enum index tool (encode_path path) value ≡ is_enum_at index tool path value
unfolding is_enum
is_enum-encode_path index tool path value = rw (public_path-encode_path path) refl
