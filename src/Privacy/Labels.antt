-- ===== src/Privacy/Labels.antt =====
-- How the label grammars of src/privacy.rs relate.
use mcp_eval.Prelude.{
  ℕ, String, ◌≡◌, refl, Bool, true, false, not, ◌&&◌, List, [], ◌∷◌, ◌++◌, arith, byte_length,
  bytes, all, leb, ◌==◌, if◌then◌else◌, is_empty,
}
use mcp_eval.Privacy.{
  is_label_byte, valid_tool, valid_identifier, identifier_bytes, valid_segment, segments,
  split_slash, valid_server, valid_method,
}

identifier_bytes-labels : (bs : List ℕ) → identifier_bytes bs ≡ true → all is_label_byte bs ≡ true
unfolding identifier_bytes is_label_byte
identifier_bytes-labels [] h = refl
identifier_bytes-labels (b ∷ bs) h = ground arith

-- Every identifier is a tool name.
pub valid_identifier-valid_tool :
    (value : String) → valid_identifier value ≡ true → valid_tool value ≡ true
unfolding valid_identifier valid_tool
valid_identifier-valid_tool value h = ground (arith, identifier_bytes-labels (bytes value))

-- The grammars of server labels and of tool names are one.
pub valid_server-eq-valid_tool : (value : String) → valid_server value ≡ valid_tool value
unfolding valid_server valid_tool
valid_server-eq-valid_tool value = ground arith

-- The rules of a method, without a split: every byte is a label byte or a slash, and slashes stand
-- neither at an end nor side by side.
abbrev pub method_bytes : Bool → List ℕ → Bool
method_bytes open_segment [] = open_segment
method_bytes open_segment (b ∷ bs) =
    let after_slash = method_bytes false bs in
    let after_label = method_bytes true bs in
    if b == b'/' then open_segment && after_slash else is_label_byte b && after_label

all-snoc : (p : ℕ → Bool) (xs : List ℕ) (b : ℕ) → all p (xs ++ b ∷ []) ≡ (all p xs && p b)
all-snoc p [] b = ground arith
all-snoc p (x ∷ xs) b = ground (arith, all-snoc p xs b)

is_empty-snoc : (xs : List ℕ) (b : ℕ) → is_empty (xs ++ b ∷ []) ≡ false
is_empty-snoc [] b = refl
is_empty-snoc (x ∷ xs) b = refl

segments-method_bytes :
    (current bs : List ℕ)
    → all valid_segment (segments current bs)
      ≡ (all is_label_byte current && method_bytes (not (is_empty current)) bs)
unfolding segments valid_segment
segments-method_bytes current [] = ground arith
segments-method_bytes current (b ∷ bs) = ground (
  arith,
  segments-method_bytes [] bs,
  segments-method_bytes (current ++ b ∷ []) bs,
  all-snoc is_label_byte current b,
  is_empty-snoc current b,
)

-- A method is valid exactly when it has 1 to 128 bytes, each a label byte or a slash, and no slash
-- stands first, last or after another.
pub valid_method-eq-method_bytes :
    (value : String)
    → valid_method value ≡ (
        not (is_empty (bytes value))
        && leb (byte_length value) 128
        && method_bytes false (bytes value))
unfolding valid_method split_slash
valid_method-eq-method_bytes value = ground (arith, segments-method_bytes [] (bytes value))
