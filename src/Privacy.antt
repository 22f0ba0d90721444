-- ===== src/Privacy.antt =====
-- src/privacy.rs: which labels may be kept as they are.
pub mod Labels
mod Examples
use mcp_eval.Prelude.{
  ℕ, String, Bool, true, false, not, ◌&&◌, ◌||◌, List, [], ◌∷◌, ◌++◌, byte_length, bytes, all, leb,
  ltb, ◌==◌, if◌then◌else◌, str_eq, is_ascii_alphabetic, is_ascii_alphanumeric, is_empty,
}

abbrev pub max_label : ℕ
max_label = 128

abbrev pub max_identifier : ℕ
max_identifier = 64

-- `b.is_ascii_alphanumeric() || matches!(b, b'_' | b'-' | b'.' | b':')`
unfoldable pub is_label_byte : ℕ → Bool
is_label_byte b = is_ascii_alphanumeric b || b == b'_' || b == b'-' || b == b'.' || b == b':'

unfoldable pub valid_tool : String → Bool
unfolding is_label_byte
valid_tool value =
    not (is_empty (bytes value))
    && leb (byte_length value) max_label
    && all is_label_byte (bytes value)

identifier_bytes : List ℕ → Bool
unfolding is_label_byte
identifier_bytes [] = false
identifier_bytes (first ∷ rest) = is_ascii_alphabetic first && all is_label_byte rest

unfoldable pub valid_identifier : String → Bool
unfolding identifier_bytes
valid_identifier value =
    if is_empty (bytes value) || ltb max_identifier (byte_length value)
    then false
    else identifier_bytes (bytes value)

-- The `valid_segment` closure.
valid_segment : List ℕ → Bool
unfolding is_label_byte
valid_segment segment = not (is_empty segment) && all is_label_byte segment

-- `value.split('/').all(valid_segment)`, on the bytes; `current` is the segment read so far.
segments : List ℕ → List ℕ → List (List ℕ)
segments current [] = current ∷ []
segments current (b ∷ rest) =
    let closed = segments [] rest in
    let longer = segments (current ++ b ∷ []) rest in if b == b'/' then current ∷ closed else longer

unfoldable pub split_slash : List ℕ → List (List ℕ)
unfolding segments
split_slash value = segments [] value

unfoldable pub valid_segments : String → Bool → Bool
unfolding valid_segment split_slash
valid_segments value slash =
    if is_empty (bytes value) || ltb max_label (byte_length value)
    then false
    else if slash
    then all valid_segment (split_slash (bytes value))
    else valid_segment (bytes value)

unfoldable pub valid_server : String → Bool
unfolding valid_segments
valid_server value = valid_segments value false

unfoldable pub valid_method : String → Bool
unfolding valid_segments
valid_method value = valid_segments value true
