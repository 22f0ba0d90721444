-- ===== src/Frame/Examples.antt =====
-- Concrete lines and messages.
use mcp_eval.Prelude.{
  ℕ, ◌≡◌, ◌↔◌, ◌≤◌, refl, true, not, ◌||◌, some, List, [], ◌∷◌, ◌++◌, length, ok, is_none, is_some,
  is_empty, unwrap_or, String,
}
use mcp_eval.Json.{Value, number, string, unsigned, null, lookup}
use mcp_eval.Frame.{
  max_frame_bytes, newline, encode, read_line, read_until, write, write_chunks, message_fields,
  valid_id, valid_error, holds,
}
use mcp_eval.Frame.Lines.{joined, encode-ok, read_line-encode, read_line_splits}
use mcp_eval.Frame.Messages.{one_of, message_kinds}

-- A serializer that writes `{}` for every value, in two chunks.
abbrev braces : Value → List (List ℕ)
braces value = (123 ∷ []) ∷ (125 ∷ []) ∷ []

-- `{}` and a newline
abbrev line : List ℕ
line = 123 ∷ 125 ∷ 10 ∷ []

-- `{`, without a newline
abbrev open_brace : List ℕ
open_brace = 123 ∷ []

encoded_test : encode braces null ≡ ok line
unfolding encode write_chunks write max_frame_bytes
encoded_test = refl

encode-ok_test :
    (encode braces null ≡ ok line)
    ↔ ((line ≡ joined (braces null) ++ newline ∷ []) × (length line ≤ max_frame_bytes))
encode-ok_test = encode-ok braces null line

read_line-encode_example : read_line (line ++ 91 ∷ []) ≡ (ok (some line), 91 ∷ [])
read_line-encode_example =
    read_line-encode braces null line (91 ∷ []) (refl, (refl, tt)) encoded_test

unfinished_test : read_line open_brace ≡ (ok (some open_brace), [])
unfolding read_line read_until max_frame_bytes
unfinished_test = refl

read_line_splits_example :
    (unwrap_or [] (some open_brace) ++ [] ≡ open_brace)
    × (length (unwrap_or [] (some open_brace)) ≤ max_frame_bytes)
    × (is_none (some open_brace) ≡ is_empty open_brace)
read_line_splits_example = read_line_splits open_brace [] (some open_brace) unfinished_test

abbrev response : List (String × Value)
response = ("id", number (unsigned 7)) ∷ ("jsonrpc", string "2.0") ∷ ("result", null) ∷ []

response_test : message_fields response ≡ true
unfolding message_fields valid_id
response_test = refl

message_kinds_example :
    (lookup "jsonrpc" response ≡ some (string "2.0"))
    × (one_of
          (is_some (lookup "method" response))
          (is_some (lookup "result" response))
          (is_some (lookup "error" response))
        ≡ true)
    × ((is_some (lookup "method" response) || holds valid_id (lookup "id" response)) ≡ true)
    × ((not (is_some (lookup "error" response)) || holds valid_error (lookup "error" response))
        ≡ true)
message_kinds_example = message_kinds response response_test
