-- ===== src/Frame.antt =====
-- src/frame.rs: newline-delimited JSON-RPC messages. The reader is the bytes that it has still to
-- give, without read errors; timing is not modelled.
mod Lines
mod Messages
mod Examples
use mcp_eval.Prelude.{
  ℕ, zero, suc, ◌+◌, ◌-◌, ◌*◌, String, Bool, true, false, not, ◌&&◌, ◌||◌, Option, none, some, List,
  [], ◌∷◌, ◌++◌, length, is_empty, is_some, is_none, ltb, ◌==◌, if◌then◌else◌, Result, ok, err,
  ◌>>=◌, and_then, str_eq,
}
use mcp_eval.Json.{
  Value, lookup, as_object, as_str, as_i64, is_object, is_array, is_string, is_number,
}
use mcp_eval.Privacy.{valid_method}

-- `MAX_FRAME_BYTES`: 4 MiB, with the delimiter
unfoldable pub max_frame_bytes : ℕ
max_frame_bytes = 4 * 1024 * 1024

pub data FrameError : Type 0 where
  frame_too_long : FrameError

-- b'\n'
abbrev pub newline : ℕ
newline = 10

-- `r.take(limit).read_until(b'\n')`: the bytes through the first newline, at most `limit` of them,
-- and the bytes that the reader has left.
unfoldable pub read_until : ℕ → List ℕ → List ℕ × List ℕ
read_until zero input = ([], input)
read_until (suc limit) [] = ([], [])
read_until (suc limit) (b ∷ input) =
    let more = read_until limit input in
    if b == newline then (b ∷ [], input) else (b ∷ more.0, more.1)

-- The result of `read_line` for the bytes that were read.
abbrev pub line_of : List ℕ → Result FrameError (Option (List ℕ))
line_of raw =
    if ltb max_frame_bytes (length raw)
    then err frame_too_long
    else ok (if not (is_empty raw) then some raw else none)

unfoldable pub read_line : List ℕ → Result FrameError (Option (List ℕ)) × List ℕ
unfolding read_until
read_line input = let (raw, rest) = read_until (max_frame_bytes + 1) input in (line_of raw, rest)

-- `Buffer::write`
unfoldable pub write : List ℕ → List ℕ → Result FrameError (List ℕ)
write buffer bytes =
    if ltb (max_frame_bytes - length buffer) (length bytes)
    then err frame_too_long
    else ok (buffer ++ bytes)

unfoldable pub write_chunks : List ℕ → List (List ℕ) → Result FrameError (List ℕ)
unfolding write
write_chunks buffer [] = ok buffer
write_chunks buffer (chunk ∷ chunks) = do written ← write buffer chunk; write_chunks written chunks

module _ (to_chunks : Value → List (List ℕ)) where
  -- `encode`, where `to_chunks` are the byte strings that serde_json's serializer writes for a value
  unfoldable pub encode : Value → Result FrameError (List ℕ)
  unfolding write_chunks write
  encode value = do buffer ← write_chunks [] (to_chunks value); write buffer (newline ∷ [])

unfoldable pub valid_id : Value → Bool
valid_id value = is_string value || is_number value

abbrev pub holds : (Value → Bool) → Option Value → Bool
holds p none = false
holds p (some v) = p v

unfoldable pub valid_error : Value → Bool
valid_error value = elim (as_object value) [
  | none ↦ false
  | some error ↦
      holds (λ code. is_some (as_i64 code)) (lookup "code" error)
      && holds is_string (lookup "message" error)
]

abbrev pub none_or : (Value → Bool) → Option Value → Bool
none_or p none = true
none_or p (some v) = p v

abbrev pub text_is : String → Option Value → Bool
text_is text o = elim (and_then o as_str) [ none ↦ false | some s ↦ str_eq s text ]

-- `is_json_rpc_message` on the fields of an object
unfoldable pub message_fields : List (String × Value) → Bool
unfolding valid_id valid_error
message_fields object =
    let has_method = is_some (lookup "method" object) in
    let has_result = is_some (lookup "result" object) in
    let has_error = is_some (lookup "error" object) in
    if not (text_is "2.0" (lookup "jsonrpc" object))
    then false
    else if has_method
    then (if has_result || has_error
        then false
        else elim (and_then (lookup "method" object) as_str) [
          | none ↦ false
          | some method ↦
              if not (valid_method method)
              then false
              else if holds (λ params. not (is_object params) && not (is_array params))
                  (lookup "params" object)
              then false
              else none_or valid_id (lookup "id" object)
        ])
    else if (has_result && has_error || not has_result && not has_error)
        || not (holds valid_id (lookup "id" object))
    then false
    else not has_error || holds valid_error (lookup "error" object)

unfoldable pub is_json_rpc_message : Value → Bool
unfolding message_fields
is_json_rpc_message value = elim (as_object value) [
  | none ↦ false
  | some object ↦ message_fields object
]
