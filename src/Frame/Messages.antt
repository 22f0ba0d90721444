-- ===== src/Frame/Messages.antt =====
-- What src/frame.rs accepts as a JSON-RPC message.
use mcp_eval.Prelude.{
  String, ◌≡◌, refl, ap, Bool, true, false, not, ◌&&◌, ◌||◌, Option, none, some, List, is_some,
  if◌then◌else◌, eq_iff,
}
use mcp_eval.Json.{Value, string, lookup}
use mcp_eval.Frame.{text_is, holds, valid_id, valid_error, message_fields}

-- Exactly one of three holds.
abbrev pub one_of : Bool → Bool → Bool → Bool
one_of a b c = a && not b && not c || not a && b && not c || not a && not b && c

branches :
    (v m r e i x y : Bool)
    → (if not v
        then false
        else if m
        then (if r || e then false else x)
        else if r && e || not r && not e || not i
        then false
        else not e || y)
      ≡ true
    → (v ≡ true) × (one_of m r e ≡ true) × ((m || i) ≡ true) × ((not e || y) ≡ true)
branches false m r e i x y h = cc
branches true true true e i x y h = cc
branches true true false true i x y h = cc
branches true true false false i x y h = (refl, refl, refl, refl)
branches true false true true i x y h = cc
branches true false false false i x y h = cc
branches true false true false false x y h = cc
branches true false true false true x y h = (refl, refl, refl, refl)
branches true false false true false x y h = cc
branches true false false true true x y h = (refl, refl, refl, h)

text_sound : (text : String) (o : Option Value) → text_is text o ≡ true → o ≡ some (string text)
text_sound text none h = cc
text_sound text (some (string s)) h = ap (λ t. some (string t)) ((eq_iff s text).0 h)
text_sound text (some _) h = cc

-- An accepted message has the version "2.0" and is exactly one of three: a call with a method, a
-- response with a result, or one with an error. A response has an id, a string or a number, and an
-- error has an integer code and a text as its message.
pub message_kinds :
    (fields : List (String × Value))
    → message_fields fields ≡ true
    → (lookup "jsonrpc" fields ≡ some (string "2.0"))
      × (one_of
            (is_some (lookup "method" fields))
            (is_some (lookup "result" fields))
            (is_some (lookup "error" fields))
          ≡ true)
      × ((is_some (lookup "method" fields) || holds valid_id (lookup "id" fields)) ≡ true)
      × ((not (is_some (lookup "error" fields)) || holds valid_error (lookup "error" fields))
          ≡ true)
unfolding message_fields
message_kinds fields h =
    let (v, kinds, ids, errors) =
      branches (text_is "2.0" (lookup "jsonrpc" fields)) (is_some (lookup "method" fields))
        (is_some (lookup "result" fields)) (is_some (lookup "error" fields))
        (holds valid_id (lookup "id" fields)) _ (holds valid_error (lookup "error" fields)) h in
    (text_sound "2.0" (lookup "jsonrpc" fields) v, kinds, ids, errors)
