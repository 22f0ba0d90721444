-- ===== src/Shape/Examples.antt =====
-- Paths and shapes of a tool that takes a mode and a note.
use mcp_eval.Prelude.{◌≡◌, refl, String, true, false, none, [], ◌∷◌}
use mcp_eval.Json.{Value, object, array, string, to_fields, to_items}
use mcp_eval.Shape.{
  PathSegment, key, item, EnumIndex, Recognizers, learn, is_enum, is_enum_at, public_path, shape,
  walk, registrable_domain,
}
use mcp_eval.Shape.Hidden.{one_field, no_fields, fields, plain, shape-Alike}
use mcp_eval.Shape.Paths.{encode_path, is_enum-encode_path}

abbrev mode_schema : Value
mode_schema = object (
    to_fields (
      (
        "properties",
        object (
            to_fields (
              ("a/b", object (to_fields (("enum", array (to_items (string "fast" ∷ []))) ∷ [])))
              ∷ [])),
      )
      ∷ []))

abbrev index : EnumIndex
index = learn "run" mode_schema (record { by_tool = [] })

learned_test : is_enum_at index "run" (key "a/b" ∷ []) "fast" ≡ true
unfolding is_enum_at learn
learned_test = refl

is_enum-encode_path_example :
    is_enum index "run" (encode_path (key "a/b" ∷ item ∷ [])) "fast"
    ≡ is_enum_at index "run" (key "a/b" ∷ item ∷ []) "fast"
is_enum-encode_path_example = is_enum-encode_path index "run" (key "a/b" ∷ item ∷ []) "fast"

-- Nothing is a UUID or a URL.
abbrev nothing_known : Recognizers
nothing_known = record {
  is_uuid = λ s. false;
  parse_url = λ s. none;
  analyze = λ s. none;
  print_number = λ n. "0";
}

abbrev no_enums : EnumIndex
no_enums = record { by_tool = [] }

abbrev note : String → Value
note text = object (to_fields (("note", string text) ∷ []))

shape-Alike_example :
    shape nothing_known no_enums "run" (note "secret")
    ≡ shape nothing_known no_enums "run" (note "public")
unfolding is_enum_at registrable_domain mcp_eval.Shape.string_bucket
shape-Alike_example = shape-Alike nothing_known no_enums "run" (note "secret") (note "public") (
    fields (
      one_field "note"
        (plain (record { enum = refl; uuid = refl; domain = refl })
          (record { enum = refl; uuid = refl; domain = refl }) refl)
        no_fields))
