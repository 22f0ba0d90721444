-- ===== src/Contract/Constraints.antt =====
-- `ToolContract::of` and `CatalogContract::of` of src/catalog_contract.rs, with the digests of the
-- constraints.
use mcp_eval.Prelude.{
  ℕ, zero, suc, ◌/◌, ◌%◌, String, Bool, true, false, not, ◌&&◌, ◌||◌, Option, none, some, List, [],
  ◌∷◌, map, filter_map, take, any, if◌then◌else◌, and_then, unwrap_or, map_some, bytes, str_eq,
  append, strip_prefix,
}
use mcp_eval.Json.{
  Value, Items, Fields, null, bool, number, string, array, object, nil, cons, end, field, to_fields,
  entries, collect_by, less, lookup, get, as_str, as_array, as_object,
}
use mcp_eval.Standard.{ToolDefinition, class_of}
use mcp_eval.Catalog.{ToolCatalog}
use mcp_eval.Contract.Changes.{ToolContract, CatalogContract}

-- `MAX_REF_DEPTH`
abbrev pub max_ref_depth : ℕ
max_ref_depth = 8

abbrev pub prose : List String
prose = "description" ∷ "title" ∷ "examples" ∷ "$comment" ∷ "default" ∷ []

abbrev pub name_maps : List String
name_maps = "properties" ∷ "patternProperties" ∷ "$defs" ∷ "definitions" ∷ "dependentSchemas" ∷ []

abbrev pub is_one_of : List String → String → Bool
is_one_of names key = any (λ name. str_eq name key) names

-- Whether a key of an object is kept; `names` says that the keys are names.
abbrev pub keeps : Bool → String → Bool
keeps names key = names || not (is_one_of prose key)

abbrev pub hex_digits : List String
hex_digits =
    "0" ∷ "1" ∷ "2" ∷ "3" ∷ "4" ∷ "5" ∷ "6" ∷ "7" ∷ "8" ∷ "9" ∷ "a" ∷ "b" ∷ "c" ∷ "d" ∷ "e" ∷ "f"
    ∷ []

unfoldable pub digit_at : ℕ → List String → String
digit_at n [] = "0"
digit_at zero (d ∷ ds) = d
digit_at (suc n) (d ∷ ds) = digit_at n ds

-- `format!("{byte:02x}")` for each byte, collected
unfoldable pub hex_text : List ℕ → String
unfolding digit_at
hex_text [] = ""
hex_text (b ∷ bs) =
    append (digit_at (b / 16) hex_digits) (append (digit_at (b % 16) hex_digits) (hex_text bs))

-- `pointer` is `Value::pointer` of serde_json, on the text after the `#` of a reference.
module _ (pointer : Value → String → Option Value) where
  -- The target of a local reference, where there is one.
  abbrev pub ref_target : Value → Fields → Option Value
  ref_target root fs =
      and_then (and_then (and_then (lookup "$ref" (entries fs)) as_str) (strip_prefix b'#'))
        (pointer root)

  -- What replaces an object: the target of its reference, if one is still followed, or the object
  -- with its constraints.
  abbrev pub resolved : Option (Value → Value) → Bool → Option Value → Value → Value
  resolved none names target rebuilt = rebuilt
  resolved (some follow) true target rebuilt = rebuilt
  resolved (some follow) false none rebuilt = rebuilt
  resolved (some follow) false (some t) rebuilt = follow t

  unfoldable mutual
    -- `follow` is the next hop, `none` where no further hop is followed.
    pub constraints_at : Option (Value → Value) → Value → Bool → Value → Value
    constraints_at follow root names (object fs) =
        resolved follow names (ref_target root fs)
          (object (to_fields (collect_by (λ e. e.0) (constraint_fields follow root names fs))))
    constraints_at follow root names (array vs) = array (constraint_items follow root vs)
    constraints_at follow root names null = null
    constraints_at follow root names (bool b) = bool b
    constraints_at follow root names (number n) = number n
    constraints_at follow root names (string s) = string s

    pub constraint_items : Option (Value → Value) → Value → Items → Items
    constraint_items follow root nil = nil
    constraint_items follow root (cons v vs) =
        cons (constraints_at follow root false v) (constraint_items follow root vs)

    pub constraint_fields : Option (Value → Value) → Value → Bool → Fields → List (String × Value)
    constraint_fields follow root names end = []
    constraint_fields follow root names (field k v fs) =
        let kept : List (String × Value) = constraint_fields follow root names fs in
        let child : Value = constraints_at follow root (not names && is_one_of name_maps k) v in
        if keeps names k then (k, child) ∷ kept else kept

  -- `hops` more references are followed.
  unfoldable pub constraints : ℕ → Value → Bool → Value → Value
  unfolding constraints_at
  constraints zero root names schema = constraints_at none root names schema
  constraints (suc hops) root names schema =
      constraints_at (some (λ target. constraints hops root false target)) root names schema

  -- `print` is how serde_json writes a value, `sha256` the hash.
  module _ (print : Value → String) (sha256 : List ℕ → List ℕ) where
    -- `out.push(',')` before each but the first
    abbrev pub comma : Bool → String → String
    comma first text = if first then text else append "," text

    unfoldable pub digest : List ℕ → String
    unfolding hex_text
    digest message = hex_text (take 8 (sha256 message))

    -- The fields of an object, each with its key and the first without a comma.
    abbrev pub joined_fields : Bool → List (String × String) → String
    joined_fields first [] = ""
    joined_fields first ((k, text) ∷ rest) =
        comma first
          (append (print (string k)) (append ":" (append text (joined_fields false rest))))

    abbrev pub joined_items : Bool → List String → String
    joined_items first [] = ""
    joined_items first (text ∷ rest) = comma first (append text (joined_items false rest))

    unfoldable mutual
      pub canonical : Value → String
      canonical (object fs) =
          append "{" (append (joined_fields true (collect_by (λ e. e.0) (canonical_fields fs))) "}")
      canonical (array vs) = append "[" (append (joined_items true (canonical_items vs)) "]")
      canonical null = print null
      canonical (bool b) = print (bool b)
      canonical (number n) = print (number n)
      canonical (string s) = print (string s)

      pub canonical_items : Items → List String
      canonical_items nil = []
      canonical_items (cons v vs) = canonical v ∷ canonical_items vs

      pub canonical_fields : Fields → List (String × String)
      canonical_fields end = []
      canonical_fields (field k v fs) = (k, canonical v) ∷ canonical_fields fs

    unfoldable pub constraint_digest : Value → Value → String
    unfolding canonical constraints digest
    constraint_digest schema root =
        digest (bytes (canonical (constraints max_ref_depth root false schema)))

    unfoldable pub required_of : Value → List String
    unfolding digest
    required_of schema =
        collect_by (λ name. name)
          (map (λ name. digest (bytes name))
            (filter_map as_str (unwrap_or [] (and_then (get "required" schema) as_array))))

    unfoldable pub parameters_of : Value → List (String × String)
    unfolding digest constraint_digest
    parameters_of schema =
        collect_by (λ e. e.0)
          (map (λ p. (digest (bytes p.0), constraint_digest p.1 schema))
            (unwrap_or [] (and_then (get "properties" schema) as_object)))

    unfoldable pub contract_of : ToolDefinition → ToolContract
    unfolding required_of parameters_of constraint_digest
    contract_of tool = record {
      name = tool.name;
      class = class_of tool;
      required = required_of tool.input_schema;
      parameters = parameters_of tool.input_schema;
      output_schema = map_some (λ output. constraint_digest output output) tool.output_schema;
    }

    -- A stable sort by name: a tool goes before the first whose name is not less.
    unfoldable pub insert_tool : ToolContract → List ToolContract → List ToolContract
    insert_tool x [] = x ∷ []
    insert_tool x (y ∷ ys) =
        let more = insert_tool x ys in
        if less (bytes y.name) (bytes x.name) then y ∷ more else x ∷ y ∷ ys

    unfoldable pub sort_tools : List ToolContract → List ToolContract
    unfolding insert_tool
    sort_tools [] = []
    sort_tools (x ∷ xs) = insert_tool x (sort_tools xs)

    unfoldable pub catalog_contract : ToolCatalog → CatalogContract
    unfolding contract_of sort_tools
    catalog_contract catalog = record { tools = sort_tools (map contract_of catalog.tools) }
