-- ===== src/Arguments/Synthesis.antt =====
-- `synthesize` and `invalid_arguments` of src/standard.rs, with `zero_required` of src/init.rs.
use mcp_eval.Prelude.{
  ℕ, zero, suc, ◌+◌, ◌-◌, ◌*◌, max, String, Bool, true, false, not, ◌||◌, Option, none, some, List,
  [], ◌∷◌, find, filter_map, map_some, and_then, unwrap_or, is_some, is_empty, ltb, if◌then◌else◌,
  byte_length, str_eq, append, strip_prefix,
}
use mcp_eval.Prelude.Int.{ℤ, pos, negsuc}
use mcp_eval.Json.{
  Value, Number, null, bool, number, string, array, object, unsigned, negative, to_items, to_fields,
  collect_by, get, as_str, as_u64, as_array, as_object, elements,
}
use mcp_eval.Arguments.Spend.{
  InputBudget, Spend, ◌>>=◌, ◌>>◌, pure, lift, fail, charge, charge_value,
}

-- `MAX_SCHEMA_DEPTH`
abbrev pub max_schema_depth : ℕ
max_schema_depth = 8

abbrev pub max_input_bytes : ℕ
max_input_bytes = 64 * 1024

abbrev pub max_input_nodes : ℕ
max_input_nodes = 4096

abbrev pub max_array_items : ℕ
max_array_items = 256

abbrev pub max_string_bytes : ℕ
max_string_bytes = 16 * 1024

-- The operations of `f64` and of `serde_json::Number` that `number_value` uses.
pub record NumberOps : Type 1 where
  pub F64 : Type 0
  pub one : F64
  pub as_f64 : Value → Option F64
  pub add : F64 → F64 → F64
  pub min : F64 → F64 → F64
  -- `x.fract() == 0.0`
  pub is_whole : F64 → Bool
  -- `x as i64`
  pub as_i64 : F64 → ℤ
  -- `json!(x)`
  pub to_value : F64 → Value

abbrev pub integer_value : ℤ → Value
integer_value (pos n) = number (unsigned n)
integer_value (negsuc n) = number (negative n)

abbrev pub first {ℓ} : {A : Type ℓ} → List A → Option A
first [] = none
first (x ∷ xs) = some x

abbrev pub or_else {ℓ} : {A : Type ℓ} → Option A → Option A → Option A
or_else none o = o
or_else (some a) o = some a

abbrev pub text_at : String → Value → Option String
text_at key schema = and_then (get key schema) as_str

-- The text of a known format
unfoldable pub formatted : String → Option String
formatted format =
    if str_eq format "date-time"
    then some "2026-01-01T00:00:00Z"
    else if str_eq format "date"
    then some "2026-01-01"
    else if str_eq format "uri"
    then some "https://example.com"
    else if str_eq format "email"
    then some "user@example.com"
    else if str_eq format "uuid"
    then some "00000000-0000-4000-8000-000000000000"
    else none

abbrev pub exes : ℕ → String
exes zero = ""
exes (suc n) = append "x" (exes n)

-- `String::truncate`, for texts of ASCII characters
abbrev pub truncate : ℕ → String → String
truncate zero text = ""
truncate (suc n) String.[] = ""
truncate (suc n) (String.◌∷◌ c text) = String.◌∷◌ c (truncate n text)

abbrev pub shortened : Option ℕ → String → String
shortened none text = text
shortened (some limit) text = truncate limit text

-- The text without a format: of at least `shortest` bytes, then cut to the longest.
unfoldable pub plain_text : ℕ → Option ℕ → String
plain_text shortest longest = shortened longest (append "mcpeval" (exes (shortest - 7)))

unfoldable pub unformatted_value : Value → Spend Value
unfolding plain_text charge
unformatted_value schema =
    let shortest : ℕ = unwrap_or 0 (and_then (get "minLength" schema) as_u64) in
    if is_some (get "pattern" schema) || ltb max_string_bytes shortest
    then fail
    else charge (max shortest 7 + 2)
      >> pure (string (plain_text shortest (and_then (get "maxLength" schema) as_u64)))

abbrev pub string_of_format : Value → Option String → Spend Value
string_of_format schema none = unformatted_value schema
string_of_format schema (some text) = charge (byte_length text + 2) >> pure (string text)

unfoldable pub string_value : Value → Spend Value
unfolding formatted unformatted_value charge
string_value schema = string_of_format schema (and_then (text_at "format" schema) formatted)

-- `const`, the first of `enum`, `default`, the first of `examples`: of the first key that is there.
-- `some none` is a key whose list has no first element.
unfoldable pub literal_of : Value → Option (Option Value)
literal_of schema = or_else (map_some some (get "const" schema)) (
    or_else (map_some (λ v. and_then (as_array v) first) (get "enum" schema)) (
      or_else (map_some some (get "default" schema))
        (map_some (λ v. and_then (as_array v) first) (get "examples" schema))))

unfoldable pub branch_of : Value → Option Value
branch_of schema =
    and_then (and_then (or_else (get "anyOf" schema) (get "oneOf" schema)) as_array) first

abbrev pub kind_of_type : Option Value → Option String
kind_of_type (some (string kind)) = some kind
kind_of_type (some (array kinds)) =
    find (λ kind. not (str_eq kind "null")) (filter_map as_str (elements kinds))
kind_of_type _ = none

unfoldable pub kind_of : Value → Option String
kind_of schema = kind_of_type (get "type" schema)

-- `count` values of one schema
abbrev pub repeat_value : ℕ → Spend Value → Spend (List Value)
repeat_value zero m = pure []
repeat_value (suc n) m = do v ← m; vs ← repeat_value n m; pure (v ∷ vs)

-- The parts below take the synthesis of the next level as `next`.
unfoldable pub array_value : (Value → Spend Value) → Value → Spend Value
unfolding charge
array_value next schema =
    let count : ℕ = unwrap_or 0 (and_then (get "minItems" schema) as_u64) in
    if ltb max_array_items count then fail else (do
      charge (2 + count)
      vs ← repeat_value count (lift (get "items" schema) >>= next)
      pure (array (to_items vs)))

abbrev pub required_values :
    (Value → Spend Value)
    → Option (List (String × Value))
    → List Value
    → Spend (List (String × Value))
required_values next properties [] = pure []
required_values next properties (entry ∷ rest) =
    let more : Spend (List (String × Value)) = required_values next properties rest in
    do
      name ← lift (as_str entry)
      property ← lift (and_then properties (mcp_eval.Json.lookup name))
      charge (byte_length name * 6 + 4)
      v ← next property
      vs ← more
      pure ((name, v) ∷ vs)

-- The arguments are inserted into a map by their names, a later one in place of an earlier.
unfoldable pub object_value : (Value → Spend Value) → Value → Spend Value
unfolding charge
object_value next schema = do
  charge 2
  vs ←
      required_values next (and_then (get "properties" schema) as_object)
        (unwrap_or [] (and_then (get "required" schema) as_array))
  pure (object (to_fields (collect_by (λ e. e.0) vs)))

abbrev pub whole_budget : InputBudget
whole_budget = record { bytes = max_input_bytes; nodes = max_input_nodes }

module _ (ops : NumberOps) where
  -- The number: the least allowed one, or 1, unless the maximum is less.
  unfoldable pub chosen_number : Value → NumberOps.F64 ops
  chosen_number schema =
      let minimum : Option (NumberOps.F64 ops) =
        and_then (get "minimum" schema) (NumberOps.as_f64 ops) in
      let exclusive : Option (NumberOps.F64 ops) =
        map_some (λ bound. NumberOps.add ops bound (NumberOps.one ops))
          (and_then (get "exclusiveMinimum" schema) (NumberOps.as_f64 ops)) in
      let low : NumberOps.F64 ops = unwrap_or (NumberOps.one ops) (or_else minimum exclusive) in
      elim (and_then (get "maximum" schema) (NumberOps.as_f64 ops)) [
        | none ↦ low
        | some maximum ↦ NumberOps.min ops low maximum
      ]

  abbrev pub number_json : NumberOps.F64 ops → Value
  number_json x =
      if NumberOps.is_whole ops x
      then integer_value (NumberOps.as_i64 ops x)
      else NumberOps.to_value ops x

  unfoldable pub number_value : Value → Value
  unfolding chosen_number
  number_value schema = number_json (chosen_number schema)

  unfoldable pub value_of_kind : (Value → Spend Value) → Value → String → Spend Value
  unfolding string_value number_value array_value object_value charge
  value_of_kind next schema kind =
      if str_eq kind "string"
      then string_value schema
      else if str_eq kind "integer" || str_eq kind "number"
      then charge 32 >> pure (number_value schema)
      else if str_eq kind "boolean"
      then charge 5 >> pure (bool false)
      else if str_eq kind "array"
      then array_value next schema
      else if str_eq kind "object"
      then object_value next schema
      else if str_eq kind "null"
      then charge 4 >> pure null
      else fail

  -- After a reference: a literal, a branch, or a value of the type.
  abbrev pub value_of_branch : (Value → Spend Value) → Value → Option Value → Spend Value
  value_of_branch next schema (some branch) = next branch
  value_of_branch next schema none = lift (kind_of schema) >>= value_of_kind next schema

  abbrev pub value_of_literal :
      ℕ → (Value → Spend Value) → Value → Option (Option Value) → Spend Value
  value_of_literal left next schema (some literal) = do
    v ← lift literal
    charge_value left v
    pure v
  value_of_literal left next schema none = value_of_branch next schema (branch_of schema)

  -- `pointer` is `Value::pointer` of serde_json.
  module _ (pointer : Value → String → Option Value) where
    abbrev pub value_of_reference :
        ℕ → (Value → Spend Value) → Value → Value → Option String → Spend Value
    value_of_reference left next root schema (some reference) =
        lift (and_then (strip_prefix b'#' reference) (pointer root)) >>= next
    value_of_reference left next root schema none =
        value_of_literal left next schema (literal_of schema)

    -- `left` is how many levels may still be entered: `MAX_SCHEMA_DEPTH + 1 - depth`.
    unfoldable pub synthesize_value : ℕ → Value → Value → Spend Value
    unfolding value_of_kind charge_value literal_of branch_of kind_of
    synthesize_value zero root schema = fail
    synthesize_value (suc left) root schema =
        value_of_reference (suc left) (synthesize_value left root) root schema
          (text_at "$ref" schema)

    -- `conforms` is `schema::conforms`, on jsonschema.
    unfoldable pub synthesize : (Value → Value → Bool) → Value → Option Value
    unfolding synthesize_value object_value
    synthesize conforms schema =
        elim (object_value (synthesize_value max_schema_depth schema) schema whole_budget) [
          | none ↦ none
          | some (arguments, left) ↦ if conforms schema arguments then some arguments else none
        ]

-- `init::zero_required`
unfoldable pub zero_required : Value → Bool
zero_required schema = elim (and_then (get "required" schema) as_array) [
  | none ↦ true
  | some names ↦ is_empty names
]

-- The first property with a type, and its type
abbrev pub typed_property : List (String × Value) → Option (String × String)
typed_property [] = none
typed_property ((name, property) ∷ rest) =
    or_else (map_some (λ kind. (name, kind)) (text_at "type" property)) (typed_property rest)

abbrev pub is_false : Option Value → Bool
is_false (some (bool b)) = not b
is_false _ = false

abbrev pub one_field : String → Value → Value
one_field name v = object (to_fields ((name, v) ∷ []))

abbrev pub wrong_for : String → Value
wrong_for kind = if str_eq kind "string" then number (unsigned 12345) else string "mcpeval"

abbrev pub untyped_arguments : Value → Option (String × String) → Option Value
untyped_arguments schema (some (name, kind)) = some (one_field name (wrong_for kind))
untyped_arguments schema none =
    if is_false (get "additionalProperties" schema)
    then some (one_field "mcpeval_unknown" (number (unsigned 1)))
    else none

unfoldable pub invalid_arguments : Value → Option Value
unfolding zero_required
invalid_arguments schema =
    if not (zero_required schema)
    then some (object (to_fields []))
    else untyped_arguments schema
        (typed_property (unwrap_or [] (and_then (get "properties" schema) as_object)))
