-- ===== src/Arguments/Size.antt =====
-- How many values stand in the arguments that src/standard.rs builds from a schema.
use mcp_eval.Prelude.{
  ℕ, zero, suc, ◌+◌, ◌*◌, ◌≤◌, ◌≡◌, refl, ap, subst, arith, String, Bool, true, false, Option, none,
  some, List, [], ◌∷◌, and_then, unwrap_or, if◌then◌else◌, str_eq, bytes, byte_length, strip_prefix,
  Bool-cases, inl, inr,
}
use mcp_eval.Prelude.Int.{ℤ, pos, negsuc}
use mcp_eval.Json.{
  Value, null, bool, string, array, object, to_items, to_fields, less, insert_by, collect_by, get,
  lookup, as_str, as_array, as_object,
}
use mcp_eval.Arguments.Spend.{
  InputBudget, Spend, ◌>>=◌, ◌>>◌, pure, lift, fail, charge, charge_value,
}
use mcp_eval.Arguments.Synthesis.{
  NumberOps, integer_value, chosen_number, number_json, number_value, formatted, string_value,
  string_of_format, unformatted_value, literal_of, branch_of, kind_of, repeat_value, array_value,
  required_values, object_value, value_of_kind, value_of_branch, value_of_literal,
  value_of_reference, synthesize_value, synthesize, whole_budget, text_at, max_schema_depth,
}
use mcp_eval.Arguments.Bounds.{
  node_count, item_nodes, field_nodes, Costs, >>=-Costs, pure-Costs, fail-Costs, lift-Costs, grown,
  charge_then, charge_value-Costs,
}

kept :
    (t : Bool) (v w : Value)
    → ◌≡◌ {A = Option Value} (if t then some v else none) (some w)
    → (t ≡ true) × (v ≡ w)
kept true v w h = ground arith
kept false v w h = cc

if-Costs {ℓ} :
    {A : Type ℓ} (k : ℕ) (size : A → ℕ) (t : Bool) (m n : Spend A)
    → Costs k size m
    → Costs k size n
    → Costs k size (if t then m else n)
if-Costs k size true m n c d = c
if-Costs k size false m n c d = d

charged_value :
    (bytes : ℕ) (v : Value) → node_count v ≤ 1 → Costs 0 node_count (charge bytes >> pure v)
charged_value bytes v l = charge_then bytes node_count (pure v) (pure-Costs 1 node_count v l)

string_of_format-Costs :
    (schema : Value) (o : Option String) → Costs 0 node_count (string_of_format schema o)
unfolding unformatted_value node_count
string_of_format-Costs schema (some text) =
    charged_value (byte_length text + 2) (string text) (omega arith)
string_of_format-Costs schema none =
    if-Costs 0 node_count _ fail _ (fail-Costs 0 node_count)
      (charged_value _ (string _) (omega arith))

repeat_value-Costs :
    (n : ℕ) (m : Spend Value)
    → Costs 0 node_count m
    → Costs 0 (λ vs. item_nodes (to_items vs)) (repeat_value n m)
unfolding item_nodes
repeat_value-Costs zero m c = pure-Costs 0 (λ vs. item_nodes (to_items vs)) [] (omega arith)
repeat_value-Costs (suc n) m c =
    >>=-Costs 0 node_count (λ vs. item_nodes (to_items vs)) m _ c
      (λ v.
        >>=-Costs (node_count v) (λ vs. node_count v + item_nodes (to_items vs))
          (λ vs. item_nodes (to_items vs)) (repeat_value n m) _
          (grown 0 (node_count v) (λ vs. item_nodes (to_items vs))
            (λ vs. node_count v + item_nodes (to_items vs)) (repeat_value n m) (λ vs. omega arith)
            (repeat_value-Costs n m c))
          (λ vs.
            pure-Costs (node_count v + item_nodes (to_items vs)) (λ vs. item_nodes (to_items vs))
              (v ∷ vs) (omega arith)))

-- `next` builds no more than it is charged for.
abbrev Builds : (Value → Spend Value) → Type 0
Builds next = (schema : Value) → Costs 0 node_count (next schema)

array_value-Costs :
    (next : Value → Spend Value) (schema : Value)
    → Builds next
    → Costs 0 node_count (array_value next schema)
unfolding array_value node_count
array_value-Costs next schema b = if-Costs 0 node_count _ fail _ (fail-Costs 0 node_count) (
    charge_then _ node_count _ (
      >>=-Costs 1 (λ vs. 1 + item_nodes (to_items vs)) node_count
        (repeat_value _ (lift (get "items" schema) >>= next)) _
        (grown 0 1 (λ vs. item_nodes (to_items vs)) (λ vs. 1 + item_nodes (to_items vs)) _
          (λ vs. omega arith)
          (repeat_value-Costs _ (lift (get "items" schema) >>= next) (
            >>=-Costs 0 (λ _. 0) node_count (lift (get "items" schema)) next
              (lift-Costs 0 (get "items" schema)) b)))
        (λ vs.
          pure-Costs (1 + item_nodes (to_items vs)) node_count (array (to_items vs))
            (omega arith))))

-- The values of the fields, by their list.
abbrev pair_nodes : List (String × Value) → ℕ
pair_nodes [] = 0
pair_nodes ((k, v) ∷ vs) = node_count v + pair_nodes vs

field_nodes-to_fields : (vs : List (String × Value)) → field_nodes (to_fields vs) ≡ pair_nodes vs
unfolding field_nodes
field_nodes-to_fields [] = refl
field_nodes-to_fields ((k, v) ∷ vs) = ap (λ n. node_count v + n) (field_nodes-to_fields vs)

insert_by-nodes :
    (e : String × Value) (vs : List (String × Value))
    → pair_nodes (insert_by (λ e. e.0) e vs) ≤ node_count e.1 + pair_nodes vs
insert_by-nodes (k, v) [] = omega arith
insert_by-nodes (k, v) ((l, w) ∷ vs) = elim (Bool-cases (str_eq k l)) [
  | inl s ↦ rw s (omega arith)
  | inr s ↦ elim (Bool-cases (less (bytes k) (bytes l))) [
    | inl m ↦ rw (s, m) (omega arith)
    | inr m ↦ rw (s, m) (omega (arith, insert_by-nodes (k, v) vs))
  ]
]

collect_by-nodes :
    (vs : List (String × Value)) → pair_nodes (collect_by (λ e. e.0) vs) ≤ pair_nodes vs
collect_by-nodes [] = omega arith
collect_by-nodes ((k, v) ∷ vs) =
    omega (arith, insert_by-nodes (k, v) (collect_by (λ e. e.0) vs), collect_by-nodes vs)

required_values-Costs :
    (next : Value → Spend Value) (properties : Option (List (String × Value))) (names : List Value)
    → Builds next
    → Costs 0 pair_nodes (required_values next properties names)
required_values-Costs next properties [] b = pure-Costs 0 pair_nodes [] (omega arith)
required_values-Costs next properties (entry ∷ rest) b =
    >>=-Costs 0 (λ _. 0) pair_nodes (lift (as_str entry)) _ (lift-Costs 0 (as_str entry))
      (λ name.
        >>=-Costs 0 (λ _. 0) pair_nodes (lift (and_then properties (lookup name))) _
          (lift-Costs 0 (and_then properties (lookup name)))
          (λ property. charge_then (byte_length name * 6 + 4) pair_nodes _ (
            >>=-Costs 1 node_count pair_nodes (next property) _
              (grown 0 1 node_count node_count (next property) (λ _. omega arith) (b property))
              (λ v.
                >>=-Costs (node_count v) (λ vs. node_count v + pair_nodes vs) pair_nodes
                  (required_values next properties rest) _
                  (grown 0 (node_count v) pair_nodes (λ vs. node_count v + pair_nodes vs)
                    (required_values next properties rest) (λ _. omega arith)
                    (required_values-Costs next properties rest b))
                  (λ vs.
                    pure-Costs (node_count v + pair_nodes vs) pair_nodes ((name, v) ∷ vs)
                      (omega arith))))))

object_value-Costs :
    (next : Value → Spend Value) (schema : Value)
    → Builds next
    → Costs 0 node_count (object_value next schema)
unfolding object_value node_count
object_value-Costs next schema b = charge_then 2 node_count _ (
    >>=-Costs 1 (λ vs. 1 + pair_nodes vs) node_count
      (required_values next (and_then (get "properties" schema) as_object)
        (unwrap_or [] (and_then (get "required" schema) as_array)))
      _
      (grown 0 1 pair_nodes (λ vs. 1 + pair_nodes vs)
        (required_values next (and_then (get "properties" schema) as_object)
          (unwrap_or [] (and_then (get "required" schema) as_array)))
        (λ _. omega arith)
        (required_values-Costs next (and_then (get "properties" schema) as_object)
          (unwrap_or [] (and_then (get "required" schema) as_array)) b))
      (λ vs.
        pure-Costs (1 + pair_nodes vs) node_count (object (to_fields (collect_by (λ e. e.0) vs)))
          (omega (arith, collect_by-nodes vs, field_nodes-to_fields (collect_by (λ e. e.0) vs)))))

module _ (ops : NumberOps)
    (to_value_single : (x : NumberOps.F64 ops) → node_count (NumberOps.to_value ops x) ≡ 1) where
  integer_single : (i : ℤ) → node_count (integer_value i) ≤ 1
  unfolding node_count
  integer_single (pos n) = omega arith
  integer_single (negsuc n) = omega arith

  if_nodes :
      (t : Bool) (v w : Value)
      → node_count v ≤ 1
      → node_count w ≤ 1
      → node_count (if t then v else w) ≤ 1
  if_nodes true v w p q = p
  if_nodes false v w p q = q

  number_json-single : (x : NumberOps.F64 ops) → node_count (number_json ops x) ≤ 1
  number_json-single x =
      if_nodes (NumberOps.is_whole ops x) (integer_value (NumberOps.as_i64 ops x))
        (NumberOps.to_value ops x) (integer_single (NumberOps.as_i64 ops x))
        (omega (arith, to_value_single x))

  number_value-single : (schema : Value) → node_count (number_value ops schema) ≤ 1
  unfolding number_value
  number_value-single schema = number_json-single (chosen_number ops schema)

  value_of_kind-Costs :
      (next : Value → Spend Value) (schema : Value) (kind : String)
      → Builds next
      → Costs 0 node_count (value_of_kind ops next schema kind)
  unfolding value_of_kind string_value node_count
  value_of_kind-Costs next schema kind b =
      if-Costs 0 node_count (str_eq kind "string") _ _
        (string_of_format-Costs schema (and_then (text_at "format" schema) formatted))
        (if-Costs 0 node_count _ _ _
          (charged_value 32 (number_value ops schema) (number_value-single schema))
          (if-Costs 0 node_count (str_eq kind "boolean") _ _
            (charged_value 5 (bool false) (omega arith))
            (if-Costs 0 node_count (str_eq kind "array") _ _ (array_value-Costs next schema b) (
              if-Costs 0 node_count (str_eq kind "object") _ _ (object_value-Costs next schema b) (
                if-Costs 0 node_count (str_eq kind "null") _ _ (charged_value 4 null (omega arith))
                  (fail-Costs 0 node_count))))))

  value_of_literal-Costs :
      (left : ℕ) (next : Value → Spend Value) (schema : Value) (o : Option (Option Value))
      → Builds next
      → Costs 0 node_count (value_of_literal ops left next schema o)
  value_of_literal-Costs left next schema (some literal) b =
      >>=-Costs 0 (λ _. 0) node_count (lift literal) _ (lift-Costs 0 literal)
        (λ v.
          >>=-Costs 0 (λ _. node_count v) node_count (charge_value left v) _
            (charge_value-Costs left v) (λ _. pure-Costs (node_count v) node_count v (omega arith)))
  value_of_literal-Costs left next schema none b = branch (branch_of schema)
    where
      branch : (o : Option Value) → Costs 0 node_count (value_of_branch ops next schema o)
      branch (some s) = b s
      branch none =
          >>=-Costs 0 (λ _. 0) node_count (lift (kind_of schema)) _ (lift-Costs 0 (kind_of schema))
            (λ kind. value_of_kind-Costs next schema kind b)

  module _ (pointer : Value → String → Option Value) where
    value_of_reference-Costs :
        (left : ℕ) (next : Value → Spend Value) (root schema : Value) (o : Option String)
        → Builds next
        → Costs 0 node_count (value_of_reference ops pointer left next root schema o)
    value_of_reference-Costs left next root schema none b =
        value_of_literal-Costs left next schema (literal_of schema) b
    value_of_reference-Costs left next root schema (some reference) b =
        let target : Option Value = and_then (strip_prefix b'#' reference) (pointer root) in
        >>=-Costs 0 (λ _. 0) node_count (lift target) next (lift-Costs 0 target) b

    synthesize_value-Costs :
        (left : ℕ) (root : Value) → Builds (synthesize_value ops pointer left root)
    unfolding synthesize_value
    synthesize_value-Costs zero root schema = fail-Costs 0 node_count
    synthesize_value-Costs (suc left) root schema =
        value_of_reference-Costs (suc left) (synthesize_value ops pointer left root) root schema
          (text_at "$ref" schema) (synthesize_value-Costs left root)

    -- Synthesized arguments satisfy their schema and consist of at most 4096 values, whatever the
    -- schema says. A float is written as one value.
    pub synthesize_bounded :
        (conforms : Value → Value → Bool) (schema arguments : Value)
        → synthesize ops pointer conforms schema ≡ some arguments
        → (conforms schema arguments ≡ true) × (node_count arguments ≤ 4096)
    unfolding synthesize
    synthesize_bounded conforms schema arguments h =
        made
          (object_value (synthesize_value ops pointer max_schema_depth schema) schema whole_budget)
          refl h
      where
        made :
            (o : Option (Value × InputBudget))
            → object_value
                (synthesize_value ops pointer max_schema_depth schema)
                schema
                whole_budget
              ≡ o
            → ◌≡◌ {A = Option Value}
                (elim o [
                  | none ↦ none
                  | some (a, left) ↦ if conforms schema a then some a else none
                ])
                (some arguments)
            → (conforms schema arguments ≡ true) × (node_count arguments ≤ 4096)
        made none e h = cc
        made (some (a, left)) e h =
            let (valid, same) = kept (conforms schema a) a arguments h in
            let c : Costs 0 node_count
                (object_value (synthesize_value ops pointer max_schema_depth schema) schema) =
              object_value-Costs (synthesize_value ops pointer max_schema_depth schema) schema
                (synthesize_value-Costs max_schema_depth schema) in
            subst (λ v. (conforms schema v ≡ true) × (node_count v ≤ 4096)) same
              (valid, omega (arith, c.bound whole_budget a left e))
