-- ===== src/Contract/Derived.antt =====
-- The contract that src/catalog_contract.rs computes from a listed catalog.
use mcp_eval.Prelude.{
  ℕ, zero, suc, ◌+◌, ◌*◌, ◌/◌, ◌%◌, ◌≤◌, ◌≡◌, refl, ap, subst, arith, String, Bool, true, false,
  ◌&&◌, Option, none, some, List, [], ◌∷◌, ◌++◌, map, filter_map, take, All, all, length,
  length-append, ◌==◌, bytes, bytes-append, append, byte_length, is_ascii_hexdigit, Bool-cases, inl,
  inr, and_then, unwrap_or, map_some, ok,
}
use mcp_eval.Json.{Value, less, All-collect_by, get, as_str, as_array, as_object}
use mcp_eval.Privacy.{valid_tool}
use mcp_eval.Standard.{ToolDefinition}
use mcp_eval.Catalog.{ToolCatalog}
use mcp_eval.Contract.Changes.{ToolContract}
use mcp_eval.Contract.Constraints.{
  hex_digits, digit_at, hex_text, digest, constraint_digest, required_of, parameters_of,
  contract_of, insert_tool, sort_tools, catalog_contract,
}
use mcp_eval.Contract.Wire.{contract_json, contract_from_json}
use mcp_eval.Contract.Redacted.{IsDigest, IsOutput, IsRedacted}
use mcp_eval.Contract.Order.{IsOrdered, collect_by-IsOrdered}
use mcp_eval.Contract.RoundTrip.{map_same, IsListed, contract_from_json-contract_json}

-- A text of `n` hexadecimal digits
record IsHex (n : ℕ) (text : String) : Type 0 where
  size : byte_length text ≡ n
  digits : all is_ascii_hexdigit (bytes text) ≡ true

all-append :
    (p : ℕ → Bool) (xs ys : List ℕ) → all p xs ≡ true → all p ys ≡ true → all p (xs ++ ys) ≡ true
all-append p [] ys h k = k
all-append p (x ∷ xs) ys h k = elim (Bool-cases (p x)) [
  | inl e ↦ rw e (all-append p xs ys (rw e at h) k)
  | inr e ↦ let no : ◌≡◌ {A = Bool} false true = rw e at h in cc
]

append-IsHex : {n m : ℕ} (s t : String) → IsHex n s → IsHex m t → IsHex (n + m) (append s t)
append-IsHex s t h k = record {
  size = rw (bytes-append s t, length-append (bytes s) (bytes t), h.size, k.size) refl;
  digits =
      rw (bytes-append s t) (all-append is_ascii_hexdigit (bytes s) (bytes t) h.digits k.digits);
}

digit_at-IsHex : (n : ℕ) (ds : List String) → All (IsHex 1) ds → IsHex 1 (digit_at n ds)
unfolding digit_at
digit_at-IsHex n [] h = record { size = refl; digits = refl }
digit_at-IsHex zero (d ∷ ds) h = h.0
digit_at-IsHex (suc n) (d ∷ ds) h = digit_at-IsHex n ds h.1

all-IsHex :
    (ds : List String)
    → all (λ d. byte_length d == 1 && all is_ascii_hexdigit (bytes d)) ds ≡ true
    → All (IsHex 1) ds
all-IsHex [] h = tt
all-IsHex (d ∷ ds) h =
    let (size, digits, rest) =
      parts (byte_length d) (all is_ascii_hexdigit (bytes d))
        (all (λ d. byte_length d == 1 && all is_ascii_hexdigit (bytes d)) ds) h in
    (record { size = size; digits = digits }, all-IsHex ds rest)
  where
    parts : (n : ℕ) (b c : Bool) → ((n == 1 && b) && c) ≡ true → (n ≡ 1) × (b ≡ true) × (c ≡ true)
    parts n b c h = ground arith

digits-IsHex : All (IsHex 1) hex_digits
digits-IsHex = all-IsHex hex_digits refl

hex_text-IsHex : (bs : List ℕ) → IsHex (2 * length bs) (hex_text bs)
unfolding hex_text
hex_text-IsHex [] = record { size = refl; digits = refl }
hex_text-IsHex (b ∷ bs) =
    subst (λ n. IsHex n (hex_text (b ∷ bs))) (omega arith)
      (append-IsHex (digit_at (b / 16) hex_digits) _
        (digit_at-IsHex (b / 16) hex_digits digits-IsHex)
        (append-IsHex (digit_at (b % 16) hex_digits) (hex_text bs)
          (digit_at-IsHex (b % 16) hex_digits digits-IsHex) (hex_text-IsHex bs)))

take_all : (n : ℕ) (xs : List ℕ) → n ≤ length xs → length (take n xs) ≡ n
take_all zero xs h = refl
take_all (suc n) [] h = omega arith
take_all (suc n) (x ∷ xs) h = ap suc (take_all n xs (omega (arith, h)))

hex-IsDigest : (text : String) → IsHex 16 text → IsDigest text
hex-IsDigest text h = rw (h.size, h.digits) refl

All-map {ℓ κ} :
    {A : Type ℓ} {B : Type κ} (P : B → Type 0) (f : A → B)
    → ((x : A) → P (f x))
    → (xs : List A) → All P (map f xs)
All-map P f h [] = tt
All-map P f h (x ∷ xs) = (h x, All-map P f h xs)

module _ (pointer : Value → String → Option Value) (print : Value → String)
    (sha256 : List ℕ → List ℕ)
    (sha256_size : (message : List ℕ) → length (sha256 message) ≡ 32) where
  digest-IsDigest : (message : List ℕ) → IsDigest (digest pointer print sha256 message)
  unfolding digest
  digest-IsDigest message = hex-IsDigest (hex_text (take 8 (sha256 message))) (
      subst (λ n. IsHex (2 * n) (hex_text (take 8 (sha256 message))))
        (take_all 8 (sha256 message) (omega (arith, sha256_size message)))
        (hex_text-IsHex (take 8 (sha256 message))))

  constraint_digest-IsDigest :
      (schema root : Value) → IsDigest (constraint_digest pointer print sha256 schema root)
  unfolding constraint_digest
  constraint_digest-IsDigest schema root = digest-IsDigest _

  output_digest :
      (o : Option Value)
      → IsOutput (map_some (λ output. constraint_digest pointer print sha256 output output) o)
  output_digest none = tt
  output_digest (some output) = constraint_digest-IsDigest output output

  abbrev entry : Value → String × Value → String × String
  entry schema p =
      (digest pointer print sha256 (bytes p.0), constraint_digest pointer print sha256 p.1 schema)

  insert_tool-All :
      (P : ToolContract → Type 0) (t : ToolContract) (ts : List ToolContract)
      → P t
      → All P ts
      → All P (insert_tool pointer print sha256 t ts)
  unfolding insert_tool
  insert_tool-All P t [] h hs = (h, tt)
  insert_tool-All P t (u ∷ us) h hs = elim (Bool-cases (less (bytes u.name) (bytes t.name))) [
    | inl l ↦ rw l (hs.0, insert_tool-All P t us h hs.1)
    | inr l ↦ rw l (h, hs)
  ]

  abbrev required_digests : Value → List String
  required_digests schema =
      map (λ name. digest pointer print sha256 (bytes name))
        (filter_map as_str (unwrap_or [] (and_then (get "required" schema) as_array)))

  abbrev parameter_digests : Value → List (String × String)
  parameter_digests schema =
      map (entry schema) (unwrap_or [] (and_then (get "properties" schema) as_object))

  required_of-IsDigest : (schema : Value) → All IsDigest (required_of pointer print sha256 schema)
  unfolding required_of
  required_of-IsDigest schema =
      All-collect_by IsDigest (λ name. name) (required_digests schema)
        (All-map IsDigest (λ name. digest pointer print sha256 (bytes name))
          (λ name. digest-IsDigest (bytes name)) _)

  parameters_of-IsDigest :
      (schema : Value)
      → All (λ e. IsDigest e.0 × IsDigest e.1) (parameters_of pointer print sha256 schema)
  unfolding parameters_of
  parameters_of-IsDigest schema =
      All-collect_by (λ e. IsDigest e.0 × IsDigest e.1) (λ e. e.0) (parameter_digests schema)
        (All-map (λ e. IsDigest e.0 × IsDigest e.1) (entry schema)
          (λ p. (digest-IsDigest (bytes p.0), constraint_digest-IsDigest p.1 schema)) _)

  contract_of-IsRedacted :
      (tool : ToolDefinition)
      → valid_tool tool.name ≡ true
      → IsRedacted (contract_of pointer print sha256 tool)
  unfolding contract_of
  contract_of-IsRedacted tool v = record {
    name = v;
    required = required_of-IsDigest tool.input_schema;
    parameters = parameters_of-IsDigest tool.input_schema;
    output = output_digest tool.output_schema;
  }

  contract_of-IsListed : (tool : ToolDefinition) → IsListed (contract_of pointer print sha256 tool)
  unfolding contract_of required_of parameters_of
  contract_of-IsListed tool = record {
    required =
        subst IsOrdered (map_same (required_of pointer print sha256 tool.input_schema))
          (collect_by-IsOrdered (λ name. name) (required_digests tool.input_schema));
    parameters = collect_by-IsOrdered (λ e. e.0) (parameter_digests tool.input_schema);
  }

  contracts :
      (tools : List ToolDefinition)
      → All (λ tool. valid_tool tool.name ≡ true) tools
      → All (λ tool. IsRedacted tool × IsListed tool) (map (contract_of pointer print sha256) tools)
  contracts [] h = tt
  contracts (t ∷ ts) h = ((contract_of-IsRedacted t h.0, contract_of-IsListed t), contracts ts h.1)

  sort_tools-All :
      (P : ToolContract → Type 0) (ts : List ToolContract)
      → All P ts
      → All P (sort_tools pointer print sha256 ts)
  unfolding sort_tools
  sort_tools-All P [] h = tt
  sort_tools-All P (t ∷ ts) (h, hs) =
      insert_tool-All P t (sort_tools pointer print sha256 ts) h (sort_tools-All P ts hs)

  -- The contract of a catalog whose tools have valid names is read back from its JSON as it was:
  -- its digests are digests, its sets and maps are in order. `sha256` gives 32 bytes.
  pub contract_from_json-catalog_contract :
      (catalog : ToolCatalog)
      → All (λ tool. valid_tool tool.name ≡ true) catalog.tools
      → contract_from_json (contract_json (catalog_contract pointer print sha256 catalog))
        ≡ ok (catalog_contract pointer print sha256 catalog)
  unfolding catalog_contract
  contract_from_json-catalog_contract catalog h =
      contract_from_json-contract_json (catalog_contract pointer print sha256 catalog)
        (sort_tools-All (λ tool. IsRedacted tool × IsListed tool) _ (contracts catalog.tools h))
