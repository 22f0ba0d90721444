-- ===== src/Contract/Redacted.antt =====
-- What `from_json` of src/catalog_contract.rs reads.
use mcp_eval.Prelude.{
  unwrap_or, ◌≡◌, ap, subst, String, Bool, true, Option, none, some, All, ok, context, traverse,
  traverse-All, >>=-ok, ensure-ok, context-ok, ok_injective, and_then, Bool-cases, inl, inr, ◌>>=◌,
}
use mcp_eval.Json.{
  Value, null, string, array, object, get, as_str, as_array, as_object, All-collect_by,
}
use mcp_eval.Privacy.{valid_tool}
use mcp_eval.Catalog.{filter_some}
use mcp_eval.Contract.Changes.{ToolContract, CatalogContract, class_from_label}
use mcp_eval.Contract.Wire.{
  digest_not_string, digest_not_hex, missing_tools, no_valid_name, no_known_class, missing_required,
  missing_parameters, is_digest, hex, read_parameter, read_output, read_tool, contract_from_json,
}

abbrev pub IsDigest : String → Type 0
IsDigest text = is_digest text ≡ true

abbrev pub IsOutput : Option String → Type 0
IsOutput none = Unit
IsOutput (some text) = IsDigest text

-- A tool of a report: its name is a label, and nothing of its schema but digests is kept.
pub record IsRedacted (tool : ToolContract) : Type 0 where
  pub name : valid_tool tool.name ≡ true
  pub required : All IsDigest tool.required
  pub parameters : All (λ e. IsDigest e.0 × IsDigest e.1) tool.parameters
  pub output : IsOutput tool.output_schema

hex-IsDigest : (value : Value) (text : String) → hex value ≡ ok text → IsDigest text
unfolding hex
hex-IsDigest value text h =
    let (t, _, h1) = >>=-ok (context digest_not_string (as_str value)) _ h in
    let (d, h2) = ensure-ok (is_digest t) digest_not_hex _ h1 in subst IsDigest (ok_injective h2) d

read_parameter-IsDigest :
    (field : String × Value) (e : String × String)
    → read_parameter field ≡ ok e
    → IsDigest e.0 × IsDigest e.1
unfolding read_parameter
read_parameter-IsDigest (name, constraint) e h =
    let (key, h1, k1) = >>=-ok (hex (string name)) _ h in
    let (digest, h2, k2) = >>=-ok (hex constraint) _ k1 in
    subst (λ (e : String × String). IsDigest e.0 × IsDigest e.1) (ok_injective k2)
      (hex-IsDigest (string name) key h1, hex-IsDigest constraint digest h2)

some-IsOutput :
    (value : Value) (out : Option String)
    → (hex value >>= λ digest. ok (some digest)) ≡ ok out
    → IsOutput out
some-IsOutput value out h =
    let (digest, h1, k1) = >>=-ok (hex value) _ h in
    subst IsOutput (ok_injective k1) (hex-IsDigest value digest h1)

read_output-IsOutput :
    (o : Option Value) (out : Option String) → read_output o ≡ ok out → IsOutput out
read_output-IsOutput none out h = subst IsOutput (ok_injective h) tt
read_output-IsOutput (some null) out h = subst IsOutput (ok_injective h) tt
read_output-IsOutput (some (Value.bool b)) out h = some-IsOutput (Value.bool b) out h
read_output-IsOutput (some (Value.number n)) out h = some-IsOutput (Value.number n) out h
read_output-IsOutput (some (string s)) out h = some-IsOutput (string s) out h
read_output-IsOutput (some (array vs)) out h = some-IsOutput (array vs) out h
read_output-IsOutput (some (object fs)) out h = some-IsOutput (object fs) out h

filter_some-holds :
    (p : String → Bool) (o : Option String) (a : String) → filter_some p o ≡ some a → p a ≡ true
filter_some-holds p none a h = cc
filter_some-holds p (some b) a h = elim (Bool-cases (p b)) [
  | inl e ↦
      let k : ◌≡◌ {A = Option String} (some b) (some a) = rw e at h in
      subst (λ c. p c ≡ true) (ap (λ o. unwrap_or a o) k) e
  | inr e ↦ let k : ◌≡◌ {A = Option String} none (some a) = rw e at h in cc
]

read_tool-IsRedacted :
    (value : Value) (tool : ToolContract) → read_tool value ≡ ok tool → IsRedacted tool
unfolding read_tool
read_tool-IsRedacted value tool h =
    let (name, n, h1) =
      >>=-ok (context no_valid_name (filter_some valid_tool (and_then (get "name" value) as_str))) _
        h in
    let (class, _, h2) =
      >>=-ok
        (context no_known_class (and_then (and_then (get "class" value) as_str) class_from_label)) _
        h1 in
    let (listed, _, h3) =
      >>=-ok (context missing_required (and_then (get "required" value) as_array)) _ h2 in
    let (required, r, h4) = >>=-ok (traverse hex listed) _ h3 in
    let (fields, _, h5) =
      >>=-ok (context missing_parameters (and_then (get "parameters" value) as_object)) _ h4 in
    let (parameters, p, h6) = >>=-ok (traverse read_parameter fields) _ h5 in
    let (output, o, h7) = >>=-ok (read_output (get "output_schema" value)) _ h6 in
    subst IsRedacted (ok_injective h7) (record {
      name = filter_some-holds valid_tool _ name (context-ok no_valid_name _ n);
      required =
          All-collect_by IsDigest (λ name. name) required
            (traverse-All IsDigest hex hex-IsDigest listed required r);
      parameters =
          All-collect_by (λ (e : String × String). IsDigest e.0 × IsDigest e.1)
            (λ (e : String × String). e.0) parameters
            (traverse-All (λ (e : String × String). IsDigest e.0 × IsDigest e.1) read_parameter
              read_parameter-IsDigest fields parameters p);
      output = read_output-IsOutput (get "output_schema" value) output o;
    })

-- What a report reads as a catalog contract holds labels and digests only.
pub contract_from_json-IsRedacted :
    (value : Value) (contract : CatalogContract)
    → contract_from_json value ≡ ok contract
    → All IsRedacted contract.tools
unfolding contract_from_json
contract_from_json-IsRedacted value contract h =
    let (listed, _, h1) =
      >>=-ok (context missing_tools (and_then (get "tools" value) as_array)) _ h in
    let (tools, t, h2) = >>=-ok (traverse read_tool listed) _ h1 in
    subst (λ (c : CatalogContract). All IsRedacted c.tools) (ok_injective h2)
      (traverse-All IsRedacted read_tool read_tool-IsRedacted listed tools t)
