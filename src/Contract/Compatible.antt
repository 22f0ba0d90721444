-- ===== src/Contract/Compatible.antt =====
-- What a caller of the baseline catalog of src/catalog_contract.rs may rely on when no change is
-- breaking.
use mcp_eval.Prelude.{
  ℕ, ◌≡◌, refl, sym, ap, subst, ◌∙◌, ◌⊎◌, inl, inr, arith, String, Bool, true, false, not, ◌&&◌,
  ◌||◌, Option, none, some, List, [], ◌∷◌, ◌++◌, any, find, count_if_zero, none-append, All, Member,
  is_some, is_none, ltb, str_eq, eq_iff, Bool-cases,
}
use mcp_eval.Standard.{ToolClass, writer, read_only, unannotated}
use mcp_eval.Contract.Changes.{
  ToolContract, CatalogContract, Severity, breaking, ChangeKind, parameter_required,
  parameter_optional, parameter_removed, parameter_added, parameter_changed, severity, Change,
}
use mcp_eval.Json.{lookup}
use mcp_eval.Contract.Kept.{tells_of_constraint, round_quiet, kept_constraints}
use mcp_eval.Contract.Compare.{
  contains, contains_key, push, newly_required, newly_optional, removed, added, changed, tool_named,
  round_of, tool_changes, class_changes, output_changes, baseline_changes, added_tools,
  before_change, insert_change, sort_changes, compare,
}

abbrev pub is_worst : Severity → Bool
is_worst breaking = true
is_worst _ = false

abbrev pub is_breaking : Change → Bool
is_breaking c = is_worst (severity c.kind)

-- The contract of a tool accepts the names of a call's parameters: the required ones are among them,
-- and each is declared. What the values have to be is not said.
pub record AcceptsNames (tool : ToolContract) (names : List String) : Type 0 where
  pub has_required : All (λ r. contains r names ≡ true) tool.required
  pub declared : All (λ n. contains_key n tool.parameters ≡ true) names

-- The class is the same, or was loosened: the tool did not become a writer, and a declaration as
-- read-only was not dropped.
abbrev pub IsAsSafe : ToolClass → ToolClass → Type 0
IsAsSafe writer _ = Unit
IsAsSafe _ read_only = Unit
IsAsSafe unannotated unannotated = Unit
IsAsSafe _ _ = ⊥

swap : (a b c : Bool) → (a || (b || c)) ≡ (b || (a || c))
swap true true c = refl
swap true false c = refl
swap false b c = refl

any-insert_change :
    (p : Change → Bool) (x : Change) (ys : List Change)
    → any p (insert_change x ys) ≡ p x || any p ys
unfolding insert_change
any-insert_change p x [] = refl
any-insert_change p x (y ∷ ys) = elim (Bool-cases (before_change y x)) [
  | inl h ↦ rw h (rw (any-insert_change p x ys) (swap (p y) (p x) (any p ys)))
  | inr h ↦ rw h refl
]

any-sort_changes : (p : Change → Bool) (xs : List Change) → any p (sort_changes xs) ≡ any p xs
unfolding sort_changes
any-sort_changes p [] = refl
any-sort_changes p (x ∷ xs) =
    any-insert_change p x (sort_changes xs) ∙ ap (λ b. p x || b) (any-sort_changes p xs)

always : (true || false) ≡ false → ⊥
always h = cc

-- A pushed change that is not breaking counts nothing.
pushed_none :
    (tool : String) (kind : ChangeKind) (count : ℕ)
    → severity kind ≡ breaking
    → any is_breaking (push tool kind count) ≡ false
    → count ≡ 0
unfolding push
pushed_none tool kind count s h = elim (Bool-cases (ltb 0 count)) [
  | inl t ↦ absurd (always (rw (t, s) at h))
  | inr t ↦ ground arith
]

-- The parts of a round in which nothing is breaking.
pub record IsCompatible (before after : ToolContract) : Type 0 where
  pub class : IsAsSafe before.class after.class
  pub required : newly_required before after ≡ 0
  pub removed : removed before after ≡ 0
  pub output : (is_some before.output_schema && is_none after.output_schema) ≡ false

class_changes-IsAsSafe :
    (name : String) (from to : ToolClass)
    → any is_breaking (class_changes name from to) ≡ false
    → IsAsSafe from to
unfolding class_changes push severity
class_changes-IsAsSafe name writer to h = tt
class_changes-IsAsSafe name read_only read_only h = tt
class_changes-IsAsSafe name read_only writer h = absurd (always h)
class_changes-IsAsSafe name read_only unannotated h = absurd (always h)
class_changes-IsAsSafe name unannotated read_only h = tt
class_changes-IsAsSafe name unannotated writer h = absurd (always h)
class_changes-IsAsSafe name unannotated unannotated h = tt

output_kept :
    (name : String) (before after : Option String)
    → any is_breaking (output_changes name before after) ≡ false
    → (is_some before && is_none after) ≡ false
unfolding output_changes push severity
output_kept name none after h = refl
output_kept name (some a) none h = absurd (always h)
output_kept name (some a) (some b) h = refl

tool_changes-IsCompatible :
    (before after : ToolContract)
    → any is_breaking (tool_changes before after) ≡ false
    → IsCompatible before after
unfolding tool_changes severity
tool_changes-IsCompatible before after h =
    let (c, h1) =
      none-append is_breaking (class_changes before.name before.class after.class) _ h in
    let (r, h2) =
      none-append is_breaking (push before.name parameter_required (newly_required before after)) _
        h1 in
    let (_, h3) =
      none-append is_breaking (push before.name parameter_optional (newly_optional before after)) _
        h2 in
    let (d, h4) =
      none-append is_breaking (push before.name parameter_removed (removed before after)) _ h3 in
    let (_, h5) =
      none-append is_breaking (push before.name parameter_added (added before after)) _ h4 in
    let (_, o) =
      none-append is_breaking (push before.name parameter_changed (changed before after)) _ h5 in
    record {
      class = class_changes-IsAsSafe before.name before.class after.class c;
      required = pushed_none before.name parameter_required (newly_required before after) refl r;
      removed = pushed_none before.name parameter_removed (removed before after) refl d;
      output = output_kept before.name before.output_schema after.output_schema o;
    }

contains_all :
    (P : String → Type 0) (r : String) (set : List String) → All P set → contains r set ≡ true → P r
contains_all P r [] hs h = cc
contains_all P r (s ∷ set) (p, ps) h = elim (Bool-cases (str_eq s r)) [
  | inl e ↦ subst P ((eq_iff s r).0 e) p
  | inr e ↦ contains_all P r set ps (rw e at h)
]

key_all :
    (P : String → Type 0) (n : String) (map : List (String × String))
    → All (λ (e : String × String). P e.0) map
    → contains_key n map ≡ true
    → P n
key_all P n [] hs h = cc
key_all P n ((k, v) ∷ map) (p, ps) h = elim (Bool-cases (str_eq k n)) [
  | inl e ↦ subst P ((eq_iff k n).0 e) p
  | inr e ↦ key_all P n map ps (rw e at h)
]

not-false : (b : Bool) → not b ≡ false → b ≡ true
not-false true h = refl
not-false false h = cc

All-map {ℓ} :
    {A : Type ℓ} {P Q : A → Type 0} (f : (a : A) → P a → Q a) (xs : List A) → All P xs → All Q xs
All-map f [] h = tt
All-map f (x ∷ xs) (p, ps) = (f x p, All-map f xs ps)

compatible-AcceptsNames :
    (before after : ToolContract) (names : List String)
    → IsCompatible before after
    → AcceptsNames before names
    → AcceptsNames after names
unfolding newly_required removed
compatible-AcceptsNames before after names c a = record {
  has_required =
      All-map
        (λ r in_before.
          contains_all (λ s. contains s names ≡ true) r before.required a.has_required
            (not-false (contains r before.required) in_before))
        after.required
        (count_if_zero (λ r. not (contains r before.required)) after.required c.required);
  declared =
      All-map
        (λ n h.
          key_all (λ s. contains_key s after.parameters ≡ true) n before.parameters
            (All-map (λ e k. not-false (contains_key e.0 after.parameters) k) before.parameters
              (count_if_zero (λ e. not (contains_key e.0 after.parameters)) before.parameters
                c.removed))
            h)
        names a.declared;
}

kept_round :
    (tool : ToolContract) (o : Option ToolContract)
    → any is_breaking (round_of tool o) ≡ false
    → (after : ToolContract) × (o ≡ some after) × IsCompatible tool after
unfolding push severity
kept_round tool none h = absurd (always h)
kept_round tool (some after) h = (after, refl, tool_changes-IsCompatible tool after h)

-- The rounds of a baseline's tools, none of them breaking.
kept_tool :
    (before : ToolContract) (tools : List ToolContract) (current : CatalogContract)
    → Member before tools
    → any is_breaking (baseline_changes tools current) ≡ false
    → (after : ToolContract) × (find (tool_named before.name) current.tools ≡ some after)
      × IsCompatible before after
unfolding baseline_changes
kept_tool before [] current m h = absurd m
kept_tool before (tool ∷ tools) current (inr m) h =
    let (_, rest) =
      none-append is_breaking (round_of tool (find (tool_named tool.name) current.tools)) _ h in
    kept_tool before tools current m rest
kept_tool before (tool ∷ tools) current (inl e) h =
    let (first, _) =
      none-append is_breaking (round_of tool (find (tool_named tool.name) current.tools)) _ h in
    subst
      (λ t.
        (after : ToolContract) × (find (tool_named t.name) current.tools ≡ some after)
        × IsCompatible t after)
      (sym e) (kept_round tool (find (tool_named tool.name) current.tools) first)

-- If no change between two catalogs is breaking, each tool of the baseline is still there, as safe
-- to call as it was, and with an output schema if it had one. It accepts every set of parameter names
-- that its baseline contract accepted. Each named parameter has the constraint that it had, unless the
-- comparison tells of changed constraints of this tool, which is for review: a value that was allowed
-- may then be refused.
pub compare-AcceptsNames :
    (baseline current : CatalogContract) (before : ToolContract) (names : List String)
    → any is_breaking (compare baseline current) ≡ false
    → Member before baseline.tools
    → AcceptsNames before names
    → (after : ToolContract) × (find (tool_named before.name) current.tools ≡ some after)
      × IsAsSafe before.class after.class
      × ((is_some before.output_schema && is_none after.output_schema) ≡ false)
      × AcceptsNames after names
      × (All (λ n. lookup n after.parameters ≡ lookup n before.parameters) names
          ⊎ (any (tells_of_constraint before.name) (compare baseline current) ≡ true))
unfolding compare
compare-AcceptsNames baseline current before names h m a =
    let changes = baseline_changes baseline.tools current in
    let more = added_tools baseline current.tools in
    let p = tells_of_constraint before.name in
    let quiet = sym (any-sort_changes is_breaking (changes ++ more)) ∙ h in
    let (after, there, c) =
      kept_tool before baseline.tools current m (none-append is_breaking changes _ quiet).0 in
    (
      after,
      there,
      c.class,
      c.output,
      compatible-AcceptsNames before after names c a,
      elim (Bool-cases (any p (sort_changes (changes ++ more)))) [
        | inl told ↦ inr told
        | inr untold ↦
            let silent = sym (any-sort_changes p (changes ++ more)) ∙ untold in
            inl (
              kept_constraints before after names c.removed
                (rw there at (
                  round_quiet p before baseline.tools current m (none-append p changes _ silent).0))
                a.declared)
      ],
    )
