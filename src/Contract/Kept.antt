-- ===== src/Contract/Kept.antt =====
-- When src/catalog_contract.rs tells of no changed parameter, the constraints are as they were.
use mcp_eval.Prelude.{
  ℕ, ◌≡◌, sym, ap, subst, inl, inr, arith, String, Bool, true, false, not, ◌&&◌, ◌||◌, Option, none,
  some, List, [], ◌∷◌, any, find, count_if_zero, none-append, All, Member, is_some, ltb, str_eq,
  eq_iff, eq_refl, Bool-cases,
}
use mcp_eval.Json.{lookup}
use mcp_eval.Contract.Changes.{
  ToolContract, CatalogContract, ChangeKind, parameter_required, parameter_optional,
  parameter_removed, parameter_added, parameter_changed, Change,
}
use mcp_eval.Contract.Compare.{
  contains_key, differs, push, newly_required, newly_optional, removed, added, changed, tool_named,
  round_of, tool_changes, class_changes, baseline_changes,
}

abbrev is_parameter_changed : ChangeKind → Bool
is_parameter_changed parameter_changed = true
is_parameter_changed _ = false

-- The change says that parameters of the tool have another constraint.
abbrev pub tells_of_constraint : String → Change → Bool
tells_of_constraint tool c = str_eq c.tool tool && is_parameter_changed c.kind

-- The round of a tool tells of nothing that the rounds together do not tell of.
pub round_quiet :
    (p : Change → Bool) (before : ToolContract) (tools : List ToolContract)
    (current : CatalogContract)
    → Member before tools
    → any p (baseline_changes tools current) ≡ false
    → any p (round_of before (find (tool_named before.name) current.tools)) ≡ false
unfolding baseline_changes
round_quiet p before [] current m h = absurd m
round_quiet p before (tool ∷ tools) current m h =
    let (first, rest) =
      none-append p (round_of tool (find (tool_named tool.name) current.tools)) _ h in
    elim m [
      | inl e ↦
          subst
            (λ (t : ToolContract).
              any p (round_of t (find (tool_named t.name) current.tools)) ≡ false)
            (sym e) first
      | inr later ↦ round_quiet p before tools current later rest
    ]

always : ((true && true) || false) ≡ false → ⊥
always h = cc

told :
    (tool : String) (count : ℕ)
    → any (tells_of_constraint tool) (push tool parameter_changed count) ≡ false
    → count ≡ 0
unfolding push
told tool count h = elim (Bool-cases (ltb 0 count)) [
  | inl t ↦ absurd (always (rw (t, eq_refl tool) at h))
  | inr t ↦ ground arith
]

changed_zero :
    (before after : ToolContract)
    → any (tells_of_constraint before.name) (tool_changes before after) ≡ false
    → changed before after ≡ 0
unfolding tool_changes
changed_zero before after h =
    let p = tells_of_constraint before.name in
    let (_, h1) = none-append p (class_changes before.name before.class after.class) _ h in
    let (_, h2) =
      none-append p (push before.name parameter_required (newly_required before after)) _ h1 in
    let (_, h3) =
      none-append p (push before.name parameter_optional (newly_optional before after)) _ h2 in
    let (_, h4) = none-append p (push before.name parameter_removed (removed before after)) _ h3 in
    let (_, h5) = none-append p (push before.name parameter_added (added before after)) _ h4 in
    let (c, _) = none-append p (push before.name parameter_changed (changed before after)) _ h5 in
    told before.name (changed before after) c

constraint_equal :
    (o : Option String) (constraint : String)
    → not (is_some o) ≡ false
    → differs o constraint ≡ false
    → o ≡ some constraint
constraint_equal none constraint h d = cc
constraint_equal (some now) constraint h d = elim (Bool-cases (str_eq now constraint)) [
  | inl e ↦ ap some ((eq_iff now constraint).0 e)
  | inr e ↦ cc (rw e at d)
]

same_constraint :
    (n : String) (after map : List (String × String))
    → All (λ (e : String × String). not (contains_key e.0 after) ≡ false) map
    → All (λ (e : String × String). differs (lookup e.0 after) e.1 ≡ false) map
    → contains_key n map ≡ true
    → lookup n after ≡ lookup n map
same_constraint n after [] hs ds h = cc
same_constraint n after ((k, v) ∷ map) (there, hs) (same, ds) h = elim (Bool-cases (str_eq k n)) [
  | inl e ↦ rw e (
      subst (λ (m : String). lookup m after ≡ some v) ((eq_iff k n).0 e)
        (constraint_equal (lookup k after) v there same))
  | inr e ↦ rw e (same_constraint n after map hs ds (rw e at h))
]

each_same :
    (names : List String) (after map : List (String × String))
    → All (λ (e : String × String). not (contains_key e.0 after) ≡ false) map
    → All (λ (e : String × String). differs (lookup e.0 after) e.1 ≡ false) map
    → All (λ n. contains_key n map ≡ true) names
    → All (λ n. lookup n after ≡ lookup n map) names
each_same [] after map hs ds ns = tt
each_same (n ∷ names) after map hs ds (m, ns) =
    (same_constraint n after map hs ds m, each_same names after map hs ds ns)

-- Of declared parameters that are still there, each has the constraint that it had.
pub kept_constraints :
    (before after : ToolContract) (names : List String)
    → removed before after ≡ 0
    → any (tells_of_constraint before.name) (tool_changes before after) ≡ false
    → All (λ n. contains_key n before.parameters ≡ true) names
    → All (λ n. lookup n after.parameters ≡ lookup n before.parameters) names
unfolding removed changed
kept_constraints before after names r h ns =
    each_same names after.parameters before.parameters
      (count_if_zero (λ e. not (contains_key e.0 after.parameters)) before.parameters r)
      (count_if_zero (λ e. differs (lookup e.0 after.parameters) e.1) before.parameters
        (changed_zero before after h))
      ns
