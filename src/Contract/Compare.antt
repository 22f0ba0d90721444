-- ===== src/Contract/Compare.antt =====
-- `compare` of src/catalog_contract.rs.
use mcp_eval.Prelude.{
  ℕ, String, Bool, false, not, ◌&&◌, ◌||◌, Option, none, some, List, [], ◌∷◌, ◌++◌, any, find,
  count_if, is_some, ltb, ◌==◌, bytes, str_eq, if◌then◌else◌,
}
use mcp_eval.Json.{lookup, less}
use mcp_eval.Standard.{ToolClass}
use mcp_eval.Contract.Changes.{
  ToolContract, CatalogContract, Severity, breaking, review, compatible, ChangeKind, tool_removed,
  tool_added, parameter_required, parameter_optional, parameter_removed, parameter_added,
  parameter_changed, class_changed, output_schema_removed, output_schema_added,
  output_schema_changed, severity, Change, same_class,
}

-- `contains` and `contains_key`
abbrev pub contains : String → List String → Bool
contains name set = any (λ s. str_eq s name) set

abbrev pub contains_key : String → List (String × String) → Bool
contains_key name map = is_some (lookup name map)

-- The closure `push`
unfoldable pub push : String → ChangeKind → ℕ → List Change
push tool kind count =
    if ltb 0 count then record { tool = tool; kind = kind; count = count } ∷ [] else []

abbrev pub differs : Option String → String → Bool
differs none constraint = false
differs (some now) constraint = not (str_eq now constraint)

unfoldable pub newly_required : ToolContract → ToolContract → ℕ
newly_required before after = count_if (λ p. not (contains p before.required)) after.required

unfoldable pub newly_optional : ToolContract → ToolContract → ℕ
newly_optional before after =
    count_if (λ p. not (contains p after.required) && contains_key p after.parameters)
      before.required

unfoldable pub removed : ToolContract → ToolContract → ℕ
removed before after = count_if (λ p. not (contains_key p.0 after.parameters)) before.parameters

unfoldable pub added : ToolContract → ToolContract → ℕ
added before after =
    count_if (λ p. not (contains_key p.0 before.parameters) && not (contains p.0 after.required))
      after.parameters

unfoldable pub changed : ToolContract → ToolContract → ℕ
changed before after = count_if (λ p. differs (lookup p.0 after.parameters) p.1) before.parameters

unfoldable pub output_changes : String → Option String → Option String → List Change
unfolding push
output_changes name (some a) none = push name output_schema_removed 1
output_changes name none (some b) = push name output_schema_added 1
output_changes name (some a) (some b) =
    if not (str_eq a b) then push name output_schema_changed 1 else []
output_changes name none none = []

unfoldable pub class_changes : String → ToolClass → ToolClass → List Change
unfolding push
class_changes name from to =
    if not (same_class from to) then push name (class_changed from to) 1 else []

-- One round of the loop over the baseline's tools, for a tool that is still there.
unfoldable pub tool_changes : ToolContract → ToolContract → List Change
unfolding push newly_required newly_optional removed added changed class_changes output_changes
tool_changes before after =
    class_changes before.name before.class after.class
    ++ (push before.name parameter_required (newly_required before after)
        ++ (push before.name parameter_optional (newly_optional before after)
            ++ (push before.name parameter_removed (removed before after)
                ++ (push before.name parameter_added (added before after)
                    ++ (push before.name parameter_changed (changed before after)
                        ++ output_changes before.name before.output_schema after.output_schema)))))

abbrev pub tool_named : String → ToolContract → Bool
tool_named name tool = str_eq tool.name name

abbrev pub round_of : ToolContract → Option ToolContract → List Change
round_of before none = push before.name tool_removed 1
round_of before (some after) = tool_changes before after

unfoldable pub baseline_changes : List ToolContract → CatalogContract → List Change
unfolding tool_changes push
baseline_changes [] current = []
baseline_changes (before ∷ rest) current =
    round_of before (find (tool_named before.name) current.tools) ++ baseline_changes rest current

unfoldable pub added_tools : CatalogContract → List ToolContract → List Change
unfolding push
added_tools baseline [] = []
added_tools baseline (after ∷ rest) =
    (if not (any (tool_named after.name) baseline.tools) then push after.name tool_added 1 else [])
    ++ added_tools baseline rest

-- The derived order of `Severity`
abbrev pub rank : Severity → ℕ
rank breaking = 0
rank review = 1
rank compatible = 2

-- The comparison is `Less`.
abbrev pub before_change : Change → Change → Bool
before_change a b =
    ltb (rank (severity a.kind)) (rank (severity b.kind))
    || (rank (severity a.kind) == rank (severity b.kind)) && less (bytes a.tool) (bytes b.tool)

-- A stable sort: an element goes before the first that is not less than it.
unfoldable pub insert_change : Change → List Change → List Change
insert_change x [] = x ∷ []
insert_change x (y ∷ ys) =
    let more = insert_change x ys in if before_change y x then y ∷ more else x ∷ y ∷ ys

unfoldable pub sort_changes : List Change → List Change
unfolding insert_change
sort_changes [] = []
sort_changes (x ∷ xs) = insert_change x (sort_changes xs)

unfoldable pub compare : CatalogContract → CatalogContract → List Change
unfolding baseline_changes added_tools sort_changes
compare baseline current =
    sort_changes (baseline_changes baseline.tools current ++ added_tools baseline current.tools)
