-- ===== src/Contract/Changes.antt =====
-- The contracts and their changes: the data of src/catalog_contract.rs.
use mcp_eval.Prelude.{ℕ, String, Bool, true, false, Option, List, [], ◌∷◌, str_eq, find}
use mcp_eval.Standard.{ToolClass, writer, read_only, unannotated}

-- `required` is a set and `parameters` a map: by key, no key twice.
pub record ToolContract : Type 0 where
  pub name : String
  pub class : ToolClass
  pub required : List String
  pub parameters : List (String × String)
  pub output_schema : Option String

pub record CatalogContract : Type 0 where
  pub tools : List ToolContract

pub data Severity : Type 0 where
  breaking review compatible : Severity

unfoldable pub severity_label : Severity → String
severity_label breaking = "breaking"
severity_label review = "review"
severity_label compatible = "compatible"

pub data ChangeKind : Type 0 where
  tool_removed tool_added : ChangeKind
  parameter_required parameter_optional : ChangeKind
  parameter_removed parameter_added parameter_changed : ChangeKind
  class_changed : (from to : ToolClass) → ChangeKind
  output_schema_removed output_schema_added output_schema_changed : ChangeKind

unfoldable pub change_label : ChangeKind → String
change_label tool_removed = "tool-removed"
change_label tool_added = "tool-added"
change_label parameter_required = "parameter-required"
change_label parameter_optional = "parameter-optional"
change_label parameter_removed = "parameter-removed"
change_label parameter_added = "parameter-added"
change_label parameter_changed = "parameter-changed"
change_label (class_changed from to) = "class-changed"
change_label output_schema_removed = "output-schema-removed"
change_label output_schema_added = "output-schema-added"
change_label output_schema_changed = "output-schema-changed"

abbrev pub class_severity : ToolClass → ToolClass → Severity
class_severity from writer = breaking
class_severity read_only unannotated = breaking
class_severity _ _ = compatible

unfoldable pub severity : ChangeKind → Severity
severity tool_removed = breaking
severity parameter_required = breaking
severity parameter_removed = breaking
severity output_schema_removed = breaking
severity (class_changed from to) = class_severity from to
severity parameter_changed = review
severity output_schema_changed = review
severity tool_added = compatible
severity parameter_optional = compatible
severity parameter_added = compatible
severity output_schema_added = compatible

pub record Change : Type 0 where
  pub tool : String
  pub kind : ChangeKind
  pub count : ℕ

unfoldable pub class_label : ToolClass → String
class_label read_only = "read-only"
class_label writer = "writer"
class_label unannotated = "unannotated"

unfoldable pub class_from_label : String → Option ToolClass
unfolding class_label
class_from_label label =
    find (λ c. str_eq (class_label c) label) (read_only ∷ writer ∷ unannotated ∷ [])

-- The derived `==` of `ToolClass`
abbrev pub same_class : ToolClass → ToolClass → Bool
same_class read_only read_only = true
same_class writer writer = true
same_class unannotated unannotated = true
same_class _ _ = false
