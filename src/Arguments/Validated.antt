-- ===== src/Arguments/Validated.antt =====
-- Which supplied arguments src/tool_arguments.rs lets through.
use mcp_eval.Prelude.{
  ◌≡◌, refl, ◌↔◌, String, Bool, true, false, some, List, [], ◌∷◌, All, find, str_eq, ok, ensure,
  context, context-ok, >>=-ok,
}
use mcp_eval.Json.{Value}
use mcp_eval.Standard.{ToolDefinition, ToolClass, writer, read_only, unannotated, class_of}
use mcp_eval.Catalog.{ToolCatalog}
use mcp_eval.Arguments.Supplied.{
  BadArguments, ToolArguments, tool_not_listed, schema_violated, class_allowed, check_named,
  check_all, validate,
}

-- A tool that may be called: never a writer, and without a deciding annotation only if the caller
-- attested that it is read-only.
abbrev pub IsCallable : Bool → ToolClass → Type 0
IsCallable confirm writer = ⊥
IsCallable confirm unannotated = confirm ≡ true
IsCallable confirm read_only = Unit

module _ (conforms : Value → Value → Bool) where
  -- The server lists the tool, it may be called, and the arguments satisfy its schema.
  pub record IsAllowed (tools : List ToolDefinition) (confirm : Bool) (named : String × Value)
      : Type 0 where
    pub tool : ToolDefinition
    pub listed : find (λ tool. str_eq tool.name named.0) tools ≡ some tool
    pub class : IsCallable confirm (class_of tool)
    pub schema : conforms tool.input_schema named.1 ≡ true

  class_allowed-IsCallable :
      (confirm : Bool) (name : String) (class : ToolClass)
      → class_allowed confirm name class ≡ ok tt
      → IsCallable confirm class
  class_allowed-IsCallable confirm name writer h = cc
  class_allowed-IsCallable confirm name read_only h = tt
  class_allowed-IsCallable true name unannotated h = refl
  class_allowed-IsCallable false name unannotated h = cc

  IsCallable-class_allowed :
      (confirm : Bool) (name : String) (class : ToolClass)
      → IsCallable confirm class
      → class_allowed confirm name class ≡ ok tt
  IsCallable-class_allowed confirm name writer h = absurd h
  IsCallable-class_allowed confirm name read_only h = refl
  IsCallable-class_allowed confirm name unannotated h = rw h refl

  ensured : (b : Bool) (e : BadArguments) → ensure b e ≡ ok tt → b ≡ true
  ensured true e h = refl
  ensured false e h = cc

  check_named-IsAllowed :
      (tools : List ToolDefinition) (confirm : Bool) (name : String) (arguments : Value)
      → check_named conforms tools confirm (name, arguments) ≡ ok tt
      → IsAllowed tools confirm (name, arguments)
  unfolding check_named
  check_named-IsAllowed tools confirm name arguments h =
      let (tool, t, h1) =
        >>=-ok (context (tool_not_listed name) (find (λ tool. str_eq tool.name name) tools)) _ h in
      let (_, c, h2) = >>=-ok (class_allowed confirm name (class_of tool)) _ h1 in
      record {
        tool = tool;
        listed = context-ok (tool_not_listed name) _ t;
        class = class_allowed-IsCallable confirm name (class_of tool) c;
        schema = ensured (conforms tool.input_schema arguments) (schema_violated name) h2;
      }

  IsAllowed-check_named :
      (tools : List ToolDefinition) (confirm : Bool) (named : String × Value)
      → IsAllowed tools confirm named
      → check_named conforms tools confirm named ≡ ok tt
  unfolding check_named
  IsAllowed-check_named tools confirm (name, arguments) a =
      rw (a.listed, IsCallable-class_allowed confirm name (class_of a.tool) a.class, a.schema) refl

  check_all_iff :
      (tools : List ToolDefinition) (confirm : Bool) (es : List (String × Value))
      → (check_all conforms tools confirm es ≡ ok tt) ↔ All (IsAllowed tools confirm) es
  check_all_iff tools confirm [] = (λ h. tt, λ h. refl)
  check_all_iff tools confirm ((name, arguments) ∷ es) = (
    λ h.
        let (u, h1, h2) = >>=-ok (check_named conforms tools confirm (name, arguments)) _ h in
        (
          check_named-IsAllowed tools confirm name arguments h1,
          (check_all_iff tools confirm es).0 h2,
        ),
    λ h.
        rw (IsAllowed-check_named tools confirm (name, arguments) h.0)
          ((check_all_iff tools confirm es).1 h.1),
  )

  -- Supplied arguments pass exactly if every tool they name is listed by the server, may be called,
  -- and is given arguments that its input schema admits.
  pub validate-IsAllowed :
      (arguments : ToolArguments) (catalog : ToolCatalog) (confirm : Bool)
      → (validate conforms arguments catalog confirm ≡ ok tt)
        ↔ All (IsAllowed catalog.tools confirm) arguments.by_tool
  unfolding validate
  validate-IsAllowed arguments catalog confirm =
      check_all_iff catalog.tools confirm arguments.by_tool
