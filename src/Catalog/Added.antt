-- ===== src/Catalog/Added.antt =====
-- The list of tools to which src/mcp_client.rs adds the tools of a page: names are not repeated, and
-- what holds of each tool.
use mcp_eval.Prelude.{
  ◌≡◌, refl, ◌∙◌, arith, Bool, true, false, List, [], ◌∷◌, ◌++◌, any, any-append, either_false,
  eq_refl, All, All-append, str_eq, eq_iff, Bool-cases, inl, inr, String,
}
use mcp_eval.Json.{Value, is_object}
use mcp_eval.Privacy.{valid_tool}
use mcp_eval.Standard.{ToolDefinition}
use mcp_eval.Catalog.{Listed, add_listed, add_tool}

abbrev pub named : String → ToolDefinition → Bool
named name tool = str_eq tool.name name

-- No two tools have one name.
abbrev pub IsDistinct : List ToolDefinition → Type 0
IsDistinct [] = Unit
IsDistinct (t ∷ ts) = (any (named t.name) ts ≡ false) × IsDistinct ts

-- A tool that may be asked for: its name can be stored, and its schema is an object.
pub record IsUsable (tool : ToolDefinition) : Type 0 where
  pub name : valid_tool tool.name ≡ true
  pub schema : is_object tool.input_schema ≡ true

abbrev pub IsCatalog : List ToolDefinition → Type 0
IsCatalog tools = IsDistinct tools × All IsUsable tools

str_eq_sym : (a b : String) → str_eq a b ≡ false → str_eq b a ≡ false
str_eq_sym a b h = ground (arith, eq_iff a b, eq_iff b a)

IsDistinct-end :
    (ts : List ToolDefinition) (t : ToolDefinition)
    → IsDistinct ts
    → any (named t.name) ts ≡ false
    → IsDistinct (ts ++ t ∷ [])
IsDistinct-end [] t d h = (refl, tt)
IsDistinct-end (x ∷ ts) t (n, d) h =
    let (far, none_left) = either_false (str_eq x.name t.name) (any (named t.name) ts) h in
    (
      any-append (named x.name) ts (t ∷ []) ∙ rw (n, str_eq_sym x.name t.name far) refl,
      IsDistinct-end ts t d none_left,
    )

add_tool-IsCatalog :
    (entry : Value) (tool : ToolDefinition) (l : Listed)
    → IsUsable tool
    → IsCatalog l.tools
    → IsCatalog (add_tool entry tool l).tools
unfolding add_tool
add_tool-IsCatalog entry tool l u (d, us) = elim (Bool-cases (any (named tool.name) l.tools)) [
  | inl h ↦ rw h (d, us)
  | inr h ↦
      rw h (IsDistinct-end l.tools tool d h, All-append IsUsable l.tools (tool ∷ []) us (u, tt))
]

pub add_listed-IsCatalog :
    (listed : List (Value × ToolDefinition)) (l : Listed)
    → All (λ e. IsUsable e.1) listed
    → IsCatalog l.tools
    → IsCatalog (add_listed listed l).tools
unfolding add_listed
add_listed-IsCatalog [] l us c = c
add_listed-IsCatalog ((entry, tool) ∷ rest) l (u, us) c =
    add_listed-IsCatalog rest (add_tool entry tool l) us (add_tool-IsCatalog entry tool l u c)

-- A tool of the name of each of the listed tools is there.
abbrev pub Covers : List ToolDefinition → List (Value × ToolDefinition) → Type 0
Covers tools = All (λ e. any (named e.1.name) tools ≡ true)

add_tool_keeps :
    (entry : Value) (tool : ToolDefinition) (name : String) (l : Listed)
    → any (named name) l.tools ≡ true
    → any (named name) (add_tool entry tool l).tools ≡ true
unfolding add_tool
add_tool_keeps entry tool name l h = elim (Bool-cases (any (named tool.name) l.tools)) [
  | inl e ↦ rw e h
  | inr e ↦ rw e (any-append (named name) l.tools (tool ∷ []) ∙ rw h refl)
]

add_tool_added :
    (entry : Value) (tool : ToolDefinition) (l : Listed)
    → any (named tool.name) (add_tool entry tool l).tools ≡ true
unfolding add_tool
add_tool_added entry tool l = elim (Bool-cases (any (named tool.name) l.tools)) [
  | inl e ↦ rw e e
  | inr e ↦ rw e (any-append (named tool.name) l.tools (tool ∷ []) ∙ rw (e, eq_refl tool.name) refl)
]

add_listed_keeps :
    (listed : List (Value × ToolDefinition)) (name : String) (l : Listed)
    → any (named name) l.tools ≡ true
    → any (named name) (add_listed listed l).tools ≡ true
unfolding add_listed
add_listed_keeps [] name l h = h
add_listed_keeps ((entry, tool) ∷ rest) name l h =
    add_listed_keeps rest name (add_tool entry tool l) (add_tool_keeps entry tool name l h)

pub all_named :
    (listed : List (Value × ToolDefinition)) (l : Listed)
    → Covers (add_listed listed l).tools listed
unfolding add_listed
all_named [] l = tt
all_named ((entry, tool) ∷ rest) l = (
  add_listed_keeps rest tool.name (add_tool entry tool l) (add_tool_added entry tool l),
  all_named rest (add_tool entry tool l),
)

pub add_listed-Covers :
    (listed seen : List (Value × ToolDefinition)) (l : Listed)
    → Covers l.tools seen
    → Covers (add_listed listed l).tools seen
add_listed-Covers listed [] l h = tt
add_listed-Covers listed ((entry, tool) ∷ seen) l (h, hs) =
    (add_listed_keeps listed tool.name l h, add_listed-Covers listed seen l hs)

-- What holds of the tools so far and of the added ones holds of all.
pub add_listed-All :
    (P : ToolDefinition → Type 0) (listed : List (Value × ToolDefinition)) (l : Listed)
    → All (λ e. P e.1) listed
    → All P l.tools
    → All P (add_listed listed l).tools
unfolding add_listed add_tool
add_listed-All P [] l ps h = h
add_listed-All P ((entry, tool) ∷ rest) l (p, ps) h =
    add_listed-All P rest (add_tool entry tool l) ps
      (elim (Bool-cases (any (named tool.name) l.tools)) [
        | inl e ↦ rw e h
        | inr e ↦ rw e (All-append P l.tools (tool ∷ []) h (p, tt))
      ])
