-- ===== src/Correlate/Examples.antt =====
-- A call of a tool, and its reply, which comes twice.
use mcp_eval.Prelude.{ℕ, ◌≡◌, refl, String, Bool, true, false, Option, none, List, [], ◌∷◌}
use mcp_eval.Json.{Value, object, string, to_fields}
use mcp_eval.Shape.{Recognizers}
use mcp_eval.Correlate.{Correlator, id_key, on_outbound, on_inbound}
use mcp_eval.Correlate.Replies.{on_inbound_once}

abbrev nothing_known : Recognizers
nothing_known = record {
  is_uuid = λ s. false;
  parse_url = λ s. none;
  analyze = λ s. none;
  print_number = λ n. "0";
}

abbrev fresh : Correlator
fresh = record { seq = 4; enums = record { by_tool = [] }; declared_tools = []; pending = [] }

abbrev call : Value
call = object (
    to_fields (
      ("id", string "1")
      ∷ ("method", string "tools/call")
      ∷ ("params", object (to_fields (("name", string "read") ∷ [])))
      ∷ []))

abbrev reply : Value
reply = object (to_fields (("id", string "1") ∷ ("result", object (to_fields [])) ∷ []))

call_test : id_key nothing_known call ≡ id_key nothing_known reply
unfolding id_key
call_test = refl

abbrev waiting : Correlator
waiting = on_outbound nothing_known call 100 0 0 "" fresh

on_inbound_once_example :
    on_inbound nothing_known reply 150 "" (on_inbound nothing_known reply 130 "" waiting).1
    ≡ (none, (on_inbound nothing_known reply 130 "" waiting).1)
unfolding id_key
on_inbound_once_example =
    on_inbound_once nothing_known reply (mcp_eval.Prelude.append "s:" "1") "" 130 150 waiting refl
