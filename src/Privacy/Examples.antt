-- ===== src/Privacy/Examples.antt =====
-- Concrete labels.
use mcp_eval.Prelude.{◌≡◌, refl, true, false, not, ◌&&◌, is_empty, bytes, byte_length, leb}
use mcp_eval.Privacy.{valid_identifier, valid_tool, valid_method, valid_server}
use mcp_eval.Privacy.Labels.{
  method_bytes, valid_identifier-valid_tool, valid_method-eq-method_bytes,
}

valid_identifier-valid_tool_test : valid_tool "tool-error" ≡ true
unfolding valid_identifier
valid_identifier-valid_tool_test = valid_identifier-valid_tool "tool-error" refl

valid_method-eq-method_bytes_test : valid_method "tools/call" ≡ (
    not (is_empty (bytes "tools/call"))
    && leb (byte_length "tools/call") 128
    && method_bytes false (bytes "tools/call"))
valid_method-eq-method_bytes_test = valid_method-eq-method_bytes "tools/call"

methods_test :
    (valid_method "tools/call" ≡ true)
    × (valid_method "/tools" ≡ false)
    × (valid_method "tools//call" ≡ false)
    × (valid_server "tools/call" ≡ false)
unfolding valid_method valid_server
methods_test = (refl, refl, refl, refl)
