-- ===== src/Lifecycle/State.antt =====
-- `State`, `Status` and `transition` of src/lifecycle.rs.
use mcp_eval.Prelude.{
  ℕ, ◌+◌, ◌-◌, ◌^◌, min, String, Bool, true, false, not, ◌&&◌, Option, str_eq, leb, if◌then◌else◌,
  Result, ok, err,
}

pub data State : Type 0 where
  opened fix_claimed verifying closed : State

unfoldable pub as_str : State → String
as_str opened = "open"
as_str fix_claimed = "fix-claimed"
as_str verifying = "verifying"
as_str closed = "closed"

-- The messages of the `bail!` and `context` calls.
pub data Error : Type 0 where
  invalid_state invalid_identity unavailable conflict tool_mismatch invalid_probe : Error
  newer_schema missing_column missing_table : Error

unfoldable pub parse : String → Result Error State
parse value =
    if str_eq value "open"
    then ok opened
    else if str_eq value "fix-claimed"
    then ok fix_claimed
    else if str_eq value "verifying"
    then ok verifying
    else if str_eq value "closed"
    then ok closed
    else err invalid_state

pub record Status : Type 0 where
  pub state : State
  pub probe_id : Option String
  pub consecutive_passes : ℕ

-- `u64::MAX` and `i64::MAX`
abbrev pub u64_max : ℕ
u64_max = 2 ^ 64 - 1

abbrev pub i64_max : ℕ
i64_max = 2 ^ 63 - 1

abbrev is_fix_claimed : State → Bool
is_fix_claimed fix_claimed = true
is_fix_claimed _ = false

abbrev is_verifying_or_closed : State → Bool
is_verifying_or_closed verifying = true
is_verifying_or_closed closed = true
is_verifying_or_closed _ = false

unfoldable pub transition : State → Bool → ℕ → Bool → State × ℕ
transition state same_probe consecutive passed =
    if not passed
    then (if same_probe && is_fix_claimed state
        then (fix_claimed, 0)
        else if is_verifying_or_closed state
        then (opened, 0)
        else (fix_claimed, 0))
    else (let count = if same_probe then min (min (consecutive + 1) u64_max) i64_max else 1 in
        if leb 3 count then (closed, count) else (verifying, count))
