-- ===== src/Budget.antt =====
-- src/evaluation_budget.rs: one evaluation's budget of requests and time. An `Instant` is a number.
pub mod Alone
pub mod Workers
mod Examples
use mcp_eval.Prelude.{
  ℕ, ◌+◌, ◌-◌, min, Bool, true, false, ◌||◌, leb, if◌then◌else◌, Result, ok, err, ◌>>=◌, ◌>>◌,
}

pub record State : Type 0 where
  pub deadline : ℕ
  pub requests : ℕ
  pub max_requests : ℕ
  pub denied : Bool

pub data Exhausted : Type 0 where
  exhausted : Exhausted

abbrev pub max_requests_default : ℕ
max_requests_default = 4096

-- `MAX_DURATION`, in seconds
abbrev pub max_duration : ℕ
max_duration = 300

unfoldable pub new : ℕ → ℕ → ℕ → State
new now duration max_requests = record {
  deadline = now + duration;
  requests = 0;
  max_requests = max_requests;
  denied = false;
}

unfoldable pub check : ℕ → State → Result Exhausted (Unit {0})
check now s = if leb s.deadline now || s.denied then err exhausted else ok tt

-- The loop of `acquire` when no other worker runs: a spurious failure of the exchange reads the same
-- count again.
unfoldable pub acquire : ℕ → State → Result Exhausted (Unit {0}) × State
acquire now s = elim (check now s) [
  | err e ↦ (err e, s)
  | ok _ ↦
      if leb s.max_requests s.requests
      then (err exhausted, record s { denied = true })
      else (ok tt, record s { requests = s.requests + 1 })
]

unfoldable pub timeout : ℕ → State → ℕ → Result Exhausted ℕ
timeout now s requested = check now s >> ok (min requested (s.deadline - now))

unfoldable pub deadline : ℕ → State → ℕ → Result Exhausted ℕ
deadline now s requested = check now s >> ok (min (now + requested) s.deadline)

unfoldable pub finish {ℓ} : {T : Type ℓ} → ℕ → State → Result Exhausted T → Result Exhausted T
finish now s result = check now s >> result
