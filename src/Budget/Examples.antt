-- ===== src/Budget/Examples.antt =====
-- Concrete budgets.
use mcp_eval.Prelude.{◌+◌, ◌≤◌, ◌≡◌, refl, ◌⊎◌, false, [], ◌∷◌, arith, count_if, ltb}
use mcp_eval.Budget.{new, timeout, deadline, check}
use mcp_eval.Budget.Alone.{acquire_all, acquire_all-new, timeout-deadline}
use mcp_eval.Budget.Workers.{
  System, Reach, here, next, move, this, other, enter, exchanged, is_allowed, allowed, looping,
  start, allowed_within_limit,
}

acquire_all-new_test :
    ((acquire_all (1 ∷ 2 ∷ 3 ∷ []) (new 0 10 2)).0 ≡ 2)
    × ((acquire_all (1 ∷ 2 ∷ 3 ∷ []) (new 0 10 2)).1.requests ≡ 2)
    × ((acquire_all (1 ∷ 2 ∷ 3 ∷ []) (new 0 10 2)).1.denied ≡ ltb 2 3)
acquire_all-new_test = acquire_all-new 0 10 2 (1 ∷ 2 ∷ 3 ∷ []) (omega arith)

timeout-deadline_test : (3 + 5 ≡ 8) × (8 ≤ (new 0 10 2).deadline) × (5 ≤ 5)
unfolding timeout deadline check new
timeout-deadline_test = timeout-deadline 3 5 (new 0 10 2) 5 8 refl refl

-- Two workers read the count 0 of a budget of one request; the first gets it.
abbrev raced : System
raced = record {
  now = 0;
  budget = record (new 0 10 1) { requests = 1 };
  workers = allowed ∷ looping 0 ∷ [];
}

race : Reach (start 0 10 1 2) raced
unfolding new
race =
    next
      (next (next here (move (this (enter 0 (omega arith) (omega arith)))))
        (move (other (this (enter 0 (omega arith) (omega arith))))))
      (move (this (exchanged (omega arith) refl)))

allowed_within_limit_example :
    (count_if is_allowed raced.workers ≡ raced.budget.requests)
    × (count_if is_allowed raced.workers ≤ 1)
    × ((raced.budget.denied ≡ false) ⊎ (count_if is_allowed raced.workers ≡ 1))
allowed_within_limit_example = allowed_within_limit 0 10 1 2 raced race
