-- ===== src/Budget/Alone.antt =====
-- The budget used by one worker.
use mcp_eval.Prelude.{
  ℕ, suc, ◌+◌, ◌-◌, ◌≤◌, ◌<◌, min, ◌≡◌, ◌∙◌, true, ◌||◌, List, [], ◌∷◌, arith, if◌then◌else◌,
  length, Bool-cases, inl, inr, Result, ok, err, ltb,
}
use mcp_eval.Budget.{State, Exhausted, exhausted, check, acquire, timeout, deadline, new}

abbrev tally : (State → ℕ × State) → Result Exhausted (Unit {0}) × State → ℕ × State
tally more (ok _, s) = (suc (more s).0, (more s).1)
tally more (err _, s) = more s

-- Calls of `acquire` at the given times, and how many of them were allowed.
pub acquire_all : List ℕ → State → ℕ × State
acquire_all [] s = (0, s)
acquire_all (now ∷ later) s = tally (acquire_all later) (acquire now s)

abbrev pub Before : ℕ → List ℕ → Type 0
Before t [] = Unit
Before t (x ∷ xs) = (x < t) × Before t xs

-- A budget that has refused is used up.
abbrev IsSpent : State → Type 0
IsSpent s = (s.requests ≤ s.max_requests) × (s.denied ≡ true → s.requests ≡ s.max_requests)

-- One call before the deadline.
acquire_step :
    (now : ℕ) (s : State)
    → now < s.deadline
    → IsSpent s
    → acquire now s ≡ (
        if ltb s.requests s.max_requests
        then (ok tt, record s { requests = s.requests + 1 })
        else (err exhausted, record s { denied = true }))
unfolding acquire check
acquire_step now s b h = ground (arith, h.1)

acquire_all-allowed :
    (now : ℕ) (later : List ℕ) (s t : State)
    → acquire now s ≡ (ok tt, t)
    → acquire_all (now ∷ later) s ≡ (suc (acquire_all later t).0, (acquire_all later t).1)
unfolding acquire_all
acquire_all-allowed now later s t h = rw h

acquire_all-refused :
    (now : ℕ) (later : List ℕ) (s t : State)
    → acquire now s ≡ (err exhausted, t)
    → acquire_all (now ∷ later) s ≡ acquire_all later t
unfolding acquire_all
acquire_all-refused now later s t h = rw h

acquired :
    (times : List ℕ) (s : State)
    → Before s.deadline times
    → IsSpent s
    → ((acquire_all times s).0 ≡ min (length times) (s.max_requests - s.requests))
      × ((acquire_all times s).1.requests
          ≡ s.requests + min (length times) (s.max_requests - s.requests))
      × ((acquire_all times s).1.denied
          ≡ (s.denied || ltb (s.max_requests - s.requests) (length times)))
acquired [] s b h = unfold acquire_all in ground (arith, h.1)
acquired (now ∷ later) s b h = elim (Bool-cases (ltb s.requests s.max_requests)) [
  | inl e ↦
      let t : State = record s { requests = s.requests + 1 } in
      let one = acquire_step now s b.0 h in
      rw (acquire_all-allowed now later s t (one ∙ rw e))
        (ground (arith, h.1, acquired later t b.1 (ground arith, λ d. ground (arith, h.1))))
  | inr e ↦
      let t : State = record s { denied = true } in
      let one = acquire_step now s b.0 h in
      rw (acquire_all-refused now later s t (one ∙ rw e))
        (ground (arith, h.1, acquired later t b.1 (h.0, λ d. ground arith)))
]

-- Before the deadline, a new budget allows exactly as many of any number of calls as its limit,
-- counts them, and is marked as denied exactly when there were more calls than the limit.
pub acquire_all-new :
    (now duration limit : ℕ) (times : List ℕ)
    → Before (now + duration) times
    → ((acquire_all times (new now duration limit)).0 ≡ min (length times) limit)
      × ((acquire_all times (new now duration limit)).1.requests ≡ min (length times) limit)
      × ((acquire_all times (new now duration limit)).1.denied ≡ ltb limit (length times))
unfolding new
acquire_all-new now duration limit times b =
    let a = acquired times (new now duration limit) b (omega arith, λ d. cc) in
    (omega (arith, a.0), omega (arith, a.1), ground (arith, a.2))

-- Where a timeout and a deadline are given out for one request, they name the same instant, which
-- lies neither past the budget's deadline nor past what was requested.
pub timeout-deadline :
    (now requested : ℕ) (s : State) (d e : ℕ)
    → timeout now s requested ≡ ok d
    → deadline now s requested ≡ ok e
    → (now + d ≡ e) × (e ≤ s.deadline) × (d ≤ requested)
unfolding timeout deadline check
timeout-deadline now requested s d e h k = ground arith
