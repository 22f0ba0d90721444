-- ===== src/Budget/Workers.antt =====
-- `acquire` run by concurrent workers on one shared budget, step by step. Every operation on the
-- atomics is relaxed, so a load may read an older count.
use mcp_eval.Prelude.{
  ℕ, zero, suc, ◌+◌, ◌≤◌, ◌<◌, ◌≡◌, refl, ◌∙◌, Bool, true, false, List, [], ◌∷◌, arith, count_if,
  Bool-cases, inl, inr, ◌⊎◌,
}
use mcp_eval.Budget.{State, new}

-- Where a worker is in `acquire`: before it, in the loop with the count that it read, or returned.
pub data Worker : Type 0 where
  idle : Worker
  looping : ℕ → Worker
  allowed refused : Worker

abbrev pub is_allowed : Worker → Bool
is_allowed allowed = true
is_allowed _ = false

pub record System : Type 0 where
  pub now : ℕ
  pub budget : State
  pub workers : List Worker

-- One step of one worker: what it does to the budget.
pub data Move (now : ℕ) (s : State) : Worker → State → Worker → Type 0 where
  enter : (count : ℕ) → now < s.deadline → count ≤ s.requests → Move now s idle s (looping count)
  too_late : s.deadline ≤ now → Move now s idle s refused
  was_denied : s.denied ≡ true → Move now s idle s refused
  full :
      {count : ℕ}
      → s.max_requests ≤ count
      → Move now s (looping count) (record s { denied = true }) refused
  exchanged :
      {count : ℕ}
      → count < s.max_requests
      → count ≡ s.requests
      → Move now s (looping count) (record s { requests = s.requests + 1 }) allowed
  lost :
      {count : ℕ} (current : ℕ)
      → count < s.max_requests
      → current ≤ s.requests
      → Move now s (looping count) s (looping current)

-- The workers before and after one of them moved.
pub data Turn (now : ℕ) (s t : State) : List Worker → List Worker → Type 0 where
  this : {w w' : Worker} {ws : List Worker} → Move now s w t w' → Turn now s t (w ∷ ws) (w' ∷ ws)
  other :
      {w : Worker} {ws ws' : List Worker} → Turn now s t ws ws' → Turn now s t (w ∷ ws) (w ∷ ws')

pub data Step : System → System → Type 0 where
  move :
      {now : ℕ} {s t : State} {ws ws' : List Worker}
      → Turn now s t ws ws'
      → Step
          (record { now = now; budget = s; workers = ws })
          (record { now = now; budget = t; workers = ws' })
  tick :
      {now : ℕ} {s : State} {ws : List Worker} (later : ℕ)
      → now ≤ later
      → Step
          (record { now = now; budget = s; workers = ws })
          (record { now = later; budget = s; workers = ws })

pub data Reach (s : System) : System → Type 0 where
  here : Reach s s
  next : {t u : System} → Reach s t → Step t u → Reach s u

-- Every loop count is one that the budget had.
abbrev IsOld : ℕ → Worker → Type 0
IsOld n (looping count) = count ≤ n
IsOld n _ = Unit

abbrev AllOld : ℕ → List Worker → Type 0
AllOld n [] = Unit
AllOld n (w ∷ ws) = IsOld n w × AllOld n ws

pub record Inv (y : System) : Type 0 where
  pub counted : count_if is_allowed y.workers ≡ y.budget.requests
  pub within : y.budget.requests ≤ y.budget.max_requests
  pub spent : y.budget.denied ≡ true → y.budget.requests ≡ y.budget.max_requests
  pub old : AllOld y.budget.requests y.workers

Turn-limit :
    {now : ℕ} {s t : State} {ws ws' : List Worker}
    → Turn now s t ws ws'
    → t.max_requests ≡ s.max_requests
Turn-limit (this (enter c a b)) = refl
Turn-limit (this (too_late h)) = refl
Turn-limit (this (was_denied h)) = refl
Turn-limit (this (full h)) = refl
Turn-limit (this (exchanged h e)) = refl
Turn-limit (this (lost c a b)) = refl
Turn-limit (other t) = Turn-limit t

Turn-count :
    {now : ℕ} {s t : State} {ws ws' : List Worker}
    → Turn now s t ws ws'
    → count_if is_allowed ws' + s.requests ≡ count_if is_allowed ws + t.requests
Turn-count (this (enter c a b)) = refl
Turn-count (this (too_late h)) = refl
Turn-count (this (was_denied h)) = refl
Turn-count (this (full h)) = refl
Turn-count (this (exchanged h e)) = omega arith
Turn-count (this (lost c a b)) = refl
Turn-count (other {w = w} t) = ground (arith, Turn-count t)

AllOld-mono : (m n : ℕ) (ws : List Worker) → m ≤ n → AllOld m ws → AllOld n ws
AllOld-mono m n [] h a = tt
AllOld-mono m n (idle ∷ ws) h a = (tt, AllOld-mono m n ws h a.1)
AllOld-mono m n (looping c ∷ ws) h a = (omega arith, AllOld-mono m n ws h a.1)
AllOld-mono m n (allowed ∷ ws) h a = (tt, AllOld-mono m n ws h a.1)
AllOld-mono m n (refused ∷ ws) h a = (tt, AllOld-mono m n ws h a.1)

Turn-grows :
    {now : ℕ} {s t : State} {ws ws' : List Worker} → Turn now s t ws ws' → s.requests ≤ t.requests
Turn-grows (this (enter c a b)) = omega arith
Turn-grows (this (too_late h)) = omega arith
Turn-grows (this (was_denied h)) = omega arith
Turn-grows (this (full h)) = omega arith
Turn-grows (this (exchanged h e)) = omega arith
Turn-grows (this (lost c a b)) = omega arith
Turn-grows (other t) = Turn-grows t

Turn-old :
    {now : ℕ} {s t : State} {ws ws' : List Worker}
    → Turn now s t ws ws'
    → AllOld s.requests ws
    → AllOld t.requests ws'
Turn-old (this (enter c a b)) o = (b, o.1)
Turn-old (this (too_late h)) o = (tt, o.1)
Turn-old (this (was_denied h)) o = (tt, o.1)
Turn-old (this (full h)) o = (tt, o.1)
Turn-old (this {ws = ws} (exchanged h e)) o = (tt, AllOld-mono _ _ ws (omega arith) o.1)
Turn-old (this (lost c a b)) o = (b, o.1)
Turn-old {s} {t} (other {w = looping c} m) o = (omega (arith, Turn-grows m, o.0), Turn-old m o.1)
Turn-old (other {w = idle} m) o = (tt, Turn-old m o.1)
Turn-old (other {w = allowed} m) o = (tt, Turn-old m o.1)
Turn-old (other {w = refused} m) o = (tt, Turn-old m o.1)

abbrev IsSpent : State → Type 0
IsSpent s = (s.requests ≤ s.max_requests) × (s.denied ≡ true → s.requests ≡ s.max_requests)

Turn-IsSpent :
    {now : ℕ} {s t : State} {ws ws' : List Worker}
    → Turn now s t ws ws'
    → AllOld s.requests ws
    → IsSpent s
    → IsSpent t
Turn-IsSpent (this (enter c a b)) o h = h
Turn-IsSpent (this (too_late x)) o h = h
Turn-IsSpent (this (was_denied x)) o h = h
Turn-IsSpent (this (full x)) o h = (h.0, λ d. omega (arith, x, o.0, h.0))
Turn-IsSpent {s} (this (exchanged x e)) o h = (omega arith, λ d. omega (arith, h.1 d))
Turn-IsSpent (this (lost c a b)) o h = h
Turn-IsSpent (other m) o h = Turn-IsSpent m o.1 h

-- Every step of the workers or of the clock keeps the invariant.
Step-Inv : {y z : System} → Step y z → Inv y → Inv z
Step-Inv (move m) v =
    let spent' = Turn-IsSpent m v.old (v.within, v.spent) in
    record {
      counted = omega (arith, Turn-count m, v.counted);
      within = spent'.0;
      spent = spent'.1;
      old = Turn-old m v.old;
    }
Step-Inv (tick later h) v = record {
  counted = v.counted;
  within = v.within;
  spent = v.spent;
  old = v.old;
}

Reach-Inv : {y z : System} → Reach y z → Inv y → Inv z
Reach-Inv here v = v
Reach-Inv (next r st) v = Step-Inv st (Reach-Inv r v)

abbrev pub all_idle : ℕ → List Worker
all_idle zero = []
all_idle (suc n) = idle ∷ all_idle n

count-all_idle : (n : ℕ) → count_if is_allowed (all_idle n) ≡ 0
count-all_idle zero = refl
count-all_idle (suc n) = count-all_idle n

old-all_idle : (n : ℕ) → AllOld 0 (all_idle n)
old-all_idle zero = tt
old-all_idle (suc n) = (tt, old-all_idle n)

abbrev pub start : ℕ → ℕ → ℕ → ℕ → System
start now duration limit n = record {
  now = now;
  budget = new now duration limit;
  workers = all_idle n;
}

start-Inv : (now duration limit n : ℕ) → Inv (start now duration limit n)
unfolding new
start-Inv now duration limit n = record {
  counted = count-all_idle n;
  within = omega arith;
  spent = λ d. cc;
  old = old-all_idle n;
}

Step-limit : {y z : System} → Step y z → z.budget.max_requests ≡ y.budget.max_requests
Step-limit (move m) = Turn-limit m
Step-limit (tick later h) = refl

Reach-limit : {y z : System} → Reach y z → z.budget.max_requests ≡ y.budget.max_requests
Reach-limit here = refl
Reach-limit (next r st) = Step-limit st ∙ Reach-limit r

-- However the workers of a new budget interleave, whichever exchanges fail and whichever older
-- counts their loads read: the workers that were allowed are as many as the budget counts, never
-- more than its limit, and exactly its limit once the budget has been marked as denied.
pub allowed_within_limit :
    (now duration limit n : ℕ) (y : System)
    → Reach (start now duration limit n) y
    → (count_if is_allowed y.workers ≡ y.budget.requests)
      × (count_if is_allowed y.workers ≤ limit)
      × ((y.budget.denied ≡ false) ⊎ (count_if is_allowed y.workers ≡ limit))
unfolding new
allowed_within_limit now duration limit n y r =
    let v = Reach-Inv r (start-Inv now duration limit n) in
    let e = Reach-limit r in
    (
      v.counted,
      omega (arith, v.counted, v.within, e),
      elim (Bool-cases y.budget.denied) [
        | inl d ↦ inr (omega (arith, v.counted, v.spent d, e))
        | inr d ↦ inl d
      ],
    )
