-- ===== src/Lifecycle/Streak.antt =====
-- What `transition` computes over a whole history of verification runs.
use mcp_eval.Prelude.{
  ℕ, ◌+◌, ◌≤◌, ◌<◌, min, ◌≡◌, ◌↔◌, Bool, true, false, ◌&&◌, List, [], ◌∷◌, arith, if◌then◌else◌,
  ◌⊎◌,
}
use mcp_eval.Lifecycle.State.{State, opened, fix_claimed, verifying, closed, i64_max, transition}

-- A lifecycle position that `transition` keeps: the count says which state it can be.
pub record IsConsistent (p : State × ℕ) : Type 0 where
  pub within : p.1 ≤ i64_max
  pub closed_at : p.0 ≡ closed → 3 ≤ p.1
  pub verifying_at : p.0 ≡ verifying → (1 ≤ p.1) × (p.1 < 3)
  pub opened_at : p.0 ≡ opened → p.1 ≡ 0
  pub claimed_at : p.0 ≡ fix_claimed → p.1 ≡ 0

-- From every state and count, a step ends consistent
pub transition-IsConsistent :
    (s : State) (same : Bool) (c : ℕ) (passed : Bool) → IsConsistent (transition s same c passed)
unfolding transition
transition-IsConsistent opened same c passed = ground arith
transition-IsConsistent _ same c passed = ground arith

-- One verification run: whether it used the probe and definition on record, and whether it passed.
pub record Run : Type 0 where
  pub same_probe : Bool
  pub passed : Bool

-- The runs of a finding, the latest first, from the state that promotion gives it.
pub after : List Run → State × ℕ
after [] = (opened, 0)
after (r ∷ earlier) = let (s, c) = after earlier in transition s r.same_probe c r.passed

-- Independent of the state: how many of the latest runs passed on one probe.
pub streak : List Run → ℕ
streak [] = 0
streak (r ∷ earlier) =
    let before = streak earlier in if r.passed then (if r.same_probe then before + 1 else 1) else 0

count-transition :
    (s : State) (same : Bool) (c n : ℕ) (passed : Bool)
    → c ≡ min n i64_max
    → (transition s same c passed).1
      ≡ min (if passed then (if same then n + 1 else 1) else 0) i64_max
unfolding transition
count-transition opened same c n passed h = ground arith
count-transition _ same c n passed h = ground arith

pub after-count : (runs : List Run) → (after runs).1 ≡ min (streak runs) i64_max
unfolding after streak
after-count [] = omega arith
after-count (r ∷ earlier) =
    count-transition (after earlier).0 r.same_probe (after earlier).1 (streak earlier) r.passed
      (after-count earlier)

closed-transition :
    (s : State) (same : Bool) (c : ℕ) (passed : Bool)
    → ((transition s same c passed).0 ≡ closed) ↔ (3 ≤ (transition s same c passed).1)
unfolding transition
closed-transition opened same c passed = ground arith
closed-transition _ same c passed = ground arith

after-closed : (runs : List Run) → ((after runs).0 ≡ closed) ↔ (3 ≤ streak runs)
after-closed [] = unfold after streak in ground arith
after-closed (r ∷ earlier) =
    let e = after-count (r ∷ earlier) in
    unfold after in
    ground (arith, e, closed-transition (after earlier).0 r.same_probe (after earlier).1 r.passed)

-- The last three runs passed, the later two on the probe and definition of the run before.
pub three_greens : List Run → Bool
three_greens (a ∷ b ∷ c ∷ earlier) =
    a.passed && a.same_probe && b.passed && b.same_probe && c.passed
three_greens _ = false

streak-three_greens : (runs : List Run) → (3 ≤ streak runs) ↔ (three_greens runs ≡ true)
unfolding streak three_greens
streak-three_greens [] = ground arith
streak-three_greens (a ∷ []) = ground arith
streak-three_greens (a ∷ b ∷ []) = ground arith
streak-three_greens (a ∷ b ∷ c ∷ earlier) = ground arith

-- After any history of verification runs of a promoted finding, the finding is closed exactly when
-- the last three runs passed, the later two of them with the probe and definition of the run before.
pub closed-iff-three_greens :
    (runs : List Run) → ((after runs).0 ≡ closed) ↔ (three_greens runs ≡ true)
closed-iff-three_greens runs =
    let a = after-closed runs in
    let b = streak-three_greens runs in ((λ h. b.0 (a.0 h)), (λ h. a.1 (b.1 h)))

-- Where a failing run leaves a finding.
pub after_failure : State → State
after_failure opened = fix_claimed
after_failure fix_claimed = fix_claimed
after_failure verifying = opened
after_failure closed = opened

-- A failing run resets the count, reopens a finding that was closed or verifying, and leaves any
-- other with its fix claimed; a passing run leaves a finding verifying or closed, with a count of at
-- least 1.
pub transition-verdict :
    (s : State) (same : Bool) (c : ℕ)
    → (transition s same c false ≡ (after_failure s, 0))
      × (((transition s same c true).0 ≡ verifying) ⊎ ((transition s same c true).0 ≡ closed))
      × (1 ≤ (transition s same c true).1)
unfolding transition after_failure
transition-verdict opened same c = ground arith
transition-verdict fix_claimed same c = ground arith
transition-verdict verifying same c = ground arith
transition-verdict closed same c = ground arith
