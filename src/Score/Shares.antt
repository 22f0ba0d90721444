-- ===== src/Score/Shares.antt =====
-- The areas that are a share of passed checks: protocol, error honesty and coverage.
use native.Mathlib.Nat.{div-lt_iff_lt-mul}
use mathlib.Core.List.{append-nil}
use mcp_eval.Prelude.{
  ℕ, ◌+◌, ◌*◌, ◌/◌, ◌^◌, ◌<◌, ◌≤◌, String, ◌≡◌, refl, ap, Option, some, none, List, [], ◌∷◌, arith,
  count_if, count_if-le-length, length, filter_map,
}
use mcp_eval.Score.CheckId.{CheckId}
use mcp_eval.Score.CheckReason.{CheckReason}
use mcp_eval.Score.Floats.{Floats, FloatLaws}
use mcp_eval.Score.Curve.{Check, lost, round_score}
use mcp_eval.Score.Areas.{share, protocol, protocol_loss, held}

share_bound : (p n : ℕ) → p ≤ n → 0 < n → (2 * (100 * p) + n) / (2 * n) ≤ 100
share_bound p n h pos =
    let lt : (2 * (100 * p) + n) / (2 * n) < 101 =
      (div-lt_iff_lt-mul {k = 2 * n} (omega arith)).1 (omega arith) in
    omega (arith, lt)

-- What is told of a check: nothing if it held, or else its reason.
abbrev pub not_held : CheckId × Option CheckReason → Option Check
not_held (id, none) = none
not_held (id, some reason) =
    some (record { id = id; tool = none; score = 0; observed = none; reason = reason })

module _ (f : Floats) (laws : FloatLaws f) where
  -- A share is the percentage, rounded half up in exact arithmetic.
  pub share-exact : (p n : ℕ) → p ≤ n → 0 < n → n < 2 ^ 40 → share f p n ≡ (200 * p + n) / (2 * n)
  unfolding share
  share-exact p n h pos small = rw (laws.mul-of_u64 100 p (omega arith)) (
      rw (laws.round-div (100 * p) n (omega arith) pos (omega arith), round_score)
        (rw
          (laws.clamp-of_u64 ((2 * (100 * p) + n) / (2 * n)) 100 (share_bound p n h pos)
            (omega arith))
          (rw
            (laws.as_u64-of_u64 ((2 * (100 * p) + n) / (2 * n))
              (omega (arith, share_bound p n h pos)))
            (ap (λ (t : ℕ). (t + n) / (2 * n)) (omega arith)))))

  lost-zero :
      (id : CheckId) (tool : Option String) (observed : Option ℕ) (reason : CheckReason)
      → lost f id tool (Floats.of_u64 f 0) observed reason
        ≡ some (record { id = id; tool = tool; score = 0; observed = observed; reason = reason })
  unfolding lost
  lost-zero id tool observed reason =
      rw (laws.round-of_u64 0 (omega arith), round_score)
        (rw (laws.clamp-of_u64 0 100 (omega arith) (omega arith))
          (rw (laws.as_u64-of_u64 0 (omega arith))))

  losses :
      (rs : List (CheckId × Option CheckReason))
      → filter_map (protocol_loss f) rs ≡ filter_map not_held rs
  losses [] = refl
  losses ((id, none) ∷ rs) = losses rs
  losses ((id, some reason) ∷ rs) = rw (lost-zero id none none reason) (rw (losses rs) refl)

  -- Where at least one protocol check was applicable, and fewer than 2^40 were, the protocol score is
  -- the percentage of checks that held, rounded half up. The list of losses names each check that did
  -- not hold with its reason and a score of 0, in order, and no other.
  pub protocol_exact :
      (r : CheckId × Option CheckReason) (rs : List (CheckId × Option CheckReason))
      → length (r ∷ rs) < 2 ^ 40
      → ((protocol f (r ∷ rs)).score
          ≡ (200 * count_if held (r ∷ rs) + length (r ∷ rs)) / (2 * length (r ∷ rs)))
        × ((protocol f (r ∷ rs)).checks ≡ filter_map not_held (r ∷ rs))
  unfolding protocol
  protocol_exact r rs small = (
    share-exact _ _ (count_if-le-length held (r ∷ rs)) (omega arith) small,
    rw append-nil (losses (r ∷ rs)),
  )
