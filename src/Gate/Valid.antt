-- ===== src/Gate/Valid.antt =====
-- Which floors `Floors::validate` of src/readiness_gate.rs accepts.
use mcp_eval.Prelude.{
  ℕ, ◌≡◌, ◌≢◌, ◌↔◌, refl, true, false, List, [], ◌∷◌, ◌++◌, any, All, ok, Bool-cases, inl, inr,
  ◌&&◌,
}
use mcp_eval.Score.Area.{Area}
use mcp_eval.Gate.{Floors, same_area, no_floors, no_repeats, validate}

same_area_self : (a : Area) → same_area a a ≡ true
same_area_self Area.protocol = refl
same_area_self _ = refl

same_area_sound : (a b : Area) → same_area a b ≡ true → a ≡ b
same_area_sound Area.protocol Area.protocol h = refl
same_area_sound Area.catalog Area.catalog h = refl
same_area_sound Area.context Area.context h = refl
same_area_sound Area.error_honesty Area.error_honesty h = refl
same_area_sound Area.reliability Area.reliability h = refl
same_area_sound Area.coverage Area.coverage h = refl
same_area_sound _ _ h = cc

differ : (a b : Area) → (same_area a b ≡ false) ↔ (a ≢ b)
differ a b = (
  λ h e. cc (same_area_self a, h, e),
  λ n. elim (Bool-cases (same_area a b)) [ inl s ↦ absurd (n (same_area_sound a b s)) | inr s ↦ s ],
)

-- No area stands in the list twice.
abbrev pub IsDistinct : List (Area × ℕ) → Type 0
IsDistinct [] = Unit
IsDistinct (x ∷ rest) = All (λ y. x.0 ≢ y.0) rest × IsDistinct rest

abbrev Unseen : List (Area × ℕ) → Area × ℕ → Type 0
Unseen seen y = any (λ s. same_area s.0 y.0) seen ≡ false

Unseen-append :
    (seen : List (Area × ℕ)) (x y : Area × ℕ)
    → Unseen (seen ++ x ∷ []) y ↔ (Unseen seen y × (x.0 ≢ y.0))
Unseen-append [] x y = elim (Bool-cases (same_area x.0 y.0)) [
  | inl t ↦ rw t (λ h. cc, λ (_, n). absurd (n (same_area_sound x.0 y.0 t)))
  | inr t ↦ rw t (λ _. (refl, (differ x.0 y.0).0 t), λ _. refl)
]
Unseen-append (s ∷ seen) x y = elim (Bool-cases (same_area s.0 y.0)) [
  | inl t ↦ rw t (λ h. cc, λ (h, n). cc)
  | inr t ↦ rw t (Unseen-append seen x y)
]

All-split :
    {P Q R : Area × ℕ → Type 0} (split : (y : Area × ℕ) → P y ↔ (Q y × R y)) (ys : List (Area × ℕ))
    → All P ys ↔ (All Q ys × All R ys)
All-split split [] = (λ _. (tt, tt), λ _. tt)
All-split split (y ∷ ys) =
    let more = All-split split ys in
    (
      λ (p, ps). ((((split y).0 p).0, (more.0 ps).0), (((split y).0 p).1, (more.0 ps).1)),
      λ ((q, qs), (r, rs)). ((split y).1 (q, r), more.1 (qs, rs)),
    )

no_repeats_iff :
    (seen rest : List (Area × ℕ))
    → (no_repeats seen rest ≡ ok tt) ↔ (All (Unseen seen) rest × IsDistinct rest)
unfolding no_repeats
no_repeats_iff seen [] = (λ _. (tt, tt), λ _. refl)
no_repeats_iff seen (x ∷ rest) =
    let more = no_repeats_iff (seen ++ x ∷ []) rest in
    let split = All-split (Unseen-append seen x) rest in
    elim (Bool-cases (any (λ s. same_area s.0 x.0) seen)) [
      | inl t ↦ rw t (λ h. cc, λ h. cc)
      | inr t ↦ rw t (
        λ h. let (u, d) = more.0 h in let (v, w) = split.0 u in ((refl, v), (w, d)),
        λ ((_, v), (w, d)). more.1 (split.1 (v, w), d),
      )
    ]

nothing_seen : (ys : List (Area × ℕ)) → All (Unseen []) ys
nothing_seen [] = tt
nothing_seen (y ∷ ys) = (refl, nothing_seen ys)

-- `validate` accepts exactly the floors that name no area twice and that, where they exclude
-- latency, set a floor at all.
pub validate_iff :
    (floors : Floors)
    → (validate floors ≡ ok tt)
      ↔ ((floors.exclude_latency && no_floors floors ≡ false) × IsDistinct floors.min_areas)
unfolding validate
validate_iff floors = elim (Bool-cases (floors.exclude_latency && no_floors floors)) [
  | inl t ↦ rw t (λ h. cc, λ (h, d). cc)
  | inr t ↦ rw t (
    λ h. (refl, ((no_repeats_iff [] floors.min_areas).0 h).1),
    λ (_, d). (no_repeats_iff [] floors.min_areas).1 (nothing_seen floors.min_areas, d),
  )
]
