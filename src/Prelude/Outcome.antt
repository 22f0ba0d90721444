-- ===== src/Prelude/Outcome.antt =====
-- `anyhow::Result`: a value, or an error that is told apart by its message.
use mathlib.Core.Path.{◌≡◌, refl, subst}
use mathlib.Core.Logic.{◌⊎◌, inl, inr}
use mathlib.Core.Option.{Option, none, some}
use mathlib.Core.Bool.{Bool, true, false}
use mathlib.Core.List.{List, [], ◌∷◌, map}
use mcp_eval.Prelude.Lists.{All}

pub data Result {ℓ κ} (E : Type κ) (A : Type ℓ) : Type (ℓ ⊔ κ) where
  ok : A → Result E A
  err : E → Result E A

infixl 5 ◌>>=◌ ◌>>◌
abbrev pub ◌>>=◌ {ℓ ι κ} :
    {E : Type κ} {A : Type ℓ} {B : Type ι} → Result E A → (A → Result E B) → Result E B
ok a >>= f = f a
err e >>= f = err e

abbrev pub ◌>>◌ {ℓ κ} : {E : Type κ} {B : Type ℓ} → Result E (Unit {0}) → Result E B → Result E B
m >> k = m >>= λ _. k

-- `ensure!(b, e)`
abbrev pub ensure {κ} : {E : Type κ} → Bool → E → Result E (Unit {0})
ensure true e = ok tt
ensure false e = err e

-- `option.context(e)?` and `ok_or`
abbrev pub context {ℓ κ} : {E : Type κ} {A : Type ℓ} → E → Option A → Result E A
context e none = err e
context e (some a) = ok a

-- `iter().map(f).collect::<Result<Vec<_>>>()`
abbrev pub traverse {ℓ ι κ} :
    {E : Type κ} {A : Type ℓ} {B : Type ι} → (A → Result E B) → List A → Result E (List B)
traverse f [] = ok []
traverse f (x ∷ xs) = let rest = traverse f xs in do y ← f x; ys ← rest; ok (y ∷ ys)

-- Inversion of a successful bind.
pub >>=-ok {ℓ ι κ} :
    {E : Type κ} {A : Type ℓ} {B : Type ι} (m : Result E A) (f : A → Result E B) {b : B}
    → (m >>= f) ≡ ok b
    → (a : A) × (m ≡ ok a) × (f a ≡ ok b)
>>=-ok (ok a) f h = (a, refl, h)
>>=-ok (err e) f h = cc

pub context-ok {ℓ κ} :
    {E : Type κ} {A : Type ℓ} (e : E) (o : Option A) {a : A} → context e o ≡ ok a → o ≡ some a
context-ok e none h = cc
context-ok e (some a) h = cc

-- Inversion of a guard that was passed.
pub ensure-ok {ℓ κ} :
    {E : Type κ} {A : Type ℓ} (b : Bool) (e : E) (m : Result E A) {a : A}
    → (ensure b e >> m) ≡ ok a
    → (b ≡ true) × (m ≡ ok a)
ensure-ok true e m h = (refl, h)
ensure-ok false e m h = cc

pub ok_injective {ℓ κ} :
    {E : Type κ} {A : Type ℓ} {a b : A} → ◌≡◌ {A = Result E A} (ok a) (ok b) → a ≡ b
ok_injective h = cc

-- To split on a result and keep the equation.
pub Result-cases {ℓ κ} :
    {E : Type κ} {A : Type ℓ} (r : Result E A) → ((a : A) × (r ≡ ok a)) ⊎ ((e : E) × (r ≡ err e))
Result-cases (ok a) = inl (a, refl)
Result-cases (err e) = inr (e, refl)

-- What is read back from what was written, element by element.
pub traverse-map {ℓ ι κ} :
    {E : Type κ} {A : Type ℓ} {B : Type ι} (f : B → Result E A) (g : A → B) (xs : List A)
    → All (λ x. f (g x) ≡ ok x) xs
    → traverse f (map g xs) ≡ ok xs
traverse-map f g [] h = refl
traverse-map f g (x ∷ xs) (h, hs) = rw (h, traverse-map f g xs hs) refl

-- What holds of every result holds of all of them.
pub traverse-All {ℓ ι κ μ} :
    {E : Type κ} {A : Type ℓ} {B : Type ι} (P : B → Type μ) (f : A → Result E B)
    → ((x : A) (y : B) → f x ≡ ok y → P y)
    → (xs : List A) (ys : List B) → traverse f xs ≡ ok ys
    → All P ys
traverse-All P f each [] ys h = subst (All P) (ok_injective h) tt
traverse-All P f each (x ∷ xs) ys h =
    let (z, h1, k1) = >>=-ok (f x) _ h in
    let (zs, h2, k2) = >>=-ok (traverse f xs) _ k1 in
    subst (All P) (ok_injective k2) (each x z h1, traverse-All P f each xs zs h2)
