-- ===== src/Arguments/Spend.antt =====
-- `InputBudget` of src/standard.rs: what a synthesized input may still cost. A refusal ends the
-- synthesis, so the budget that is left then is not kept.
use mcp_eval.Prelude.{
  ℕ, zero, suc, ◌+◌, ◌-◌, ◌*◌, Option, none, some, ltb, length, if◌then◌else◌, byte_length,
}
use mcp_eval.Json.{
  Value, Items, Fields, null, bool, number, string, array, object, nil, cons, end, field, elements,
  entries,
}

pub record InputBudget : Type 0 where
  pub bytes : ℕ
  pub nodes : ℕ

-- A computation that spends of the budget.
abbrev pub Spend {ℓ} : Type ℓ → Type ℓ
Spend A = InputBudget → Option (A × InputBudget)

infixl 5 ◌>>=◌ ◌>>◌
abbrev pub after_spent {ℓ κ} :
    {A : Type ℓ} {B : Type κ} → (A → Spend B) → Option (A × InputBudget) → Option (B × InputBudget)
after_spent f none = none
after_spent f (some (a, b)) = f a b

abbrev pub ◌>>=◌ {ℓ κ} : {A : Type ℓ} {B : Type κ} → Spend A → (A → Spend B) → Spend B
m >>= f = λ b. after_spent f (m b)

abbrev pub ◌>>◌ {κ} : {B : Type κ} → Spend (Unit {0}) → Spend B → Spend B
m >> k = m >>= λ _. k

abbrev pub pure {ℓ} : {A : Type ℓ} → A → Spend A
pure a = λ b. some (a, b)

-- `option?`
abbrev pub lift {ℓ} : {A : Type ℓ} → Option A → Spend A
lift none = λ b. none
lift (some a) = λ b. some (a, b)

abbrev pub fail {ℓ} : {A : Type ℓ} → Spend A
fail = λ b. none

-- `checked_sub` for both; a product that overflows `usize` exceeds every budget.
unfoldable pub charge : ℕ → Spend (Unit {0})
charge bytes b =
    if ltb b.bytes bytes
    then none
    else if ltb b.nodes 1
    then none
    else some (tt, record { bytes = b.bytes - bytes; nodes = b.nodes - 1 })

-- `InputBudget::value`, where `left` is how many levels may still be entered.
unfoldable mutual
  unfolding charge

  pub charge_value : ℕ → Value → Spend (Unit {0})
  charge_value zero v = fail
  charge_value (suc left) (string text) = charge (byte_length text * 6 + 2)
  charge_value (suc left) (array items) =
      charge (2 + length (elements items)) >> charge_items left items
  charge_value (suc left) (object properties) =
      charge (2 + length (entries properties)) >> charge_fields left properties
  charge_value (suc left) null = charge 32
  charge_value (suc left) (bool b) = charge 32
  charge_value (suc left) (number n) = charge 32

  pub charge_items : ℕ → Items → Spend (Unit {0})
  charge_items left nil = pure tt
  charge_items left (cons v vs) = charge_value left v >> charge_items left vs

  pub charge_fields : ℕ → Fields → Spend (Unit {0})
  charge_fields left end = pure tt
  charge_fields left (field k v fs) =
      charge (byte_length k * 6 + 3) >> (charge_value left v >> charge_fields left fs)
