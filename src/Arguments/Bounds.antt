-- ===== src/Arguments/Bounds.antt =====
-- How large a value is that src/standard.rs builds from a schema.
use mcp_eval.Prelude.{
  ℕ, zero, suc, ◌+◌, ◌-◌, ◌*◌, ◌≤◌, ◌≡◌, refl, ap, arith, Bool, true, false, Option, none, some,
  ltb, length, if◌then◌else◌, bytes, byte_length, Bool-cases, inl, inr,
}
use mcp_eval.Json.{
  Value, Items, Fields, null, bool, number, string, array, object, nil, cons, end, field, elements,
  entries,
}
use mcp_eval.Arguments.Spend.{
  InputBudget, Spend, after_spent, ◌>>=◌, ◌>>◌, pure, lift, fail, charge, charge_value,
  charge_items, charge_fields,
}

-- The values that a value consists of, itself included.
unfoldable mutual
  pub node_count : Value → ℕ
  node_count (array vs) = suc (item_nodes vs)
  node_count (object fs) = suc (field_nodes fs)
  node_count null = 1
  node_count (bool b) = 1
  node_count (number n) = 1
  node_count (string s) = 1

  pub item_nodes : Items → ℕ
  item_nodes nil = 0
  item_nodes (cons v vs) = node_count v + item_nodes vs

  pub field_nodes : Fields → ℕ
  field_nodes end = 0
  field_nodes (field k v fs) = node_count v + field_nodes fs

-- Whatever `m` returns, with what it leaves, costs at most the nodes it was given and `k` more.
pub record Costs {ℓ} {A : Type ℓ} (k : ℕ) (size : A → ℕ) (m : Spend A) : Type ℓ where
  pub bound :
      (b : InputBudget) (a : A) (left : InputBudget)
      → m b ≡ some (a, left)
      → size a + left.nodes ≤ b.nodes + k

after_spent-some {ℓ κ} :
    {A : Type ℓ} {B : Type κ} (f : A → Spend B) (o : Option (A × InputBudget)) (r : B × InputBudget)
    → after_spent f o ≡ some r
    → (a : A) × (b : InputBudget) × (o ≡ some (a, b)) × (f a b ≡ some r)
after_spent-some f none r h = cc
after_spent-some f (some (a, b)) r h = (a, b, refl, h)

pub >>=-Costs {ℓ κ} :
    {A : Type ℓ} {B : Type κ} (k : ℕ) (size : A → ℕ) (size' : B → ℕ) (m : Spend A) (f : A → Spend B)
    → Costs k size m
    → ((a : A) → Costs (size a) size' (f a))
    → Costs k size' (m >>= f)
>>=-Costs k size size' m f c cs = record {
  bound = λ b r left h.
      let (a, b', h1, h2) = after_spent-some f (m b) (r, left) h in
      omega (arith, c.bound b a b' h1, (cs a).bound b' r left h2);
}

some_pair {ℓ} :
    {A : Type ℓ} (a a' : A) (b b' : InputBudget)
    → ◌≡◌ {A = Option (A × InputBudget)} (some (a, b)) (some (a', b'))
    → (a ≡ a') × (b ≡ b')
some_pair a a' b b' h = ground arith

pub pure-Costs {ℓ} :
    {A : Type ℓ} (k : ℕ) (size : A → ℕ) (a : A) → size a ≤ k → Costs k size (pure a)
pure-Costs k size a l = record {
  bound = λ b a' left h.
      let (e, e') = some_pair a a' b left h in
      omega (arith, l, ap size e, ap (λ (b : InputBudget). b.nodes) e');
}

pub fail-Costs {ℓ} : {A : Type ℓ} (k : ℕ) (size : A → ℕ) → Costs k size (fail {A = A})
fail-Costs k size = record { bound = λ b a left h. cc }

pub lift-Costs {ℓ} : {A : Type ℓ} (k : ℕ) (o : Option A) → Costs k (λ _. k) (lift o)
lift-Costs k none = fail-Costs k (λ _. k)
lift-Costs k (some a) = pure-Costs k (λ _. k) a (omega arith)

-- What is left from before adds to both.
pub grown {ℓ} :
    {A : Type ℓ} (k k' : ℕ) (size size' : A → ℕ) (m : Spend A)
    → ((a : A) → size' a + k ≤ size a + k')
    → Costs k size m
    → Costs k' size' m
grown k k' size size' m l c = record {
  bound = λ b a left h. omega (arith, l a, c.bound b a left h);
}

charge-Costs : (bytes : ℕ) → Costs 0 (λ _. 1) (charge bytes)
unfolding charge
charge-Costs bytes = record { bound = λ b u left h. charged (ltb b.bytes bytes) b bytes u left h }
  where
    charged :
        (t : Bool) (b : InputBudget) (bytes : ℕ) (u : Unit {0}) (left : InputBudget)
        → if◌then◌else◌ {A = Option (Unit {0} × InputBudget)} t none (
            if ltb b.nodes 1
            then none
            else some (tt, record { bytes = b.bytes - bytes; nodes = b.nodes - 1 }))
          ≡ some (u, left)
        → 1 + left.nodes ≤ b.nodes + 0
    charged true b bytes u left h = cc
    charged false b bytes u left h = elim (Bool-cases (ltb b.nodes 1)) [
      | inl e ↦
          let k : ◌≡◌ {A = Option (Unit {0} × InputBudget)} none (some (u, left)) = rw e at h in cc
      | inr e ↦
          let k : ◌≡◌ {A = Option (Unit {0} × InputBudget)}
              (some (tt, record { bytes = b.bytes - bytes; nodes = b.nodes - 1 }))
              (some (u, left)) =
            rw e at h in
          let (_, e') =
            some_pair tt u (record { bytes = b.bytes - bytes; nodes = b.nodes - 1 }) left k in
          ground (arith, ap (λ (b : InputBudget). b.nodes) e')
    ]

-- One step after another, of which the first costs `n`.
>>-Costs {κ} :
    {B : Type κ} (n : ℕ) (size : B → ℕ) (m : Spend (Unit {0})) (k : Spend B)
    → Costs 0 (λ _. n) m
    → Costs n size k
    → Costs 0 size (m >> k)
>>-Costs n size m k c d = >>=-Costs 0 (λ _. n) size m (λ _. k) c (λ _. d)

pub charge_then {κ} :
    {B : Type κ} (bytes : ℕ) (size : B → ℕ) (k : Spend B)
    → Costs 1 size k
    → Costs 0 size (charge bytes >> k)
charge_then bytes size k d = >>-Costs 1 size (charge bytes) k (charge-Costs bytes) d

mutual
  unfolding charge_value node_count

  pub charge_value-Costs :
      (left : ℕ) (v : Value) → Costs 0 (λ _. node_count v) (charge_value left v)
  charge_value-Costs zero v = fail-Costs 0 (λ _. node_count v)
  charge_value-Costs (suc left) (string text) = charge-Costs (byte_length text * 6 + 2)
  charge_value-Costs (suc left) (array vs) =
      charge_then (2 + length (elements vs)) (λ _. suc (item_nodes vs)) (charge_items left vs)
        (grown 0 1 (λ _. item_nodes vs) (λ _. suc (item_nodes vs)) (charge_items left vs)
          (λ _. omega arith) (charge_items-Costs left vs))
  charge_value-Costs (suc left) (object fs) =
      charge_then (2 + length (entries fs)) (λ _. suc (field_nodes fs)) (charge_fields left fs)
        (grown 0 1 (λ _. field_nodes fs) (λ _. suc (field_nodes fs)) (charge_fields left fs)
          (λ _. omega arith) (charge_fields-Costs left fs))
  charge_value-Costs (suc left) null = charge-Costs 32
  charge_value-Costs (suc left) (bool b) = charge-Costs 32
  charge_value-Costs (suc left) (number n) = charge-Costs 32

  charge_items-Costs : (left : ℕ) (vs : Items) → Costs 0 (λ _. item_nodes vs) (charge_items left vs)
  charge_items-Costs left nil = pure-Costs 0 (λ _. 0) tt (omega arith)
  charge_items-Costs left (cons v vs) =
      >>-Costs (node_count v) (λ _. node_count v + item_nodes vs) (charge_value left v)
        (charge_items left vs) (charge_value-Costs left v)
        (grown 0 (node_count v) (λ _. item_nodes vs) (λ _. node_count v + item_nodes vs)
          (charge_items left vs) (λ _. omega arith) (charge_items-Costs left vs))

  charge_fields-Costs :
      (left : ℕ) (fs : Fields) → Costs 0 (λ _. field_nodes fs) (charge_fields left fs)
  charge_fields-Costs left end = pure-Costs 0 (λ _. 0) tt (omega arith)
  charge_fields-Costs left (field k v fs) =
      charge_then (byte_length k * 6 + 3) (λ _. node_count v + field_nodes fs)
        (charge_value left v >> charge_fields left fs)
        (grown 0 1 (λ _. node_count v + field_nodes fs) (λ _. node_count v + field_nodes fs)
          (charge_value left v >> charge_fields left fs) (λ _. omega arith)
          (>>-Costs (node_count v) (λ _. node_count v + field_nodes fs) (charge_value left v)
            (charge_fields left fs) (charge_value-Costs left v)
            (grown 0 (node_count v) (λ _. field_nodes fs) (λ _. node_count v + field_nodes fs)
              (charge_fields left fs) (λ _. omega arith) (charge_fields-Costs left fs))))
