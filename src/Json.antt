-- ===== src/Json.antt =====
-- `serde_json::Value`. A map of serde_json is ordered by its keys, and no key stands in it twice.
use mcp_eval.Prelude.{
  ℕ, ◌^◌, ◌-◌, String, Bool, true, false, Option, some, none, List, [], ◌∷◌, str_eq, leb,
  if◌then◌else◌, ◌≡◌, refl, ◌∙◌, ap, ltb, ◌==◌, ◌&&◌, ◌||◌, bytes, map, All, all, eq_iff, sym,
  Bool-cases, inl, inr,
}
use mcp_eval.Prelude.Int.{ℤ, pos, negsuc}

-- `serde_json::Number`: an integer of `u64`, a negative one of `i64`, or a float by its text.
pub data Number : Type 0 where
  unsigned : ℕ → Number
  negative : ℕ → Number
  float : String → Number

mutual
  pub data Value : Type 0 where
    null : Value
    bool : Bool → Value
    number : Number → Value
    string : String → Value
    array : Items → Value
    object : Fields → Value

  pub data Items : Type 0 where
    nil : Items
    cons : Value → Items → Items

  pub data Fields : Type 0 where
    end : Fields
    field : String → Value → Fields → Fields

abbrev pub elements : Items → List Value
elements nil = []
elements (cons v vs) = v ∷ elements vs

abbrev pub entries : Fields → List (String × Value)
entries end = []
entries (field k v fs) = (k, v) ∷ entries fs

abbrev pub to_items : List Value → Items
to_items [] = nil
to_items (v ∷ vs) = cons v (to_items vs)

abbrev pub to_fields : List (String × Value) → Fields
to_fields [] = end
to_fields ((k, v) ∷ fs) = field k v (to_fields fs)

-- `Map::get`
abbrev pub lookup {ℓ} : {A : Type ℓ} → String → List (String × A) → Option A
lookup key [] = none
lookup key ((k, v) ∷ rest) = if str_eq k key then some v else lookup key rest

-- `Value::get` with a key
abbrev pub get : String → Value → Option Value
get key (object fs) = lookup key (entries fs)
get key _ = none

abbrev pub as_bool : Value → Option Bool
as_bool (bool b) = some b
as_bool _ = none

abbrev pub as_str : Value → Option String
as_str (string s) = some s
as_str _ = none

abbrev pub as_u64 : Value → Option ℕ
as_u64 (number (unsigned n)) = some n
as_u64 _ = none

abbrev pub as_i64 : Value → Option ℤ
as_i64 (number (unsigned n)) = if leb n (2 ^ 63 - 1) then some (pos n) else none
as_i64 (number (negative n)) = some (negsuc n)
as_i64 _ = none

abbrev pub as_array : Value → Option (List Value)
as_array (array vs) = some (elements vs)
as_array _ = none

abbrev pub as_object : Value → Option (List (String × Value))
as_object (object fs) = some (entries fs)
as_object _ = none

abbrev pub is_object : Value → Bool
is_object (object fs) = true
is_object _ = false

abbrev pub is_array : Value → Bool
is_array (array vs) = true
is_array _ = false

abbrev pub is_string : Value → Bool
is_string (string s) = true
is_string _ = false

abbrev pub is_number : Value → Bool
is_number (number n) = true
is_number _ = false

-- An absent value is written `null`.
abbrev pub or_null {ℓ} : {A : Type ℓ} → (A → Value) → Option A → Value
or_null f none = null
or_null f (some a) = f a

pub elements-to_items : (vs : List Value) → elements (to_items vs) ≡ vs
elements-to_items [] = refl
elements-to_items (v ∷ vs) = rw (elements-to_items vs)

pub entries-to_fields : (fs : List (String × Value)) → entries (to_fields fs) ≡ fs
entries-to_fields [] = refl
entries-to_fields ((k, v) ∷ fs) = rw (entries-to_fields fs)

-- The order of keys: the order of their bytes.
abbrev pub less : List ℕ → List ℕ → Bool
less [] [] = false
less [] (y ∷ ys) = true
less (x ∷ xs) [] = false
less (x ∷ xs) (y ∷ ys) = ltb x y || (x == y) && less xs ys

-- Inserts an element that an equal key, which is inserted after it, replaces.
abbrev pub insert_by {ℓ} : {A : Type ℓ} → (A → String) → A → List A → List A
insert_by key x [] = x ∷ []
insert_by key x (y ∷ ys) =
    let more = insert_by key x ys in
    if str_eq (key x) (key y)
    then y ∷ ys
    else if less (bytes (key x)) (bytes (key y))
    then x ∷ y ∷ ys
    else y ∷ more

-- `collect` into a map: the elements by their keys, the last of those with one key.
abbrev pub collect_by {ℓ} : {A : Type ℓ} → (A → String) → List A → List A
collect_by key [] = []
collect_by key (x ∷ xs) = insert_by key x (collect_by key xs)

pub map-insert_by {ℓ κ} :
    {A : Type ℓ} {B : Type κ} (key : B → String) (g : A → B) (x : A) (ys : List A)
    → map g (insert_by (λ a. key (g a)) x ys) ≡ insert_by key (g x) (map g ys)
map-insert_by key g x [] = refl
map-insert_by key g x (y ∷ ys) = elim (Bool-cases (str_eq (key (g x)) (key (g y)))) [
  | inl s ↦ rw s refl
  | inr s ↦ elim (Bool-cases (less (bytes (key (g x))) (bytes (key (g y))))) [
    | inl l ↦ rw (s, l) refl
    | inr l ↦ rw (s, l) (ap (λ zs. g y ∷ zs) (map-insert_by key g x ys))
  ]
]

pub map-collect_by {ℓ κ} :
    {A : Type ℓ} {B : Type κ} (key : B → String) (g : A → B) (xs : List A)
    → map g (collect_by (λ a. key (g a)) xs) ≡ collect_by key (map g xs)
map-collect_by key g [] = refl
map-collect_by key g (x ∷ xs) =
    map-insert_by key g x (collect_by (λ a. key (g a)) xs)
    ∙ ap (λ zs. insert_by key (g x) zs) (map-collect_by key g xs)

All-insert_by {ℓ κ} :
    {A : Type ℓ} (P : A → Type κ) (key : A → String) (x : A) (ys : List A)
    → P x
    → All P ys
    → All P (insert_by key x ys)
All-insert_by P key x [] p ps = (p, tt)
All-insert_by P key x (y ∷ ys) p ps = elim (Bool-cases (str_eq (key x) (key y))) [
  | inl s ↦ rw s ps
  | inr s ↦ elim (Bool-cases (less (bytes (key x)) (bytes (key y)))) [
    | inl l ↦ rw (s, l) (p, ps)
    | inr l ↦ rw (s, l) (ps.0, All-insert_by P key x ys p ps.1)
  ]
]

pub All-collect_by {ℓ κ} :
    {A : Type ℓ} (P : A → Type κ) (key : A → String) (xs : List A)
    → All P xs
    → All P (collect_by key xs)
All-collect_by P key [] ps = tt
All-collect_by P key (x ∷ xs) ps =
    All-insert_by P key x (collect_by key xs) ps.0 (All-collect_by P key xs ps.1)

-- A table of names, each checked against the name of its value.
pub all_named {ℓ} :
    {A : Type ℓ} (name : A → String) (table : List (String × A))
    → all (λ e. str_eq (name e.1) e.0) table ≡ true
    → All (λ e. name e.1 ≡ e.0) table
all_named name [] h = tt
all_named name ((key, x) ∷ table) h = elim (Bool-cases (str_eq (name x) key)) [
  | inl e ↦ ((eq_iff (name x) key).0 e, all_named name table (rw e at h))
  | inr e ↦ let no : ◌≡◌ {A = Bool} false true = rw e at h in cc
]

pub lookup_sound {ℓ} :
    {A : Type ℓ} (name : A → String) (label : String) (table : List (String × A)) (x : A)
    → All (λ e. name e.1 ≡ e.0) table
    → lookup label table ≡ some x
    → name x ≡ label
lookup_sound name label [] x hs h = cc
lookup_sound name label ((key, y) ∷ table) x (k, hs) h = elim (Bool-cases (str_eq key label)) [
  | inl e ↦
      ap (λ o. elim o [ none ↦ label | some z ↦ name z ]) (sym (rw e at h))
      ∙ k
      ∙ (eq_iff key label).0 e
  | inr e ↦ lookup_sound name label table x hs (rw e at h)
]
