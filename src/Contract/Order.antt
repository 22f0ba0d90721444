-- ===== src/Contract/Order.antt =====
-- The order of the keys in the sets and maps of src/catalog_contract.rs.
use mcp_eval.Prelude.{
  ℕ, ◌≡◌, refl, ap, ◌∙◌, subst, arith, String, Bool, true, false, ◌&&◌, ◌||◌, List, [], ◌∷◌, map,
  ltb, ◌==◌, bytes, bytes-injective, str_eq, eq_iff, Bool-cases, inl, inr,
}
use mcp_eval.Json.{less, insert_by, collect_by}

-- `x` comes before the head of the list.
abbrev pub IsFirst : String → List String → Type 0
IsFirst x [] = Unit
IsFirst x (y ∷ ys) = less (bytes x) (bytes y) ≡ true

-- The keys of a map, or the elements of a set, each before the next.
abbrev pub IsOrdered : List String → Type 0
IsOrdered [] = Unit
IsOrdered (x ∷ xs) = IsFirst x xs × IsOrdered xs

less_irreflexive : (xs : List ℕ) → less xs xs ≡ false
less_irreflexive [] = refl
less_irreflexive (x ∷ xs) = rw (less_irreflexive xs) (ground arith)

no_less : (b : String) → less (bytes b) (bytes b) ≡ true → ⊥
no_less b h = cc (less_irreflexive (bytes b))

less-differs : (a b : String) → less (bytes a) (bytes b) ≡ true → str_eq a b ≡ false
less-differs a b h = elim (Bool-cases (str_eq a b)) [
  | inl e ↦ absurd (no_less b (subst (λ c. less (bytes c) (bytes b) ≡ true) ((eq_iff a b).0 e) h))
  | inr e ↦ e
]

module _ {A : Type 0} (key : A → String) where
  insert_first : (x : A) (ys : List A) → IsFirst (key x) (map key ys) → insert_by key x ys ≡ x ∷ ys
  insert_first x [] h = refl
  insert_first x (y ∷ ys) h = rw (less-differs (key x) (key y) h, h) refl

  pub collect_ordered : (xs : List A) → IsOrdered (map key xs) → collect_by key xs ≡ xs
  collect_ordered [] h = refl
  collect_ordered (x ∷ xs) (f, h) =
      ap (insert_by key x) (collect_ordered xs h) ∙ insert_first x xs f

less_total : (xs ys : List ℕ) → less xs ys ≡ false → less ys xs ≡ false → xs ≡ ys
less_total [] [] h k = refl
less_total [] (y ∷ ys) h k = cc
less_total (x ∷ xs) [] h k = cc
less_total (x ∷ xs) (y ∷ ys) h k =
    let (e, hs, ks) = heads x y (less xs ys) (less ys xs) h k in
    (λ i. e i ∷ less_total xs ys hs ks i)
  where
    heads :
        (x y : ℕ) (a b : Bool)
        → (ltb x y || (x == y) && a) ≡ false
        → (ltb y x || (y == x) && b) ≡ false
        → (x ≡ y) × (a ≡ false) × (b ≡ false)
    heads x y a b h k = ground arith

-- Of two different keys, one comes first.
less_other :
    (a b : String)
    → str_eq a b ≡ false
    → less (bytes a) (bytes b) ≡ false
    → less (bytes b) (bytes a) ≡ true
less_other a b d h = elim (Bool-cases (less (bytes b) (bytes a))) [
  | inl e ↦ e
  | inr e ↦
      let same : a ≡ b = bytes-injective a b (less_total (bytes a) (bytes b) h e) in
      absurd (not_both d ((eq_iff a b).1 same))
]
  where
    not_both : {b : Bool} → b ≡ false → b ≡ true → ⊥
    not_both h k = cc

module _ {A : Type 0} (key : A → String) where
  insert_by-IsFirst :
      (y x : A) (ys : List A)
      → less (bytes (key y)) (bytes (key x)) ≡ true
      → IsFirst (key y) (map key ys)
      → IsFirst (key y) (map key (insert_by key x ys))
  insert_by-IsFirst y x [] l f = l
  insert_by-IsFirst y x (z ∷ zs) l f = elim (Bool-cases (str_eq (key x) (key z))) [
    | inl s ↦ rw s f
    | inr s ↦ elim (Bool-cases (less (bytes (key x)) (bytes (key z)))) [
      | inl m ↦ rw (s, m) l
      | inr m ↦ rw (s, m) f
    ]
  ]

  insert_by-IsOrdered :
      (x : A) (ys : List A) → IsOrdered (map key ys) → IsOrdered (map key (insert_by key x ys))
  insert_by-IsOrdered x [] o = (tt, tt)
  insert_by-IsOrdered x (y ∷ ys) (f, o) = elim (Bool-cases (str_eq (key x) (key y))) [
    | inl s ↦ rw s (f, o)
    | inr s ↦ elim (Bool-cases (less (bytes (key x)) (bytes (key y)))) [
      | inl m ↦ rw (s, m) (m, (f, o))
      | inr m ↦
          rw (s, m)
            (
              insert_by-IsFirst y x ys (less_other (key x) (key y) s m) f,
              insert_by-IsOrdered x ys o,
            )
    ]
  ]

  pub collect_by-IsOrdered : (xs : List A) → IsOrdered (map key (collect_by key xs))
  collect_by-IsOrdered [] = tt
  collect_by-IsOrdered (x ∷ xs) =
      insert_by-IsOrdered x (collect_by key xs) (collect_by-IsOrdered xs)
