-- ===== src/Lifecycle/Identity.antt =====
-- `finding_id`, `false_success_id` and `hash_finding_id` of src/lifecycle.rs. The hash is a parameter.
use mcp_eval.Prelude.{
  ℕ, ◌+◌, ◌/◌, ◌%◌, ◌^◌, ◌<◌, String, ◌≡◌, ◌≢◌, refl, Option, some, List, [], ◌∷◌, ◌++◌, map, arith,
  length, bytes, unwrap_or, All, ltb, if◌then◌else◌, take,
}

-- `(n as u64).to_be_bytes()`
unfoldable pub to_be_bytes : ℕ → List ℕ
to_be_bytes n =
    (n / 2 ^ 56 % 256)
    ∷ (n / 2 ^ 48 % 256)
    ∷ (n / 2 ^ 40 % 256)
    ∷ (n / 2 ^ 32 % 256)
    ∷ (n / 2 ^ 24 % 256)
    ∷ (n / 2 ^ 16 % 256)
    ∷ (n / 2 ^ 8 % 256)
    ∷ (n % 256)
    ∷ []

abbrev pub value_bytes : Option String → List ℕ
value_bytes value = bytes (unwrap_or "" value)

-- What the loop feeds to the hash after the domain.
unfoldable pub framed : List (Option String) → List ℕ
framed [] = []
framed (value ∷ values) =
    to_be_bytes (length (value_bytes value)) ++ (value_bytes value ++ framed values)

unfoldable pub preimage : List ℕ → List (Option String) → List ℕ
preimage domain values = domain ++ framed values

abbrev hex_digit : ℕ → ℕ
hex_digit d = if ltb d 10 then b'0' + d else 87 + d

-- `format!("{byte:02x}")` of every byte
hex : List ℕ → List ℕ
hex [] = []
hex (b ∷ bs) = hex_digit (b / 16) ∷ hex_digit (b % 16) ∷ hex bs

abbrev pub false_success_domain : List ℕ
false_success_domain = bytes "mcpeval/annotated-success/false-success/v1"

module _ (sha256 : List ℕ → List ℕ) where
  unfoldable pub hash_finding_id : List ℕ → List (Option String) → List ℕ
  unfolding hex
  hash_finding_id domain values =
      bytes "finding-" ++ take 16 (hex (sha256 (preimage domain values)))

  unfoldable pub finding_id : String → Option String → Option String → Option String → List ℕ
  finding_id server tool err_code err_template_id =
      hash_finding_id [] (some server ∷ tool ∷ err_code ∷ err_template_id ∷ [])

  unfoldable pub false_success_id : String → Option String → List ℕ
  false_success_id server tool = hash_finding_id false_success_domain (some server ∷ tool ∷ [])

append-cancel :
    (xs ys r s : List ℕ) → length xs ≡ length ys → xs ++ r ≡ ys ++ s → (xs ≡ ys) × (r ≡ s)
append-cancel [] [] r s l h = (refl, h)
append-cancel [] (y ∷ ys) r s l h = absurd (omega arith)
append-cancel (x ∷ xs) [] r s l h = absurd (omega arith)
append-cancel (x ∷ xs) (y ∷ ys) r s l h =
    let (p, q) = append-cancel xs ys r s (omega arith) (cc h) in (cc, q)

to_be_bytes-injective :
    (m n : ℕ) (r s : List ℕ)
    → m < 2 ^ 64
    → n < 2 ^ 64
    → to_be_bytes m ++ r ≡ to_be_bytes n ++ s
    → (m ≡ n) × (r ≡ s)
unfolding to_be_bytes
to_be_bytes-injective m n r s hm hn h = (omega (arith, b0, b1, b2, b3, b4, b5, b6, b7), cc h)
  where
    b0 : m / 2 ^ 56 % 256 ≡ n / 2 ^ 56 % 256
    b0 = cc h

    b1 : m / 2 ^ 48 % 256 ≡ n / 2 ^ 48 % 256
    b1 = cc h

    b2 : m / 2 ^ 40 % 256 ≡ n / 2 ^ 40 % 256
    b2 = cc h

    b3 : m / 2 ^ 32 % 256 ≡ n / 2 ^ 32 % 256
    b3 = cc h

    b4 : m / 2 ^ 24 % 256 ≡ n / 2 ^ 24 % 256
    b4 = cc h

    b5 : m / 2 ^ 16 % 256 ≡ n / 2 ^ 16 % 256
    b5 = cc h

    b6 : m / 2 ^ 8 % 256 ≡ n / 2 ^ 8 % 256
    b6 = cc h

    b7 : m % 256 ≡ n % 256
    b7 = cc h

abbrev pub Fits : Option String → Type 0
Fits value = length (value_bytes value) < 2 ^ 64

framed-injective :
    (xs ys : List (Option String))
    → length xs ≡ length ys
    → All Fits xs
    → All Fits ys
    → framed xs ≡ framed ys
    → map value_bytes xs ≡ map value_bytes ys
unfolding framed
framed-injective [] [] l hx hy h = refl
framed-injective [] (y ∷ ys) l hx hy h = absurd (omega arith)
framed-injective (x ∷ xs) [] l hx hy h = absurd (omega arith)
framed-injective (x ∷ xs) (y ∷ ys) l hx hy h =
    let (n, q) =
      to_be_bytes-injective _ _ (value_bytes x ++ framed xs) (value_bytes y ++ framed ys) hx.0 hy.0
        h in
    let (e, r) = append-cancel (value_bytes x) (value_bytes y) (framed xs) (framed ys) n q in
    cc (e, framed-injective xs ys (omega arith) hx.1 hy.1 r)

-- Two lists of as many values, none of them of 2^64 bytes or more, that give the hash the same bytes
-- under one domain hold the same texts, where an absent value counts as the empty text.
pub preimage-injective :
    (domain : List ℕ) (xs ys : List (Option String))
    → length xs ≡ length ys
    → All Fits xs
    → All Fits ys
    → preimage domain xs ≡ preimage domain ys
    → map value_bytes xs ≡ map value_bytes ys
unfolding preimage
preimage-injective domain xs ys l hx hy h =
    framed-injective xs ys l hx hy (append-cancel domain domain (framed xs) (framed ys) refl h).1

preimage_domains :
    (server : String) (rest values : List (Option String))
    → length (bytes server) < 2 ^ 56
    → preimage [] (some server ∷ rest) ≢ preimage false_success_domain values
unfolding preimage framed to_be_bytes
preimage_domains server rest values h e = absurd (omega (arith, first))
  where
    first : length (bytes server) / 2 ^ 56 % 256 ≡ b'm'
    first = cc e

-- A text after its length, an absent text as the empty one, and then the rest of a message.
abbrev pub sized : Option String → List ℕ → List ℕ
sized value rest = to_be_bytes (length (value_bytes value)) ++ (value_bytes value ++ rest)

-- The message that names an error finding.
abbrev pub error_message : String → Option String → Option String → Option String → List ℕ
error_message server tool err_code err_template_id =
    sized (some server) (sized tool (sized err_code (sized err_template_id [])))

-- The message that names a false-success finding.
abbrev pub success_message : String → Option String → List ℕ
success_message server tool =
    bytes "mcpeval/annotated-success/false-success/v1" ++ sized (some server) (sized tool [])

-- The id of a message: the first 16 hexadecimal digits of its hash.
pub id_of : (List ℕ → List ℕ) → List ℕ → List ℕ
unfolding hex
id_of sha256 message = bytes "finding-" ++ take 16 (hex (sha256 message))

module _ (sha256 : List ℕ → List ℕ) where
  -- The id of an error finding is made of the hash of its four texts, each after its length, and the
  -- id of a false-success finding of the hash of a fixed label and its two texts. The two messages
  -- are never the same, as long as the server label of the error finding is shorter than 2^56 bytes.
  pub finding_ids_apart :
      (server : String) (tool err_code err_template_id : Option String) (server' : String)
      (tool' : Option String)
      → length (bytes server) < 2 ^ 56
      → (finding_id sha256 server tool err_code err_template_id
          ≡ id_of sha256 (error_message server tool err_code err_template_id))
        × (false_success_id sha256 server' tool' ≡ id_of sha256 (success_message server' tool'))
        × (error_message server tool err_code err_template_id ≢ success_message server' tool')
  unfolding finding_id false_success_id hash_finding_id preimage framed id_of
  finding_ids_apart server tool err_code err_template_id server' tool' h = (
    refl,
    refl,
    preimage_domains server (tool ∷ err_code ∷ err_template_id ∷ []) (some server' ∷ tool' ∷ []) h,
  )
