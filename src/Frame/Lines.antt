-- ===== src/Frame/Lines.antt =====
-- The lines that src/frame.rs writes and reads back.
use mcp_eval.Prelude.{
  ℕ, zero, suc, ◌+◌, ◌-◌, ◌≤◌, ◌<◌, ◌≡◌, ◌↔◌, refl, sym, ap, ◌∙◌, arith, Bool, true, false, not,
  Option, none, some, List, [], ◌∷◌, ◌++◌, length, length-append, All, is_empty, ltb, ◌==◌,
  if◌then◌else◌, ok, err, >>=-ok, Bool-cases, inl, inr, unwrap_or, is_none,
}
use mcp_eval.Json.{Value}
use mcp_eval.Frame.{
  max_frame_bytes, newline, frame_too_long, read_until, read_line, line_of, write, write_chunks,
  encode,
}

-- The bytes of the chunks, in order.
abbrev pub joined : List (List ℕ) → List ℕ
joined [] = []
joined (chunk ∷ chunks) = chunk ++ joined chunks

append_assoc : (xs ys zs : List ℕ) → (xs ++ ys) ++ zs ≡ xs ++ (ys ++ zs)
append_assoc [] ys zs = refl
append_assoc (x ∷ xs) ys zs = ap (λ l. x ∷ l) (append_assoc xs ys zs)

append_nil : (xs : List ℕ) → xs ++ [] ≡ xs
append_nil [] = refl
append_nil (x ∷ xs) = ap (λ l. x ∷ l) (append_nil xs)

abbrev pub IsOther : ℕ → Type 0
IsOther b = (b == newline) ≡ false

read_until-line :
    (limit : ℕ) (xs rest : List ℕ)
    → All IsOther xs
    → length xs < limit
    → read_until limit (xs ++ newline ∷ rest) ≡ (xs ++ newline ∷ [], rest)
unfolding read_until
read_until-line zero xs rest hs h = absurd (omega (arith, h))
read_until-line (suc limit) [] rest hs h = refl
read_until-line (suc limit) (x ∷ xs) rest (o, hs) h =
    rw (o, read_until-line limit xs rest hs (omega (arith, h))) refl

size-of :
    (buffer bytes out : List ℕ) → out ≡ buffer ++ bytes → length out ≡ length buffer + length bytes
size-of buffer bytes out e = ap length e ∙ length-append buffer bytes

write-ok :
    (buffer bytes out : List ℕ)
    → length buffer ≤ max_frame_bytes
    → (write buffer bytes ≡ ok out) ↔ ((out ≡ buffer ++ bytes) × (length out ≤ max_frame_bytes))
unfolding write
write-ok buffer bytes out h =
    elim (Bool-cases (ltb (max_frame_bytes - length buffer) (length bytes))) [
      | inl t ↦
          rw t (λ e. cc, λ (e, l). absurd (ground (arith, t, l, h, size-of buffer bytes out e)))
      | inr t ↦ rw t (
        λ e.
            let same : out ≡ buffer ++ bytes = cc in
            (same, ground (arith, t, h, size-of buffer bytes out same)),
        λ (e, l). ap ok (sym e),
      )
    ]

write_chunks-ok :
    (buffer : List ℕ) (chunks : List (List ℕ)) (out : List ℕ)
    → length buffer ≤ max_frame_bytes
    → (write_chunks buffer chunks ≡ ok out)
      ↔ ((out ≡ buffer ++ joined chunks) × (length out ≤ max_frame_bytes))
unfolding write_chunks
write_chunks-ok buffer [] out h = (
  λ e.
      let same : buffer ≡ out = cc in
      (sym same ∙ sym (append_nil buffer), omega (arith, h, ap length same)),
  λ (e, l). ap ok (sym (e ∙ append_nil buffer)),
)
write_chunks-ok buffer (chunk ∷ chunks) out h = (
  λ e.
      let (w, hw, hr) = >>=-ok (write buffer chunk) (λ w. write_chunks w chunks) e in
      let (we, wl) = (write-ok buffer chunk w h).0 hw in
      let (oe, ol) = (write_chunks-ok w chunks out wl).0 hr in
      (oe ∙ ap (λ l. l ++ joined chunks) we ∙ append_assoc buffer chunk (joined chunks), ol),
  λ (e, l).
      let fits : length (buffer ++ chunk) ≤ max_frame_bytes = omega (
        arith,
        l,
        size-of buffer (chunk ++ joined chunks) out e,
        length-append chunk (joined chunks),
        length-append buffer chunk,
      ) in
      rw ((write-ok buffer chunk (buffer ++ chunk) h).1 (refl, fits)) (
        (write_chunks-ok (buffer ++ chunk) chunks out fits).1
          (e ∙ sym (append_assoc buffer chunk (joined chunks)), l)),
)

has_end : (body : List ℕ) → is_empty (body ++ newline ∷ []) ≡ false
has_end [] = refl
has_end (b ∷ body) = refl

read_until_splits :
    (limit : ℕ) (input : List ℕ)
    → ((read_until limit input).0 ++ (read_until limit input).1 ≡ input)
      × (length (read_until limit input).0 ≤ limit)
unfolding read_until
read_until_splits zero input = (refl, omega arith)
read_until_splits (suc limit) [] = (refl, omega arith)
read_until_splits (suc limit) (b ∷ input) =
    let (split, short) = read_until_splits limit input in
    elim (Bool-cases (b == newline)) [
      | inl n ↦ rw n (refl, omega arith)
      | inr n ↦ rw n (ap (λ l. b ∷ l) split, omega (arith, short))
    ]

read_until_empty :
    (limit : ℕ) (input : List ℕ) → 0 < limit → is_empty (read_until limit input).0 ≡ is_empty input
unfolding read_until
read_until_empty zero input h = absurd (omega (arith, h))
read_until_empty (suc limit) [] h = refl
read_until_empty (suc limit) (b ∷ input) h = elim (Bool-cases (b == newline)) [
  | inl n ↦ rw n refl
  | inr n ↦ rw n refl
]

within_bound :
    (b : Bool) (raw : List ℕ) (o : Option (List ℕ))
    → ltb max_frame_bytes (length raw) ≡ b
    → (if b then err frame_too_long else ok (if not (is_empty raw) then some raw else none)) ≡ ok o
    → (unwrap_or [] o ≡ raw) × (length raw ≤ max_frame_bytes) × (is_none o ≡ is_empty raw)
within_bound true raw o t h = cc
within_bound false [] none t h = (refl, omega arith, refl)
within_bound false [] (some l) t h = cc
within_bound false (x ∷ xs) none t h = cc
within_bound false (x ∷ xs) (some l) t h =
    let same : x ∷ xs ≡ l = cc in (sym same, ground (arith, t), refl)

line_of-ok :
    (raw : List ℕ) (o : Option (List ℕ))
    → line_of raw ≡ ok o
    → (unwrap_or [] o ≡ raw) × (length raw ≤ max_frame_bytes) × (is_none o ≡ is_empty raw)
line_of-ok raw o h = within_bound (ltb max_frame_bytes (length raw)) raw o refl h

-- Whatever the input, a line that is read holds at most 4 MiB and is the front of the input, and the
-- reader has the rest left; no line at all is read only at the end of the input.
pub read_line_splits :
    (input rest : List ℕ) (o : Option (List ℕ))
    → read_line input ≡ (ok o, rest)
    → (unwrap_or [] o ++ rest ≡ input)
      × (length (unwrap_or [] o) ≤ max_frame_bytes)
      × (is_none o ≡ is_empty input)
unfolding read_line
read_line_splits input rest o h =
    let got = read_until (max_frame_bytes + 1) input in
    let (line, short, none_left) = line_of-ok got.0 o (ap (λ r. r.0) h) in
    let (split, _) = read_until_splits (max_frame_bytes + 1) input in
    (
      ap (λ l. l ++ rest) line ∙ ap (λ l. got.0 ++ l) (sym (ap (λ r. r.1) h)) ∙ split,
      rw line short,
      none_left ∙ read_until_empty (max_frame_bytes + 1) input (omega arith),
    )

module _ (to_chunks : Value → List (List ℕ)) where
  -- A value is encoded exactly as the bytes that the serializer writes for it and a newline, and
  -- exactly when these together are at most 4 MiB.
  pub encode-ok :
      (value : Value) (out : List ℕ)
      → (encode to_chunks value ≡ ok out)
        ↔ ((out ≡ joined (to_chunks value) ++ newline ∷ []) × (length out ≤ max_frame_bytes))
  unfolding encode
  encode-ok value out = (
    λ e.
        let (b, hb, hw) =
          >>=-ok (write_chunks [] (to_chunks value)) (λ b. write b (newline ∷ [])) e in
        let (be, bl) = (write_chunks-ok [] (to_chunks value) b (omega arith)).0 hb in
        let (oe, ol) = (write-ok b (newline ∷ []) out bl).0 hw in
        (oe ∙ ap (λ l. l ++ newline ∷ []) be, ol),
    λ (e, l).
        let body = joined (to_chunks value) in
        let fits : length body ≤ max_frame_bytes =
          omega (arith, l, size-of body (newline ∷ []) out e) in
        rw ((write_chunks-ok [] (to_chunks value) body (omega arith)).1 (refl, fits))
          ((write-ok body (newline ∷ []) out fits).1 (e, l)),
  )

  -- What is encoded is read back as one line, and the reader stands behind it, where the serializer
  -- writes no raw newline for the value.
  pub read_line-encode :
      (value : Value) (out rest : List ℕ)
      → All IsOther (joined (to_chunks value))
      → encode to_chunks value ≡ ok out
      → read_line (out ++ rest) ≡ (ok (some out), rest)
  unfolding read_line
  read_line-encode value out rest hs h =
      let (e, l) = (encode-ok value out).0 h in
      let body = joined (to_chunks value) in
      let whole : read_until (max_frame_bytes + 1) (out ++ rest) ≡ (out, rest) =
        ap (λ xs. read_until (max_frame_bytes + 1) (xs ++ rest)) e
        ∙ ap (read_until (max_frame_bytes + 1)) (append_assoc body (newline ∷ []) rest)
        ∙ read_until-line (max_frame_bytes + 1) body rest hs
            (omega (arith, l, size-of body (newline ∷ []) out e))
        ∙ ap (λ xs. (xs, rest)) (sym e) in
      let short : ltb max_frame_bytes (length out) ≡ false = ground (arith, l) in
      rw (whole, short, ap is_empty e ∙ has_end body) refl
