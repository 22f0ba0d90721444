-- ===== src/Prelude/Utf8.antt =====
-- UTF-8 tells texts apart: no two have the same bytes.
use Prim.Native.Nat.{ℕ}
use Prim.Native.Char.{code}
use Prim.Native.String.{String}
use mathlib.Core.Path.{◌≡◌, refl, ap, sym, ◌∙◌}
use mathlib.Core.List.{List, [], ◌++◌, append_assoc}
use Prim.Native.String.append
use native.Mathlib.Omega.{arith}
use text.Mathlib.TextEquality.{Char-path}
use mcp_eval.Prelude.Text.{utf8, bytes, append}

utf8_prefix : (c d : ℕ) (r s : List ℕ) → utf8 c ++ r ≡ utf8 d ++ s → (c ≡ d) × (r ≡ s)
utf8_prefix c d r s h = ground arith

no_utf8 : (c : ℕ) (r : List ℕ) → [] ≡ utf8 c ++ r → ⊥
no_utf8 c r h = ground arith

pub bytes-injective : (s t : String) → bytes s ≡ bytes t → s ≡ t
bytes-injective String.[] String.[] h = refl
bytes-injective String.[] (String.◌∷◌ d t) h = absurd (no_utf8 (code d) (bytes t) h)
bytes-injective (String.◌∷◌ c s) String.[] h = absurd (no_utf8 (code c) (bytes s) (sym h))
bytes-injective (String.◌∷◌ c s) (String.◌∷◌ d t) h =
    let (e, rest) = utf8_prefix (code c) (code d) (bytes s) (bytes t) h in
    (λ i. String.◌∷◌ (Char-path c d e i) (bytes-injective s t rest i))

pub bytes-append : (s t : String) → bytes (append s t) ≡ bytes s ++ bytes t
bytes-append String.[] t = λ i. bytes (Prim.Native.String.append.nil t i)
bytes-append (String.◌∷◌ c s) t =
    (λ i. bytes (Prim.Native.String.append.cons c s t i))
    ∙ (ap (λ r. utf8 (code c) ++ r) (bytes-append s t)
        ∙ sym (append_assoc (utf8 (code c)) (bytes s) (bytes t)))
