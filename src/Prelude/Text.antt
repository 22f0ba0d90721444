-- ===== src/Prelude/Text.antt =====
-- `str`: its UTF-8 bytes, and the byte classes that `u8` has.
use Prim.Native.Nat.{ℕ, ◌+◌, ◌/◌, ◌%◌}
use Prim.Native.Char.{Char, char, code}
use Prim.Native.String.{String}
use mathlib.Core.Bool.{Bool, ◌&&◌, ◌||◌}
use mathlib.Core.List.{List, [], ◌∷◌, ◌++◌}
use mathlib.Core.Option.{Option, none, some}
use mcp_eval.Prelude.Tests.{ltb, leb, ◌==◌, if◌then◌else◌}
use mcp_eval.Prelude.Lists.{length}

-- The UTF-8 encoding of a code point.
abbrev pub utf8 : ℕ → List ℕ
utf8 c =
    if ltb c 0x80
    then c ∷ []
    else if ltb c 0x800
    then (0xC0 + c / 0x40) ∷ (0x80 + c % 0x40) ∷ []
    else if ltb c 0x10000
    then (0xE0 + c / 0x1000) ∷ (0x80 + c / 0x40 % 0x40) ∷ (0x80 + c % 0x40) ∷ []
    else (0xF0 + c / 0x40000)
      ∷ (0x80 + c / 0x1000 % 0x40)
      ∷ (0x80 + c / 0x40 % 0x40)
      ∷ (0x80 + c % 0x40)
      ∷ []

-- `as_bytes`
abbrev pub bytes : String → List ℕ
bytes String.[] = []
bytes (String.◌∷◌ c s) = utf8 (code c) ++ bytes s

-- `str::len`, in bytes
abbrev pub byte_length : String → ℕ
byte_length s = length (bytes s)

abbrev pub is_ascii_digit : ℕ → Bool
is_ascii_digit b = leb b'0' b && leb b b'9'

abbrev pub is_ascii_alphabetic : ℕ → Bool
is_ascii_alphabetic b = leb b'a' b && leb b b'z' || leb b'A' b && leb b b'Z'

abbrev pub is_ascii_alphanumeric : ℕ → Bool
is_ascii_alphanumeric b = is_ascii_alphabetic b || is_ascii_digit b

abbrev pub is_ascii_hexdigit : ℕ → Bool
is_ascii_hexdigit b = is_ascii_digit b || leb b'a' b && leb b b'f' || leb b'A' b && leb b b'F'

-- `push_str`
abbrev pub append : String → String → String
append s t = Prim.Native.String.◌++◌ s t

-- `strip_prefix` of one ASCII character, by its code
abbrev pub strip_prefix : ℕ → String → Option String
strip_prefix mark String.[] = none
strip_prefix mark (String.◌∷◌ c s) = if code c == mark then some s else none

-- '~' and '/'
abbrev pub tilde : Char
tilde = char 0x7E tt

abbrev pub slash : Char
slash = char 0x2F tt
