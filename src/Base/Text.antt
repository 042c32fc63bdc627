-- ===== src/Base/Text.antt =====
-- What the SDK uses of Go's package strings. A Go string or byte slice is a native text.
use Prim.Native.Char.{Char, code}
use banyan_hub_sdk.Base.Tests.{leb, if◌then◌else◌}
use Prim.Native.Nat.{ℕ, compare, Ordering}
use Prim.Native.String.{String}
use mathlib.Core.Bool.{Bool, true, false, ◌&&◌, ◌||◌}

abbrev is : ℕ → ℕ → Bool
is a b = elim (compare a b) [ Ordering.eq ↦ true | _ ↦ false ]

-- `unicode.IsSpace`
unfoldable pub is_space : Char → Bool
is_space c =
    let n = code c in
    (leb 9 n && leb n 13)
    || is n 0x20
    || is n 0x85
    || is n 0xa0
    || is n 0x1680
    || (leb 0x2000 n && leb n 0x200a)
    || is n 0x2028
    || is n 0x2029
    || is n 0x202f
    || is n 0x205f
    || is n 0x3000

-- `strings.TrimLeftFunc`
unfoldable pub trim_left : (Char → Bool) → String → String
trim_left p String.[] = String.[]
trim_left p (String.◌∷◌ c s) = if p c then trim_left p s else String.◌∷◌ c s

-- What is left when a character is put in front of a text that was trimmed on the right.
keep_right : (Char → Bool) → Char → String → String
keep_right p c String.[] = if p c then String.[] else String.◌∷◌ c String.[]
keep_right p c (String.◌∷◌ d s) = String.◌∷◌ c (String.◌∷◌ d s)

-- `strings.TrimRightFunc`
unfoldable pub trim_right : (Char → Bool) → String → String
unfolding keep_right
trim_right p String.[] = String.[]
trim_right p (String.◌∷◌ c s) = keep_right p c (trim_right p s)

-- `strings.TrimSpace`, and `bytes.TrimSpace`
unfoldable pub trim_space : String → String
unfolding is_space trim_left trim_right
trim_space s = trim_right is_space (trim_left is_space s)

-- `s == ""`
abbrev pub is_empty : String → Bool
is_empty String.[] = true
is_empty (String.◌∷◌ _ _) = false

-- `strings.HasPrefix(s, prefix)`
unfoldable pub has_prefix : String → String → Bool
has_prefix s String.[] = true
has_prefix String.[] (String.◌∷◌ p prefix) = false
has_prefix (String.◌∷◌ c s) (String.◌∷◌ p prefix) = is (code c) (code p) && has_prefix s prefix

-- A text without its first characters, as many as the other has.
drop_length : String → String → String
drop_length s String.[] = s
drop_length String.[] (String.◌∷◌ p prefix) = String.[]
drop_length (String.◌∷◌ c s) (String.◌∷◌ p prefix) = drop_length s prefix

-- `strings.TrimPrefix`
unfoldable pub trim_prefix : String → String → String
unfolding has_prefix drop_length
trim_prefix s prefix = if has_prefix s prefix then drop_length s prefix else s
