-- ===== src/Common/Text.antt =====
-- The functions of Go's `strings` package that the program calls, over the native texts.
use Prim.Native.Nat.{ℕ, zero, suc}
use Prim.Native.Char.{Char, code}
use Prim.Native.String
use Prim.Native.String.{String, [], ◌∷◌}
use mathlib.Core.Bool.{Bool, true, false, ◌&&◌, ◌||◌}
use mathlib.Core.Option.{Option, none, some}
use mathlib.Core.Option
use mathlib.Core.List.{List, [], ◌∷◌}
use k8ssandra_client.Common.Tests.{nat_eq, leb, if◌then◌else◌}

abbrev pub char_eq : Char → Char → Bool
char_eq c d = nat_eq (code c) (code d)

-- fmt.Sprintf with %s holes, and strings.Join with an empty separator.
abbrev pub concat : List String → String
concat [] = ""
concat (s ∷ ss) = String.◌++◌ s (concat ss)

-- strings.HasPrefix
abbrev pub has_prefix : String → String → Bool
has_prefix s [] = true
has_prefix [] (d ∷ p) = false
has_prefix (c ∷ s) (d ∷ p) = char_eq c d && has_prefix s p

-- strings.Contains
abbrev pub contains : String → String → Bool
contains [] sub = has_prefix "" sub
contains (c ∷ s) sub = has_prefix (c ∷ s) sub || contains s sub

-- strings.Index of a one-byte text; `none` is -1.
abbrev pub index : ℕ → String → Option ℕ
index b [] = none
index b (c ∷ s) = if nat_eq (code c) b then some 0 else Option.map suc (index b s)

-- s[:n] at a character boundary.
abbrev pub take_text : ℕ → String → String
take_text zero s = ""
take_text (suc n) [] = ""
take_text (suc n) (c ∷ s) = c ∷ take_text n s

-- unicode.IsSpace
abbrev pub is_space : Char → Bool
is_space c =
    let n = code c in
    (leb 9 n && leb n 13)
    || nat_eq n 32
    || nat_eq n 0x85
    || nat_eq n 0xA0
    || nat_eq n 0x1680
    || (leb 0x2000 n && leb n 0x200A)
    || nat_eq n 0x2028
    || nat_eq n 0x2029
    || nat_eq n 0x202F
    || nat_eq n 0x205F
    || nat_eq n 0x3000

-- strings.TrimSpace, one side at a time.
abbrev pub trim_left : String → String
trim_left [] = ""
trim_left (c ∷ s) = if is_space c then trim_left s else c ∷ s

abbrev pub keep_right : Char → String → String
keep_right c [] = if is_space c then "" else c ∷ ""
keep_right c (d ∷ s) = c ∷ d ∷ s

abbrev pub trim_right : String → String
trim_right [] = ""
trim_right (c ∷ s) = keep_right c (trim_right s)

abbrev pub trim_space : String → String
trim_space s = trim_right (trim_left s)
