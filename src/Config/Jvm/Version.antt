-- ===== src/Config/Jvm/Version.antt =====
-- The two regular expressions of createServerJVMOptions over the name of an options file.
use Prim.Native.Char.{code}
use Prim.Native.String.{[], ◌∷◌}
use k8ssandra_client.Common.{
  ℕ, ◌+◌, ◌*◌, ◌-◌, String, Bool, true, false, ◌&&◌, ◌||◌, Option, none, some, has_prefix, contains,
  nat_eq, leb, if◌then◌else◌,
}

-- The part of a text before its first newline, which `.` does not match.
abbrev first_line : String → String
first_line [] = ""
first_line (c ∷ s) = if nat_eq (code c) 10 then "" else c ∷ first_line s

abbrev drop3 : String → String
drop3 (a ∷ b ∷ c ∷ s) = s
drop3 _ = ""

-- regexp.MatchString(`jvm.*-server\.options`, filename)
unfoldable pub is_server_options : String → Bool
is_server_options [] = false
is_server_options (c ∷ s) =
    (has_prefix (c ∷ s) "jvm" && contains (first_line (drop3 (c ∷ s))) "-server.options")
    || is_server_options s

-- `\d+` and the rest, of which the caller has seen `seen` digits with the value `n`; `none` where
-- "-server.options" does not follow at least one digit.
abbrev version_digits : Bool → ℕ → String → Option ℕ
version_digits seen n [] = none
version_digits seen n (c ∷ s) =
    let more = version_digits true (n * 10 + (code c - 48)) s in
    if leb 48 (code c) && leb (code c) 57
    then more
    else if seen && has_prefix (c ∷ s) "-server.options"
    then some n
    else none

abbrev first_of_two : Option ℕ → Option ℕ → Option ℕ
first_of_two none o = o
first_of_two (some n) o = some n

-- regexp.MustCompile(`jvm(\d+)-server\.options`).FindStringSubmatch, and Atoi of the group
abbrev find_version : String → Option ℕ
find_version [] = none
find_version (c ∷ s) =
    first_of_two (if has_prefix (c ∷ s) "jvm" then version_digits false 0 (drop3 (c ∷ s)) else none)
      (find_version s)

abbrev or_default : Option ℕ → ℕ
or_default none = 8
or_default (some n) = n

-- 8 where the name has no version. (Atoi of a group beyond the range of `int` is not modelled.)
unfoldable pub jvm_version : String → ℕ
jvm_version filename = or_default (find_version filename)
