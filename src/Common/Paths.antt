-- ===== src/Common/Paths.antt =====
-- filepath.Clean, Join and Base on Unix, over the native texts.
use Prim.Native.Char.{Char, code}
use Prim.Native.String.{String, [], ◌∷◌}
use mathlib.Core.Bool.{Bool, true, false, ◌||◌}
use mathlib.Core.List.{List, [], ◌∷◌, reverse}
use text.Mathlib.Text.{◌==◌}
use k8ssandra_client.Common.Tests.{nat_eq, if◌then◌else◌}
use k8ssandra_client.Common.Text.{concat}

abbrev first_char : Char → List String → List String
first_char c [] = (c ∷ "") ∷ []
first_char c (l ∷ ls) = (c ∷ l) ∷ ls

-- strings.Split(path, "/")
abbrev pub split_slash : String → List String
split_slash [] = "" ∷ []
split_slash (c ∷ s) =
    let rest = split_slash s in if nat_eq (code c) b'/' then "" ∷ rest else first_char c rest

abbrev is_rooted : String → Bool
is_rooted [] = false
is_rooted (c ∷ s) = nat_eq (code c) b'/'

-- ".." goes up, where there is a directory to leave; the stack has its top at the head.
abbrev go_up : Bool → List String → List String
go_up rooted [] = if rooted then [] else ".." ∷ []
go_up rooted (top ∷ stack) = if top == ".." then ".." ∷ top ∷ stack else stack

abbrev clean_part : Bool → List String → String → List String
clean_part rooted stack part =
    if part == "" || part == "."
    then stack
    else if part == ".."
    then go_up rooted stack
    else part ∷ stack

abbrev clean_parts : Bool → List String → List String → List String
clean_parts rooted stack [] = reverse stack
clean_parts rooted stack (part ∷ parts) = clean_parts rooted (clean_part rooted stack part) parts

abbrev pub join_slash : List String → String
join_slash [] = ""
join_slash (s ∷ []) = s
join_slash (s ∷ t ∷ ss) = concat (s ∷ "/" ∷ join_slash (t ∷ ss) ∷ [])

abbrev show_path : Bool → List String → String
show_path true parts = concat ("/" ∷ join_slash parts ∷ [])
show_path false [] = "."
show_path false (p ∷ parts) = join_slash (p ∷ parts)

unfoldable pub clean : String → String
clean path = show_path (is_rooted path) (clean_parts (is_rooted path) [] (split_slash path))

-- filepath.Join of two elements, which leaves out an empty one.
unfoldable pub join_path : String → String → String
unfolding clean
join_path dir name =
    if dir == ""
    then (if name == "" then "" else clean name)
    else if name == ""
    then clean dir
    else clean (concat (dir ∷ "/" ∷ name ∷ []))
