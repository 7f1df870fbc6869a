-- ===== src/Common/Scan.antt =====
-- bufio.Scanner with its default split function: the lines of a text, without "\n" and without one
-- "\r" before it.
use Prim.Native.Nat.{ℕ}
use Prim.Native.Char.{Char, code}
use Prim.Native.String.{String, [], ◌∷◌, len}
use mathlib.Core.List.{List, [], ◌∷◌, map}
use k8ssandra_client.Common.Tests.{nat_eq, leb, if◌then◌else◌}
use k8ssandra_client.Common.Lists.{any}
use k8ssandra_client.Common.Results.{Result, ok, err}
use k8ssandra_client.Common.Errors.{message}

abbrev pub drop_cr : String → String
drop_cr [] = ""
drop_cr (c ∷ []) = if nat_eq (code c) 13 then "" else c ∷ ""
drop_cr (c ∷ d ∷ s) = c ∷ drop_cr (d ∷ s)

-- The character goes to the front of the first line.
abbrev pub push_first : Char → List String → List String
push_first c [] = (c ∷ "") ∷ []
push_first c (l ∷ ls) = (c ∷ l) ∷ ls

-- The texts between the newlines, at least one.
abbrev pub split_lines : String → List String
split_lines [] = "" ∷ []
split_lines (c ∷ s) =
    let rest = split_lines s in if nat_eq (code c) 10 then "" ∷ rest else push_first c rest

-- What follows the last newline is a line only if it is not empty.
abbrev pub drop_last_empty : List String → List String
drop_last_empty [] = []
drop_last_empty ([] ∷ []) = []
drop_last_empty ((c ∷ s) ∷ []) = (c ∷ s) ∷ []
drop_last_empty (l ∷ m ∷ ls) = l ∷ drop_last_empty (m ∷ ls)

-- bufio.MaxScanTokenSize: a longer line ends the scan with ErrTooLong.
abbrev pub max_scan_token_size : ℕ
max_scan_token_size = 65536

abbrev pub scan_lines : String → Result (List String)
scan_lines s =
    if any (λ l. leb max_scan_token_size (len l)) (split_lines s)
    then err (message "bufio.Scanner: token too long")
    else ok (map drop_cr (drop_last_empty (split_lines s)))
