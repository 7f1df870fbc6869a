-- ===== src/Users/Secrets.antt =====
-- pkg/secrets/mount.go: user names and passwords from a file or from a mounted secret.
use k8ssandra_client.Common.{
  String, Bool, Option, none, some, List, [], ◌∷◌, Dict, insert, Error, Result, ok, err, panic,
  scan_lines, nat_eq, ◌==◌, if◌then◌else◌, ◌>>=◌,
}
use k8ssandra_client.Common.Disk.{Disk, file, dir, stat, read_file}
use Prim.Native.Char.{code}

-- strings.SplitN(line, "=", 2), where it has two parts.
abbrev pub split_n : String → Option (String × String)
split_n String.[] = none
split_n (String.◌∷◌ c s) =
    let rest = split_n s in
    if nat_eq (code c) b'='
    then some ("", s)
    else elim rest [ none ↦ none | some (k, v) ↦ some (String.◌∷◌ c k, v) ]

-- users[userInfo[0]] = userInfo[1]
abbrev pub add_line : Dict String → String → Dict String
add_line users line = elim (split_n line) [ none ↦ users | some (k, v) ↦ insert k v users ]

abbrev pub add_lines : Dict String → List String → Dict String
add_lines users [] = users
add_lines users (line ∷ lines) = add_lines (add_line users line) lines

unfoldable pub read_target_file : String → Disk → Result (Dict String)
read_target_file path disk = do
  text ← read_file path disk
  lines ← scan_lines text
  ok (add_lines [] lines)

-- What filepath.WalkDir calls its function with.
pub record Visit : Type 0 where
  pub path : String
  pub name : String
  pub is_dir : Bool
  pub fault : Option Error

-- The user name and the password that were read so far.
unfoldable pub remember : String → String → String × String → String × String
remember name text (username, password) =
    if name == "password"
    then (username, text)
    else if name == "username"
    then (text, password)
    else (username, password)

unfoldable pub visit : Disk → Visit → String × String → Result (String × String)
visit disk v pair = elim v.fault [
  | some e ↦ err e
  | none ↦
      if v.is_dir
      then ok pair
      else (do text ← read_file v.path disk; ok (remember v.name text pair))
]

-- A value beside an error, of which one is usually nil.
abbrev pub Both {ℓ} : Type ℓ → Type ℓ
Both A = Result (A × Option Error)

-- The walk ends at the first error. The pair is kept beside it.
unfoldable pub walk : Disk → List Visit → String × String → Both (String × String)
walk disk [] pair = ok (pair, none)
walk disk (v ∷ vs) pair = elim (visit disk v pair) [
  | ok next ↦ walk disk vs next
  | err e ↦ ok (pair, some e)
  | panic ↦ panic
]

-- `walk_dir` gives the visits of filepath.WalkDir, in its order.
unfoldable pub read_target_secret_mount : (String → List Visit) → String → Disk → Both (Dict String)
read_target_secret_mount walk_dir path disk = do
  ((username, password), e) ← walk disk (walk_dir path) ("", "")
  ok ((username, password) ∷ [], e)

abbrev pub beside : Result (Dict String) → Both (Dict String)
beside (ok users) = ok (users, none)
beside (err e) = ok ([], some e)
beside panic = panic

unfoldable pub read_target_path : (String → List Visit) → String → Disk → Both (Dict String)
read_target_path walk_dir path disk = elim (stat path disk) [
  | ok dir ↦ read_target_secret_mount walk_dir path disk
  | ok (file text) ↦ beside (read_target_file path disk)
  | err e ↦ ok ([], some e)
  | panic ↦ panic
]
