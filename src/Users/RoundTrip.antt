-- ===== src/Users/RoundTrip.antt =====
-- The file of users: what is written as lines name=password is read back.
use k8ssandra_client.Common.{
  String, false, Option, none, some, List, [], ◌∷◌, ◌++◌, map, All, append-nil, append_assoc, Dict,
  insert, lookup, HasUniqueKeys, Result, ok, err, panic, ◌==◌, eq_iff, eq_refl, Bool-cases, inl,
  inr, lookup-insert, lookup-nil, ◌≡◌, refl, sym, ap, ◌∙◌, arith, if◌then◌else◌,
}
use k8ssandra_client.Common.Disk.{Disk, Entry, file, dir, stat, read_file}
use k8ssandra_client.Users.Secrets.{
  add_lines, read_target_file, read_target_path, Visit, beside, read_target_secret_mount,
}
use k8ssandra_client.Users.Lines.{
  IsUser, user_line, print_lines, split_n-user_line, scan_lines-users,
}

-- No user of the list is in the map yet.
abbrev Fresh : Dict String → Dict String → Type 0
Fresh acc users = All (λ u. lookup u.0 acc ≡ none) users

not_first :
    (key n p : String) (users : Dict String)
    → lookup key ((n, p) ∷ users) ≡ none
    → ((n == key) ≡ false) × (lookup key users ≡ none)
unfolding lookup
not_first key n p users h = elim (Bool-cases (n == key)) [
  | inl same ↦ absurd (some_none (sym (ap (λ b. if b then some p else lookup key users) same) ∙ h))
  | inr apart ↦ (apart, sym (ap (λ b. if b then some p else lookup key users) apart) ∙ h)
]
  where
    some_none : {v : String} → some v ≡ none → ⊥
    some_none e = cc

Fresh-insert :
    (name password : String) (acc users : Dict String)
    → lookup name users ≡ none
    → Fresh acc users
    → Fresh (insert name password acc) users
Fresh-insert name password acc [] h k = tt
Fresh-insert name password acc ((n, p) ∷ users) h (f, k) =
    let (apart, rest) = not_first name n p users h in
    (
      lookup-insert name n password acc
          ∙ ground (arith, eq_iff name n, eq_iff n name, apart, f, eq_refl n),
      Fresh-insert name password acc users rest k,
    )

insert-fresh :
    (name password : String) (acc : Dict String)
    → lookup name acc ≡ none
    → insert name password acc ≡ acc ++ (name, password) ∷ []
unfolding insert lookup
insert-fresh name password [] h = refl
insert-fresh name password ((n, p) ∷ acc) h = ground (arith, insert-fresh name password acc)

add_lines-users :
    (acc users : Dict String)
    → All IsUser users
    → HasUniqueKeys users
    → Fresh acc users
    → add_lines acc (map user_line users) ≡ acc ++ users
add_lines-users acc [] h u f = sym (append-nil acc)
add_lines-users acc ((name, password) ∷ users) ((e, n, r, m, s, fits), h) (single, u) (fresh, f) =
    ap
      (λ (o : Option (String × String)).
        add_lines (elim o [ none ↦ acc | some (k, v) ↦ insert k v acc ]) (map user_line users))
      (split_n-user_line name password e)
    ∙ add_lines-users (insert name password acc) users h u
        (Fresh-insert name password acc users single f)
    ∙ ap (λ m. m ++ users) (insert-fresh name password acc fresh)
    ∙ append_assoc acc ((name, password) ∷ []) users

Fresh-nil : (users : Dict String) → Fresh [] users
Fresh-nil [] = tt
Fresh-nil ((n, p) ∷ users) = (lookup-nil n, Fresh-nil users)

read_target_file-print :
    (path : String) (disk : Disk) (users : Dict String)
    → All IsUser users
    → HasUniqueKeys users
    → read_file path disk ≡ ok (print_lines (map user_line users))
    → read_target_file path disk ≡ ok users
unfolding read_target_file
read_target_file-print path disk users h u r =
    rw r rw (scan_lines-users users h) (ap ok (add_lines-users [] users h u (Fresh-nil users)))

stat-found :
    (path : String) (entry : Entry) (disk : Disk)
    → disk.stat_fault path ≡ none
    → lookup path disk.entries ≡ some entry
    → stat path disk ≡ ok entry
unfolding stat
stat-found path entry disk s e = rw s rw e refl

read_file-found :
    (path text : String) (disk : Disk)
    → disk.read_fault path ≡ none
    → lookup path disk.entries ≡ some (file text)
    → read_file path disk ≡ ok text
unfolding read_file
read_file-found path text disk r e = rw r rw e refl

-- Where a file can be read and holds a line name=password for each user of a map, the names
-- without = and, like the passwords, without line breaks, and no line longer than the scanner
-- takes, ReadTargetPath gives the map back.
pub read_target_path-print :
    (walk_dir : String → List Visit) (path : String) (disk : Disk) (users : Dict String)
    → All IsUser users
    → HasUniqueKeys users
    → disk.stat_fault path ≡ none
    → disk.read_fault path ≡ none
    → lookup path disk.entries ≡ some (file (print_lines (map user_line users)))
    → read_target_path walk_dir path disk ≡ ok (users, none)
unfolding read_target_path
read_target_path-print walk_dir path disk users h u s r e =
    ap
      (λ (found : Result Entry). elim found [
        | ok dir ↦ read_target_secret_mount walk_dir path disk
        | ok (file text) ↦ beside (read_target_file path disk)
        | err x ↦ ok ([], some x)
        | panic ↦ panic
      ])
      (stat-found path (file (print_lines (map user_line users))) disk s e)
    ∙ ap beside (
        read_target_file-print path disk users h u
          (read_file-found path (print_lines (map user_line users)) disk r e))
