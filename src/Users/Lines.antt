-- ===== src/Users/Lines.antt =====
-- The lines of a file of users, as the scanner finds them and as they are split.
use Prim.Native.String
use Prim.Native.Char.{code}
use text.Mathlib.TextLemmas
use k8ssandra_client.Common.{
  ℕ, String, false, some, List, [], ◌∷◌, ◌++◌, map, any, All, ok, scan_lines, split_lines, nat_eq,
  leb, ◌≡◌, refl, sym, ap, subst, ◌∙◌, arith,
}
use k8ssandra_client.Common.Scan.{drop_cr, drop_last_empty, max_scan_token_size}
use k8ssandra_client.Users.Secrets.{split_n}

-- A text without a character.
abbrev pub Lacks : ℕ → String → Type 0
Lacks c String.[] = Unit
Lacks c (String.◌∷◌ d s) = (nat_eq (code d) c ≡ false) × Lacks c s

abbrev pub user_line : String × String → String
user_line (name, password) = String.◌++◌ name (String.◌∷◌ "=" password)

abbrev pub print_lines : List String → String
print_lines [] = ""
print_lines (l ∷ ls) = String.◌++◌ l (String.◌∷◌ "\n" (print_lines ls))

-- A name without "=" and line breaks, a password without line breaks, and a line that fits.
abbrev pub IsUser : String × String → Type 0
IsUser (name, password) =
    Lacks b'=' name
    × Lacks 10 name
    × Lacks 13 name
    × Lacks 10 password
    × Lacks 13 password
    × (leb max_scan_token_size (String.len (user_line (name, password))) ≡ false)

pub split_n-user_line :
    (name password : String)
    → Lacks b'=' name
    → split_n (user_line (name, password)) ≡ some (name, password)
split_n-user_line String.[] password h = rw (TextLemmas.nil-append (String.◌∷◌ "=" password)) refl
split_n-user_line (String.◌∷◌ c s) password (n, h) =
    rw (TextLemmas.cons-append c s (String.◌∷◌ "=" password))
      (ground (arith, n, split_n-user_line s password h))

Lacks-append : (c : ℕ) (s t : String) → Lacks c s → Lacks c t → Lacks c (String.◌++◌ s t)
Lacks-append c String.[] t h k = subst (Lacks c) (sym (TextLemmas.nil-append t)) k
Lacks-append c (String.◌∷◌ d s) t (n, h) k =
    subst (Lacks c) (sym (TextLemmas.cons-append d s t)) (n, Lacks-append c s t h k)

split_lines-print :
    (l rest : String)
    → Lacks 10 l
    → split_lines (String.◌++◌ l (String.◌∷◌ "\n" rest)) ≡ l ∷ split_lines rest
split_lines-print String.[] rest h = rw (TextLemmas.nil-append (String.◌∷◌ "\n" rest)) refl
split_lines-print (String.◌∷◌ c s) rest (n, h) =
    rw (TextLemmas.cons-append c s (String.◌∷◌ "\n" rest))
      (ground (arith, n, split_lines-print s rest h))

drop_cr_lem : (l : String) → Lacks 13 l → drop_cr l ≡ l
drop_cr_lem String.[] h = refl
drop_cr_lem (String.◌∷◌ c String.[]) (n, h) = ground (arith, n)
drop_cr_lem (String.◌∷◌ c (String.◌∷◌ d s)) (n, h) =
    ap (String.◌∷◌ c) (drop_cr_lem (String.◌∷◌ d s) h)

Lacks-user_line :
    (c : ℕ) (name password : String)
    → nat_eq (code "=") c ≡ false
    → Lacks c name
    → Lacks c password
    → Lacks c (user_line (name, password))
Lacks-user_line c name password e h k = Lacks-append c name (String.◌∷◌ "=" password) h (e, k)

drop_last_empty-cons :
    (l m : String) (ls : List String) → drop_last_empty (l ∷ m ∷ ls) ≡ l ∷ drop_last_empty (m ∷ ls)
drop_last_empty-cons String.[] m ls = refl
drop_last_empty-cons (String.◌∷◌ c s) m ls = refl

drop_last_empty-append : (ls : List String) → drop_last_empty (ls ++ "" ∷ []) ≡ ls
drop_last_empty-append [] = refl
drop_last_empty-append (l ∷ []) = drop_last_empty-cons l "" []
drop_last_empty-append (l ∷ m ∷ ls) =
    drop_last_empty-cons l m (ls ++ "" ∷ []) ∙ ap (λ t. l ∷ t) (drop_last_empty-append (m ∷ ls))

split_lines-users :
    (users : List (String × String))
    → All IsUser users
    → split_lines (print_lines (map user_line users)) ≡ map user_line users ++ "" ∷ []
split_lines-users [] h = refl
split_lines-users ((name, password) ∷ users) ((e, n, r, m, s, f), h) =
    split_lines-print (user_line (name, password)) (print_lines (map user_line users))
      (Lacks-user_line 10 name password refl n m)
    ∙ ap (λ t. user_line (name, password) ∷ t) (split_lines-users users h)

drop_cr-users :
    (users : List (String × String))
    → All IsUser users
    → map drop_cr (map user_line users) ≡ map user_line users
drop_cr-users [] h = refl
drop_cr-users ((name, password) ∷ users) ((e, n, r, m, s, f), h) =
    rw (drop_cr_lem (user_line (name, password)) (Lacks-user_line 13 name password refl r s))
      (ap (λ t. user_line (name, password) ∷ t) (drop_cr-users users h))

fits-users :
    (users : List (String × String))
    → All IsUser users
    → any (λ l. leb max_scan_token_size (String.len l)) (map user_line users ++ "" ∷ []) ≡ false
fits-users [] h = refl
fits-users ((name, password) ∷ users) ((e, n, r, m, s, f), h) =
    ground (arith, f, fits-users users h)

pub scan_lines-users :
    (users : List (String × String))
    → All IsUser users
    → scan_lines (print_lines (map user_line users)) ≡ ok (map user_line users)
scan_lines-users users h = rw (split_lines-users users h) rw (fits-users users h) (
    ap ok (ap (map drop_cr) (drop_last_empty-append (map user_line users)) ∙ drop_cr-users users h))
