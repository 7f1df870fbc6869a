-- ===== src/Register/Cleaned.antt =====
-- What CleanupForKubernetes makes of a text, by the codes of its characters.
use Prim.Native.Char.{Char, code}
use Prim.Native.String
use text.Mathlib.TextLemmas
use k8ssandra_client.Common.{
  ℕ, ◌≤◌, String, Bool, true, false, not, ◌||◌, ◌&&◌, ◌∷◌, concat, nat_eq, leb, leb→le, ◌==◌, ◌≡◌,
  ◌≢◌, ◌⊎◌, inl, inr, refl, sym, ap, subst, ◌∙◌, arith, if◌then◌else◌, Bool-cases,
}
use k8ssandra_client.Tasks.Names.{text_length}
use k8ssandra_client.Register.Names.{
  is_letter, is_alnum, is_part, longest_tail, find_all, with_dashes, to_lower,
  cleanup_for_kubernetes,
}
use k8ssandra_client.Register.Labels.{IsTail, IsLabel, find_all-IsLabel, concat-IsLabel}

-- A letter of a to z, a digit, and a dash, in ASCII.
abbrev pub IsLower : Char → Type 0
IsLower c = (97 ≤ code c) × (code c ≤ 122)

abbrev pub IsDigit : Char → Type 0
IsDigit c = (48 ≤ code c) × (code c ≤ 57)

abbrev pub IsDash : Char → Type 0
IsDash c = code c ≡ 45

-- Letters, digits and dashes that end in no dash, and those after a letter.
abbrev pub IsRest : String → Type 0
IsRest String.[] = Unit
IsRest (String.◌∷◌ c String.[]) = IsLower c ⊎ IsDigit c
IsRest (String.◌∷◌ c (String.◌∷◌ d s)) =
    (IsLower c ⊎ (IsDigit c ⊎ IsDash c)) × IsRest (String.◌∷◌ d s)

abbrev pub IsName : String → Type 0
IsName String.[] = ⊥
IsName (String.◌∷◌ c s) = IsLower c × IsRest s

between : (a b n : ℕ) → (leb a n && leb n b) ≡ true → (a ≤ n) × (n ≤ b)
between a b n h = elim (Bool-cases (leb a n)) [
  | inl low ↦ (leb→le a n low, leb→le n b (ground (arith, h, low)))
  | inr e ↦ absurd (ground (arith, h, e))
]

letter_lem : (c : Char) → is_letter c ≡ true → IsLower c
letter_lem c h = between 97 122 (code c) h

alnum_lem : (c : Char) → is_alnum c ≡ true → IsLower c ⊎ IsDigit c
alnum_lem c h = elim (Bool-cases (is_letter c)) [
  | inl e ↦ inl (letter_lem c e)
  | inr e ↦
      inr (between 48 57 (code c) (ap (λ b. b || (leb 48 (code c) && leb (code c) 57)) (sym e) ∙ h))
]

part_lem : (c : Char) → is_part c ≡ true → IsLower c ⊎ (IsDigit c ⊎ IsDash c)
part_lem c h = elim (Bool-cases (is_alnum c)) [
  | inl e ↦ elim (alnum_lem c e) [ inl l ↦ inl l | inr d ↦ inr (inl d) ]
  | inr e ↦ inr (inr (dash (ap (λ b. b || nat_eq (code c) 45) (sym e) ∙ h)))
]
  where
    dash : nat_eq (code c) 45 ≡ true → code c ≡ 45
    dash k = ground (arith, k)

rest_lem : (s : String) → IsTail s → IsRest s
rest_lem String.[] h = tt
rest_lem (String.◌∷◌ c String.[]) h = alnum_lem c h
rest_lem (String.◌∷◌ c (String.◌∷◌ d s)) (p, h) = (part_lem c p, rest_lem (String.◌∷◌ d s) h)

name_lem : (s : String) → IsLabel s → IsName s
name_lem String.[] h = h
name_lem (String.◌∷◌ c s) (l, h) = (letter_lem c l, rest_lem s h)

-- `t` is `s` with characters left out.
abbrev Within : String → String → Type 0
Within t String.[] = t ≡ ""
Within t (String.◌∷◌ c s) = Within t s ⊎ ((t' : String) × (t ≡ String.◌∷◌ c t') × Within t' s)

abbrev Starts : String → String → Type 0
Starts String.[] s = Unit
Starts (String.◌∷◌ c t) String.[] = ⊥
Starts (String.◌∷◌ c t) (String.◌∷◌ d s) = (c ≡ d) × Starts t s

kept-Starts :
    (c : Char) (s rest : String) (part more : Bool)
    → Starts rest s
    → Starts (if not part then "" else if more then String.◌∷◌ c rest else "") (String.◌∷◌ c s)
kept-Starts c s rest false more h = tt
kept-Starts c s rest true true h = (refl, h)
kept-Starts c s rest true false h = tt

longest_tail-Starts : (s : String) → Starts (longest_tail s) s
unfolding longest_tail
longest_tail-Starts String.[] = tt
longest_tail-Starts (String.◌∷◌ c s) =
    kept-Starts c s (longest_tail s) (is_part c) (is_alnum c || not (longest_tail s == ""))
      (longest_tail-Starts s)

-- A match that begins a text, and the matches behind it.
abbrev rest_of : String → String → String
rest_of t s = String.◌++◌ t (concat (find_all (text_length t) s))

no_text : (t : String) → rest_of "" t ≡ concat (find_all 0 t)
no_text t = TextLemmas.nil-append (concat (find_all 0 t))

matched-Within :
    (c : Char) (s : String) (b : Bool)
    → Within (rest_of (longest_tail s) s) s
    → Within (concat (find_all 0 s)) s
    → Within
        (concat (
          if b
          then String.◌∷◌ c (longest_tail s) ∷ find_all (text_length (longest_tail s)) s
          else find_all 0 s))
        (String.◌∷◌ c s)
matched-Within c s true more others =
    inr (rest_of (longest_tail s) s, TextLemmas.cons-append c (longest_tail s) _, more)
matched-Within c s false more others = inl others

rest_of-Within : (t s : String) → Starts t s → Within (rest_of t s) s
unfolding find_all
rest_of-Within String.[] String.[] h = no_text ""
rest_of-Within String.[] (String.◌∷◌ c s) h =
    subst (λ u. Within u (String.◌∷◌ c s)) (sym (no_text (String.◌∷◌ c s)))
      (matched-Within c s (is_letter c) (rest_of-Within (longest_tail s) s (longest_tail-Starts s))
        (subst (λ u. Within u s) (no_text s) (rest_of-Within "" s tt)))
rest_of-Within (String.◌∷◌ c t) String.[] h = absurd h
rest_of-Within (String.◌∷◌ c t) (String.◌∷◌ d s) (same, h) = inr (
  rest_of t s,
  TextLemmas.cons-append c t (concat (find_all (text_length t) s))
      ∙ ap (λ x. String.◌∷◌ x (rest_of t s)) same,
  rest_of-Within t s h,
)

-- `d` stands for `c`: its lower case, but a dash for an underscore.
abbrev pub StandsFor : (Char → Char) → Char → Char → Type 0
StandsFor lower c d = ((code (lower c) ≢ 95) × (d ≡ lower c)) ⊎ ((code (lower c) ≡ 95) × IsDash d)

-- `t` has, in their order, what stands for some of the characters of `s`, and nothing else.
abbrev pub IsCleaned : (Char → Char) → String → String → Type 0
IsCleaned lower String.[] t = t ≡ ""
IsCleaned lower (String.◌∷◌ c s) t =
    IsCleaned lower s t
    ⊎ ((d : Char) × (t' : String) × (t ≡ String.◌∷◌ d t')
        × StandsFor lower c d
        × IsCleaned lower s t')

Within-IsCleaned :
    (lower : Char → Char) (s t : String)
    → Within t (with_dashes (to_lower lower s))
    → IsCleaned lower s t
Within-IsCleaned lower String.[] t h = h
Within-IsCleaned lower (String.◌∷◌ c s) t h = elim (Bool-cases (nat_eq (code (lower c)) b'_')) [
  | inl e ↦ elim (rewritten true e h) [
    | inl out ↦ inl (Within-IsCleaned lower s t out)
    | inr (t', is, w) ↦
        inr ("-", t', is, inr (ground (arith, e), refl), Within-IsCleaned lower s t' w)
  ]
  | inr e ↦ elim (rewritten false e h) [
    | inl out ↦ inl (Within-IsCleaned lower s t out)
    | inr (t', is, w) ↦
        inr (lower c, t', is, inl (λ k. ground (arith, e, k), refl), Within-IsCleaned lower s t' w)
  ]
]
  where
    rewritten :
        (b : Bool)
        → nat_eq (code (lower c)) b'_' ≡ b
        → Within t (with_dashes (to_lower lower (String.◌∷◌ c s)))
        → Within t (
            if b
            then String.◌∷◌ "-" (with_dashes (to_lower lower s))
            else String.◌∷◌ (lower c) (with_dashes (to_lower lower s)))
    rewritten b e h =
        subst
          (λ b. Within t (
            if b
            then String.◌∷◌ "-" (with_dashes (to_lower lower s))
            else String.◌∷◌ (lower c) (with_dashes (to_lower lower s))))
          e h

found-IsCleaned :
    (lower : Char → Char) (s : String)
    → IsCleaned lower s (concat (find_all 0 (with_dashes (to_lower lower s))))
found-IsCleaned lower s =
    let cleaned = with_dashes (to_lower lower s) in
    Within-IsCleaned lower s (concat (find_all 0 cleaned))
      (subst (λ u. Within u cleaned) (no_text cleaned) (rest_of-Within "" cleaned tt))

found-IsName :
    (lower : Char → Char) (s : String)
    → (concat (find_all 0 (with_dashes (to_lower lower s))) ≡ "")
      ⊎ IsName (concat (find_all 0 (with_dashes (to_lower lower s))))
found-IsName lower s =
    let found = find_all 0 (with_dashes (to_lower lower s)) in
    elim (concat-IsLabel found (find_all-IsLabel 0 (with_dashes (to_lower lower s)))) [
      | inl nothing ↦ inl nothing
      | inr label ↦ inr (name_lem (concat found) label)
    ]

-- What CleanupForKubernetes returns is a text that was accepted as it is, or it is made of what
-- stands for some of the characters of the input in their order, the lower case of a character but
-- a dash for an underscore, and is empty or a letter of a to z followed by letters of a to z,
-- digits and dashes that end in no dash.
pub cleanup_for_kubernetes-IsClean :
    (is_dns1035_label : String → Bool) (lower : Char → Char) (input : String)
    → ((cleanup_for_kubernetes is_dns1035_label lower input ≡ input)
        × (is_dns1035_label input ≡ true))
      ⊎ (IsCleaned lower input (cleanup_for_kubernetes is_dns1035_label lower input)
          × ((cleanup_for_kubernetes is_dns1035_label lower input ≡ "")
              ⊎ IsName (cleanup_for_kubernetes is_dns1035_label lower input)))
unfolding cleanup_for_kubernetes
cleanup_for_kubernetes-IsClean is_dns1035_label lower input =
    elim (Bool-cases (is_dns1035_label input)) [
      | inl valid ↦ rw valid (inl (refl, refl))
      | inr refused ↦ rw refused (inr (found-IsCleaned lower input, found-IsName lower input))
    ]
