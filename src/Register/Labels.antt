-- ===== src/Register/Labels.antt =====
-- What CleanupForKubernetes makes of a text.
use Prim.Native.Char.{Char, code}
use Prim.Native.String
use text.Mathlib.TextLemmas
use k8ssandra_client.Common.{
  ℕ, zero, suc, String, Bool, true, false, not, ◌||◌, ◌&&◌, List, [], ◌∷◌, All, concat, nat_eq, leb,
  ◌==◌, ◌≡◌, ◌⊎◌, inl, inr, refl, sym, ap, subst, ◌∙◌, arith, if◌then◌else◌,
}
use k8ssandra_client.Tasks.Names.{text_length}
use k8ssandra_client.Register.Names.{
  is_letter, is_alnum, is_part, longest_tail, find_all, with_dashes, to_lower,
  cleanup_for_kubernetes,
}

-- A text of [-a-z0-9] that is empty or ends in [a-z0-9].
abbrev pub IsTail : String → Type 0
IsTail String.[] = Unit
IsTail (String.◌∷◌ c String.[]) = is_alnum c ≡ true
IsTail (String.◌∷◌ c (String.◌∷◌ d s)) = (is_part c ≡ true) × IsTail (String.◌∷◌ d s)

-- [a-z]([-a-z0-9]*[a-z0-9])?
abbrev pub IsLabel : String → Type 0
IsLabel String.[] = ⊥
IsLabel (String.◌∷◌ c s) = (is_letter c ≡ true) × IsTail s

pub alnum-part : (c : Char) → is_alnum c ≡ true → is_part c ≡ true
alnum-part c h = ap (λ b. b || nat_eq (code c) b'-') h

IsTail-alnum : (c : Char) (s : String) → is_alnum c ≡ true → IsTail s → IsTail (String.◌∷◌ c s)
IsTail-alnum c String.[] e h = e
IsTail-alnum c (String.◌∷◌ d s) e h = (alnum-part c e, h)

IsTail-part :
    (c : Char) (s : String)
    → is_part c ≡ true
    → (s == "") ≡ false
    → IsTail s
    → IsTail (String.◌∷◌ c s)
IsTail-part c String.[] p e h = ground (arith, e)
IsTail-part c (String.◌∷◌ d s) p e h = (p, h)

-- The three cases of a character.
kept-IsTail :
    (c : Char) (rest : String) (part alnum empty : Bool)
    → is_part c ≡ part
    → is_alnum c ≡ alnum
    → (rest == "") ≡ empty
    → IsTail rest
    → IsTail (if not part then "" else if alnum || not empty then String.◌∷◌ c rest else "")
kept-IsTail c rest false alnum empty p a e h = tt
kept-IsTail c rest true true empty p a e h = IsTail-alnum c rest a h
kept-IsTail c rest true false true p a e h = tt
kept-IsTail c rest true false false p a e h = IsTail-part c rest p e h

longest_tail-IsTail : (s : String) → IsTail (longest_tail s)
unfolding longest_tail
longest_tail-IsTail String.[] = tt
longest_tail-IsTail (String.◌∷◌ c s) =
    kept-IsTail c (longest_tail s) (is_part c) (is_alnum c) (longest_tail s == "") refl refl refl
      (longest_tail-IsTail s)

IsTail-append : (s t : String) → IsTail s → IsTail t → IsTail (String.◌++◌ s t)
IsTail-append String.[] t h k = subst IsTail (sym (TextLemmas.nil-append t)) k
IsTail-append (String.◌∷◌ c String.[]) t h k =
    subst IsTail (sym (TextLemmas.cons-append c "" t ∙ ap (String.◌∷◌ c) (TextLemmas.nil-append t)))
      (IsTail-alnum c t h k)
IsTail-append (String.◌∷◌ c (String.◌∷◌ d s)) t (p, h) k =
    subst IsTail
      (sym (
        TextLemmas.cons-append c (String.◌∷◌ d s) t
        ∙ ap (String.◌∷◌ c) (TextLemmas.cons-append d s t)))
      (p, subst IsTail (TextLemmas.cons-append d s t) (IsTail-append (String.◌∷◌ d s) t h k))

pub letter-alnum : (c : Char) → is_letter c ≡ true → is_alnum c ≡ true
letter-alnum c h = ap (λ b. b || (leb b'0' (code c) && leb (code c) b'9')) h

pub find_all-IsLabel : (n : ℕ) (s : String) → All IsLabel (find_all n s)
unfolding find_all
find_all-IsLabel n String.[] = tt
find_all-IsLabel (suc n) (String.◌∷◌ c s) = find_all-IsLabel n s
find_all-IsLabel zero (String.◌∷◌ c s) =
    matched-IsLabel (is_letter c) refl (find_all-IsLabel (text_length (longest_tail s)) s)
      (find_all-IsLabel 0 s)
  where
    matched-IsLabel :
        (b : Bool)
        → is_letter c ≡ b
        → All IsLabel (find_all (text_length (longest_tail s)) s)
        → All IsLabel (find_all 0 s)
        → All IsLabel (
            if b
            then String.◌∷◌ c (longest_tail s) ∷ find_all (text_length (longest_tail s)) s
            else find_all 0 s)
    matched-IsLabel true e more others = ((e, longest_tail-IsTail s), more)
    matched-IsLabel false e more others = others

concat-IsTail : (ls : List String) → All IsLabel ls → IsTail (concat ls)
concat-IsTail [] h = tt
concat-IsTail (String.[] ∷ ls) (h, k) = absurd h
concat-IsTail (String.◌∷◌ c s ∷ ls) ((l, h), k) =
    IsTail-append (String.◌∷◌ c s) (concat ls) (IsTail-alnum c s (letter-alnum c l) h)
      (concat-IsTail ls k)

pub concat-IsLabel : (ls : List String) → All IsLabel ls → (concat ls ≡ "") ⊎ IsLabel (concat ls)
concat-IsLabel [] h = inl refl
concat-IsLabel (String.[] ∷ ls) (h, k) = absurd h
concat-IsLabel (String.◌∷◌ c s ∷ ls) ((l, h), k) = inr (
    subst IsLabel (sym (TextLemmas.cons-append c s (concat ls)))
      (l, IsTail-append s (concat ls) h (concat-IsTail ls k)))

-- What CleanupForKubernetes returns is a text that was accepted as it is, or empty, or a
-- lower-case letter followed by letters, digits and dashes that end in no dash.
pub cleanup_for_kubernetes-matches :
    (is_dns1035_label : String → Bool) (lower : Char → Char) (input : String)
    → ((cleanup_for_kubernetes is_dns1035_label lower input ≡ input)
        × (is_dns1035_label input ≡ true))
      ⊎ ((cleanup_for_kubernetes is_dns1035_label lower input ≡ "")
          ⊎ IsLabel (cleanup_for_kubernetes is_dns1035_label lower input))
unfolding cleanup_for_kubernetes
cleanup_for_kubernetes-matches is_dns1035_label lower input = cases (is_dns1035_label input) refl
  where
    found : String
    found = concat (find_all 0 (with_dashes (to_lower lower input)))

    cases :
        (valid : Bool)
        → is_dns1035_label input ≡ valid
        → (((if not valid then found else input) ≡ input) × (is_dns1035_label input ≡ true))
          ⊎ (((if not valid then found else input) ≡ "")
              ⊎ IsLabel (if not valid then found else input))
    cases true e = inl (refl, e)
    cases false e = inr (
        concat-IsLabel (find_all 0 (with_dashes (to_lower lower input)))
          (find_all-IsLabel 0 (with_dashes (to_lower lower input))))
