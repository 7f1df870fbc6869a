-- ===== src/Register/Again.antt =====
-- A name that was cleaned up stays as it is when it is cleaned up again.
use Prim.Native.Char.{Char, code}
use text.Mathlib.TextLemmas
use k8ssandra_client.Common.{
  String, Bool, true, false, not, ◌||◌, [], ◌∷◌, concat, nat_eq, ◌==◌, ◌≡◌, inl, inr, refl, sym, ap,
  ◌∙◌, arith, if◌then◌else◌, eq_iff, Bool-cases,
}
use k8ssandra_client.Tasks.Names.{text_length}
use k8ssandra_client.Register.Names.{
  is_letter, is_alnum, is_part, longest_tail, find_all, with_dashes, to_lower,
  cleanup_for_kubernetes,
}
use k8ssandra_client.Register.Labels.{
  IsTail, IsLabel, alnum-part, letter-alnum, cleanup_for_kubernetes-matches,
}

grown :
    (c : Char) (r s : String)
    → r ≡ s
    → is_part c ≡ true
    → (is_alnum c || not (s == "")) ≡ true
    → (if not (is_part c) then "" else if is_alnum c || not (r == "") then String.◌∷◌ c r else "")
      ≡ String.◌∷◌ c s
grown c r s e p w =
    ap
      (λ t.
        if not (is_part c) then "" else if is_alnum c || not (t == "") then String.◌∷◌ c t else "")
      e
    ∙ ap (λ b. if not b then "" else if is_alnum c || not (s == "") then String.◌∷◌ c s else "") p
    ∙ ap (λ b. if b then String.◌∷◌ c s else "") w

not_empty : (d : Char) (s : String) → (String.◌∷◌ d s == "") ≡ false
not_empty d s = elim (Bool-cases (String.◌∷◌ d s == "")) [
  | inl same ↦ absurd (longer (ground (arith, eq_iff (String.◌∷◌ d s) "", same)))
  | inr apart ↦ apart
]
  where
    longer : String.◌∷◌ d s ≡ "" → ⊥
    longer h = omega (arith, ap text_length h)

or_true : (b : Bool) → (b || true) ≡ true
or_true b = ground arith

IsTail→longest_tail : (s : String) → IsTail s → longest_tail s ≡ s
unfolding longest_tail
IsTail→longest_tail String.[] h = refl
IsTail→longest_tail (String.◌∷◌ c String.[]) h =
    grown c "" "" refl (alnum-part c h) (ap (λ b. b || false) h)
IsTail→longest_tail (String.◌∷◌ c (String.◌∷◌ d s)) (p, h) =
    grown c (longest_tail (String.◌∷◌ d s)) (String.◌∷◌ d s)
      (IsTail→longest_tail (String.◌∷◌ d s) h) p
      (ap (λ b. is_alnum c || not b) (not_empty d s) ∙ or_true (is_alnum c))

find_all-skipped : (s : String) → find_all (text_length s) s ≡ []
unfolding find_all
find_all-skipped String.[] = refl
find_all-skipped (String.◌∷◌ c s) = find_all-skipped s

part-not_underscore : (c : Char) → is_part c ≡ true → nat_eq (code c) b'_' ≡ false
part-not_underscore c h = ground (arith, h)

module _ (lower : Char → Char) (keeps : (c : Char) → is_part c ≡ true → lower c ≡ c) where
  one_same :
      (c : Char) (s : String)
      → is_part c ≡ true
      → with_dashes (to_lower lower s) ≡ s
      → with_dashes (to_lower lower (String.◌∷◌ c s)) ≡ String.◌∷◌ c s
  one_same c s p e =
      ap
        (λ d.
          if nat_eq (code d) b'_'
          then String.◌∷◌ "-" (with_dashes (to_lower lower s))
          else String.◌∷◌ d (with_dashes (to_lower lower s)))
        (keeps c p)
      ∙ ap
          (λ b.
            if b
            then String.◌∷◌ "-" (with_dashes (to_lower lower s))
            else String.◌∷◌ c (with_dashes (to_lower lower s)))
          (part-not_underscore c p)
      ∙ ap (String.◌∷◌ c) e

  IsTail-same : (s : String) → IsTail s → with_dashes (to_lower lower s) ≡ s
  IsTail-same String.[] h = refl
  IsTail-same (String.◌∷◌ c String.[]) h = one_same c "" (alnum-part c h) refl
  IsTail-same (String.◌∷◌ c (String.◌∷◌ d s)) (p, h) =
      one_same c (String.◌∷◌ d s) p (IsTail-same (String.◌∷◌ d s) h)

  -- A label is its own one match.
  find_all-label :
      (c : Char) (s : String)
      → is_letter c ≡ true
      → IsTail s
      → concat (find_all 0 (String.◌∷◌ c s)) ≡ String.◌∷◌ c s
  unfolding find_all
  find_all-label c s l h =
      ap
        (λ b. concat (
          if b
          then String.◌∷◌ c (longest_tail s) ∷ find_all (text_length (longest_tail s)) s
          else find_all 0 s))
        l
      ∙ ap (λ t. concat (String.◌∷◌ c t ∷ find_all (text_length t) s)) (IsTail→longest_tail s h)
      ∙ ap (λ ls. concat (String.◌∷◌ c s ∷ ls)) (find_all-skipped s)
      ∙ TextLemmas.append-nil (String.◌∷◌ c s)

  IsLabel-same : (s : String) → IsLabel s → concat (find_all 0 (with_dashes (to_lower lower s))) ≡ s
  IsLabel-same String.[] h = absurd h
  IsLabel-same (String.◌∷◌ c s) (l, h) =
      ap (λ t. concat (find_all 0 t))
        (one_same c s (alnum-part c (letter-alnum c l)) (IsTail-same s h))
      ∙ find_all-label c s l h

  cleaned :
      (is_dns1035_label : String → Bool) (s : String)
      → concat (find_all 0 (with_dashes (to_lower lower s))) ≡ s
      → cleanup_for_kubernetes is_dns1035_label lower s ≡ s
  unfolding cleanup_for_kubernetes
  cleaned is_dns1035_label s h = either (is_dns1035_label s)
    where
      either :
          (b : Bool)
          → (if not b then concat (find_all 0 (with_dashes (to_lower lower s))) else s) ≡ s
      either true = refl
      either false = h

  nothing : concat (find_all 0 (with_dashes (to_lower lower ""))) ≡ ""
  unfolding find_all
  nothing = refl

  -- Where ToLower leaves lower-case letters, digits and dashes alone, cleaning up a text twice
  -- gives what cleaning it up once gives.
  pub cleanup_for_kubernetes-twice :
      (is_dns1035_label : String → Bool) (input : String)
      → cleanup_for_kubernetes is_dns1035_label lower
          (cleanup_for_kubernetes is_dns1035_label lower input)
        ≡ cleanup_for_kubernetes is_dns1035_label lower input
  cleanup_for_kubernetes-twice is_dns1035_label input =
      elim (cleanup_for_kubernetes-matches is_dns1035_label lower input) [
        | inl (same, valid) ↦ ap (cleanup_for_kubernetes is_dns1035_label lower) same
        | inr (inl empty) ↦ empty_again empty
        | inr (inr label) ↦
            cleaned is_dns1035_label (cleanup_for_kubernetes is_dns1035_label lower input)
              (IsLabel-same (cleanup_for_kubernetes is_dns1035_label lower input) label)
      ]
    where
      empty_again : {r : String} → r ≡ "" → cleanup_for_kubernetes is_dns1035_label lower r ≡ r
      empty_again e =
          ap (cleanup_for_kubernetes is_dns1035_label lower) e
          ∙ cleaned is_dns1035_label "" nothing
          ∙ sym e
