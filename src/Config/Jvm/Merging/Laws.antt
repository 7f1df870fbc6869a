-- ===== src/Config/Jvm/Merging/Laws.antt =====
-- The merged options: which of the file's options are kept, and why the others are not.
use k8ssandra_client.Common.{
  String, ◌≡◌, sym, subst, ◌∙◌, Bool, true, false, Option, none, some, List, [], ◌∷◌, ◌++◌,
  append-nil, append_assoc, arith, any, any-append, All, Bool-cases, inl, inr, eq_refl, index,
  trim_space, ℕ, zero, suc,
}
use k8ssandra_client.Config.Jvm.Merging.{
  is_option, options_of, cut_equal, overridden_by, add_current,
}

pub All-trivial : (ls : List String) → All (λ _. Unit {0}) ls
All-trivial [] = tt
All-trivial (l ∷ ls) = (tt, All-trivial ls)

-- Every line that is read is an option: not empty and no comment.
pub options_of-All : (lines : List String) → All (λ l. is_option l ≡ true) (options_of lines)
options_of-All [] = tt
options_of-All (l ∷ ls) = elim (Bool-cases (is_option (trim_space l))) [
  | inl e ↦ rw e (e, options_of-All ls)
  | inr e ↦ rw e (options_of-All ls)
]

cut_equal_refl : (v : String) (o : Option ℕ) → cut_equal v v o o ≡ true
cut_equal_refl v none = eq_refl v
cut_equal_refl v (some zero) = eq_refl v
cut_equal_refl v (some (suc i)) = eq_refl _

module _ (prefix_of : String → Option String) where
  overridden_by_self : (v : String) → overridden_by prefix_of v v ≡ true
  unfolding overridden_by
  overridden_by_self v = ground (arith, cut_equal_refl v (index b'=' v))

  -- The lines `kept`, behind `earlier`: none is overridden by a line before it.
  abbrev pub IsFresh : List String → List String → Type 0
  IsFresh earlier [] = Unit
  IsFresh earlier (v ∷ kept) =
      (any (overridden_by prefix_of v) earlier ≡ false) × IsFresh (earlier ++ v ∷ []) kept

  -- The loop appends a list of lines of the file, each of which no earlier line overrides.
  pub add_current-IsFresh :
      (P : String → Type 0) (targets current : List String)
      → All P current
      → (kept : List String) × (add_current prefix_of targets current ≡ targets ++ kept)
        × IsFresh targets kept
        × All P kept
  unfolding add_current
  add_current-IsFresh P targets [] h = ([], sym (append-nil targets), tt, tt)
  add_current-IsFresh P targets (v ∷ current) (p, h) =
      elim (Bool-cases (any (overridden_by prefix_of v) targets)) [
        | inl dropped ↦ rw dropped (add_current-IsFresh P targets current h)
        | inr new ↦
            let (kept, e, fresh, all) = add_current-IsFresh P (targets ++ v ∷ []) current h in
            rw new (v ∷ kept, e ∙ append_assoc targets (v ∷ []) kept, (new, fresh), (p, all))
      ]

  any-add_current :
      (p : String → Bool) (targets current : List String)
      → any p targets ≡ true
      → any p (add_current prefix_of targets current) ≡ true
  any-add_current p targets current h =
      let (kept, e, _, _) = add_current-IsFresh (λ _. Unit) targets current (All-trivial current) in
      rw e (any-append p targets kept ∙ ground arith)

  add_current_dropped :
      (targets : List String) (v : String) (current : List String)
      → any (overridden_by prefix_of v) targets ≡ true
      → add_current prefix_of targets (v ∷ current) ≡ add_current prefix_of targets current
  unfolding add_current
  add_current_dropped targets v current h = rw h

  add_current_new :
      (targets : List String) (v : String) (current : List String)
      → any (overridden_by prefix_of v) targets ≡ false
      → add_current prefix_of targets (v ∷ current)
        ≡ add_current prefix_of (targets ++ v ∷ []) current
  unfolding add_current
  add_current_new targets v current h = rw h

  -- Every line of `current` is overridden by a line of `result`, if only by itself.
  abbrev pub IsCovered : List String → List String → Type 0
  IsCovered current result = All (λ v. any (overridden_by prefix_of v) result ≡ true) current

  pub add_current-IsCovered :
      (targets current : List String) → IsCovered current (add_current prefix_of targets current)
  add_current-IsCovered targets [] = tt
  add_current-IsCovered targets (v ∷ current) =
      elim (Bool-cases (any (overridden_by prefix_of v) targets)) [
        | inl dropped ↦
            subst (IsCovered (v ∷ current)) (sym (add_current_dropped targets v current dropped)) (
              any-add_current (overridden_by prefix_of v) targets current dropped,
              add_current-IsCovered targets current,
            )
        | inr new ↦ subst (IsCovered (v ∷ current)) (sym (add_current_new targets v current new)) (
          any-add_current (overridden_by prefix_of v) (targets ++ v ∷ []) current (
              any-append (overridden_by prefix_of v) targets (v ∷ [])
              ∙ ground (arith, overridden_by_self v)),
          add_current-IsCovered (targets ++ v ∷ []) current,
        )
      ]
