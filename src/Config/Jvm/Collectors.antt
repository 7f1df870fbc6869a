-- ===== src/Config/Jvm/Collectors.antt =====
-- Which options name a garbage collector, and which of the base file's the program deletes.
use k8ssandra_client.Common.{
  ℕ, String, Bool, true, false, ◌||◌, List, [], ◌∷◌, ◌++◌, any, any-append, contains, ◌==◌, All,
  delete_func, Bool-cases, eq_refl, append_assoc, subst, ◌≡◌, ◌⊎◌, inl, inr, refl, ◌∙◌, arith,
}
use k8ssandra_client.Config.Gc.{get_gc_options, mentions_gc, get_all_gc_options}

-- `l` contains an option of the collector `name` for a Java version.
abbrev pub names_collector : ℕ → String → String → Bool
names_collector version l name = any (λ opt. contains l opt) (get_gc_options name version)

-- It contains none of the four collectors, or one.
abbrev pub NamesNone : ℕ → String → Type 0
NamesNone version l =
    All (λ name. names_collector version l name ≡ false)
      ("G1GC" ∷ "CMS" ∷ "Shenandoah" ∷ "ZGC" ∷ [])

abbrev pub NamesOne : ℕ → String → Type 0
NamesOne version l =
    (names_collector version l "G1GC" ≡ true)
    ⊎ ((names_collector version l "CMS" ≡ true)
        ⊎ ((names_collector version l "Shenandoah" ≡ true)
            ⊎ (names_collector version l "ZGC" ≡ true)))

mentions_gc_lem :
    (version : ℕ) (l : String)
    → mentions_gc version l ≡ (
        names_collector version l "G1GC"
        || (names_collector version l "CMS"
            || (names_collector version l "Shenandoah" || names_collector version l "ZGC")))
unfolding mentions_gc get_all_gc_options
mentions_gc_lem version l =
    let p : String → Bool = λ opt. contains l opt in
    let g1 = get_gc_options "G1GC" version in
    let cms = get_gc_options "CMS" version in
    let shenandoah = get_gc_options "Shenandoah" version in
    let zgc = get_gc_options "ZGC" version in
    ground (
      arith,
      any-append p g1 (cms ++ shenandoah ++ zgc ++ []),
      any-append p cms (shenandoah ++ zgc ++ []),
      any-append p shenandoah (zgc ++ []),
      any-append p zgc [],
    )

four_cases :
    (a b c d : Bool) {m : Bool}
    → m ≡ (a || (b || (c || d)))
    → ((m ≡ false) × (a ≡ false) × (b ≡ false) × (c ≡ false) × (d ≡ false))
      ⊎ ((m ≡ true) × ((a ≡ true) ⊎ ((b ≡ true) ⊎ ((c ≡ true) ⊎ (d ≡ true)))))
four_cases true b c d h = inr (h, inl refl)
four_cases false true c d h = inr (h, inr (inl refl))
four_cases false false true d h = inr (h, inr (inr (inl refl)))
four_cases false false false true h = inr (h, inr (inr (inr refl)))
four_cases false false false false h = inl (h, refl, refl, refl, refl)

mentions_gc-cases :
    (version : ℕ) (l : String)
    → ((mentions_gc version l ≡ false) × NamesNone version l)
      ⊎ ((mentions_gc version l ≡ true) × NamesOne version l)
mentions_gc-cases version l =
    elim (four_cases (names_collector version l "G1GC") (names_collector version l "CMS")
      (names_collector version l "Shenandoah") (names_collector version l "ZGC")
      (mentions_gc_lem version l)) [
        | inl (out, a, b, c, d) ↦ inl (out, (a, (b, (c, (d, tt)))))
        | inr (found, one) ↦ inr (found, one)
      ]

true_not_false : {b : Bool} → b ≡ true → b ≡ false → ⊥
true_not_false h k = ground (arith, h, k)

pub mentions_gc-NamesNone :
    (version : ℕ) (l : String) → mentions_gc version l ≡ false → NamesNone version l
mentions_gc-NamesNone version l h = elim (mentions_gc-cases version l) [
  | inl (out, none_named) ↦ none_named
  | inr (found, one) ↦ absurd (true_not_false found h)
]

pub mentions_gc-NamesOne :
    (version : ℕ) (l : String) → mentions_gc version l ≡ true → NamesOne version l
mentions_gc-NamesOne version l h = elim (mentions_gc-cases version l) [
  | inl (out, none_named) ↦ absurd (true_not_false h out)
  | inr (found, one) ↦ one
]

abbrev pub IsIn : List String → String → Type 0
IsIn ls l = any (λ o. o == l) ls ≡ true

listed-after : (seen ls : List String) → All (IsIn (seen ++ ls)) ls
listed-after seen [] = tt
listed-after seen (l ∷ ls) = (
  any-append (λ o. o == l) seen (l ∷ ls) ∙ ground (arith, eq_refl l),
  subst (λ all. All (IsIn all) ls) (append_assoc seen (l ∷ []) ls)
      (listed-after (seen ++ l ∷ []) ls),
)

pub All-IsIn : (ls : List String) → All (IsIn ls) ls
All-IsIn ls = listed-after [] ls

pub All-kept :
    (P : String → Type 0) (p : String → Bool) (ls : List String)
    → All P ls
    → All P (delete_func p ls)
All-kept P p [] h = tt
All-kept P p (l ∷ ls) (x, h) = elim (Bool-cases (p l)) [
  | inl e ↦ rw e (All-kept P p ls h)
  | inr e ↦ rw e (x, All-kept P p ls h)
]

-- What holds of the ones that are left holds of all, but for those that were deleted.
pub All-undelete :
    (P : String → Type 0) (p : String → Bool) (ls : List String)
    → All P (delete_func p ls)
    → All (λ l. P l ⊎ (p l ≡ true)) ls
All-undelete P p [] h = tt
All-undelete P p (l ∷ ls) h = elim (Bool-cases (p l)) [
  | inl e ↦ (inr e, All-undelete P p ls (subst (All P) (deleted e) h))
  | inr e ↦ let (x, more) = subst (All P) (left e) h in (inl x, All-undelete P p ls more)
]
  where
    deleted : p l ≡ true → delete_func p (l ∷ ls) ≡ delete_func p ls
    deleted e = rw e refl

    left : p l ≡ false → delete_func p (l ∷ ls) ≡ l ∷ delete_func p ls
    left e = rw e refl
