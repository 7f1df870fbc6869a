-- ===== src/Scheduler/Skips.antt =====
-- A plugin without a PreFilter is never skipped: what runPreFilterPlugins of pkg/scheduler/fit.go
-- keeps of the names that are to be skipped.
use k8ssandra_client.Common.{
  String, Bool, true, false, Option, none, some, List, [], ◌∷◌, any, All, ◌≡◌, refl, sym, ap, ◌∙◌,
  arith, Bool-cases, inl, inr, ◌==◌,
}
use k8ssandra_client.Scheduler.Fit.{
  Plugin, Framework, Prepared, Code, success, error, unschedulable, unresolvable, wait, skip,
  pending, status_code, after_status, run_prefilter, run_prefilters,
}

pub some_injective {ℓ} : {A : Type ℓ} {a b : A} → some a ≡ some b → a ≡ b
some_injective h = cc

other_name {ℓ} :
    {A : Type ℓ} {f : A} (name guard : String)
    → ((name == guard) ≡ true → some f ≡ none)
    → (name == guard) ≡ false
other_name name guard n = elim (Bool-cases (name == guard)) [
  | inl same ↦ let h = n same in cc
  | inr other ↦ other
]

abbrev pub is_skipped : {Cycle Kept : Type 0} → String → Prepared Cycle Kept → Bool
is_skipped name p = any (λ n. n == name) p.skipped

module _ {Info Pod PodInfo Cycle Kept : Type 0} (fw : Framework Info Pod PodInfo Cycle Kept) where
  after_status-skipped :
      (guard name : String) (result : Option Kept) (c : Code) (p q : Prepared Cycle Kept)
      → (name == guard) ≡ false
      → after_status fw name result c p ≡ some q
      → is_skipped guard p ≡ false
      → is_skipped guard q ≡ false
  unfolding after_status
  after_status-skipped guard name result success p q n h s =
      ap (is_skipped guard) (sym (some_injective h)) ∙ s
  after_status-skipped guard name result skip p q n h s =
      ap (is_skipped guard) (sym (some_injective h)) ∙ ground (arith, n, s)
  after_status-skipped guard name result error p q n h s = cc
  after_status-skipped guard name result unschedulable p q n h s = cc
  after_status-skipped guard name result unresolvable p q n h s = cc
  after_status-skipped guard name result wait p q n h s = cc
  after_status-skipped guard name result pending p q n h s = cc

  run_prefilter-skipped :
      (guard name : String)
      (prefilter : Option (Cycle → PodInfo → List Info → (Option Kept × Option Code) × Cycle))
      (pod : PodInfo) (nodes : List Info) (p q : Prepared Cycle Kept)
      → ((name == guard) ≡ true → prefilter ≡ none)
      → run_prefilter fw name prefilter pod nodes p ≡ some q
      → is_skipped guard p ≡ false
      → is_skipped guard q ≡ false
  unfolding run_prefilter
  run_prefilter-skipped guard name none pod nodes p q n h s =
      ap (is_skipped guard) (sym (some_injective h)) ∙ s
  run_prefilter-skipped guard name (some f) pod nodes p q n h s =
      let ((result, status), cycle') = f p.cycle pod nodes in
      after_status-skipped guard name result (status_code status)
        (record { cycle = cycle'; skipped = p.skipped; kept = p.kept }) q (other_name name guard n)
        h s

  pub run_prefilters-skipped :
      (guard : String) (plugins : List (Plugin Info Pod PodInfo Cycle Kept)) (pod : PodInfo)
      (nodes : List Info) (o : Option (Prepared Cycle Kept)) (q : Prepared Cycle Kept)
      → All (λ p. (p.name == guard) ≡ true → p.prefilter ≡ none) plugins
      → run_prefilters fw plugins pod nodes o ≡ some q
      → ((p : Prepared Cycle Kept) → o ≡ some p → is_skipped guard p ≡ false)
      → is_skipped guard q ≡ false
  unfolding run_prefilters
  run_prefilters-skipped guard [] pod nodes o q n h s = s q h
  run_prefilters-skipped guard (plugin ∷ plugins) pod nodes none q n h s = cc
  run_prefilters-skipped guard (plugin ∷ plugins) pod nodes (some p) q (n, ns) h s =
      run_prefilters-skipped guard plugins pod nodes
        (run_prefilter fw plugin.name plugin.prefilter pod nodes p) q ns h
        (λ r e.
          run_prefilter-skipped guard plugin.name plugin.prefilter pod nodes p r n e (s p refl))
