-- ===== src/Envtest/Finished.antt =====
-- When the goroutines of RunMultiKind are done, and what it has then.
use mathlib.Core.Option
use k8ssandra_client.Common.{
  All, ℕ, zero, suc, ◌+◌, ◌≤◌, ◌<◌, ℤ, String, Option, some, List, [], ◌∷◌, length, map, ok, ◌≡◌,
  refl, sym, ap, ◌∙◌, arith,
}
use k8ssandra_client.Common.Exec.{Exec, pure, ◌>>◌, then-ok, pure-eq-ok}
use k8ssandra_client.Kube.{Library}
use k8ssandra_client.Envtest.Kind.{KindLib}
use k8ssandra_client.Envtest.Environment.{Environment, EnvLib, new_kind_environment, start}
use k8ssandra_client.Envtest.Interleaved.{request_in, requests, run_multi_kind-requests}
use k8ssandra_client.Envtest.Created.{IsMade, run_multi_kind-IsMade}
use k8ssandra_client.Envtest.Multi.{
  Starting, waiting, made, started, start_goroutines, move_at, interleave, all_started, after_wait,
  move_start, run_multi_kind,
}

-- The moves that a goroutine still has to make.
abbrev remaining : {Rest C : Type 0} → Starting Rest C → ℕ
remaining (waiting k) = 2
remaining (made e) = 1
remaining (started e) = 0

abbrev remaining_at : {Rest C : Type 0} → List (Starting Rest C) → ℕ → ℕ
remaining_at [] i = 0
remaining_at (g ∷ gs) zero = remaining g
remaining_at (g ∷ gs) (suc i) = remaining_at gs i

abbrev pub one_if_same : ℕ → ℕ → ℕ
one_if_same zero zero = 1
one_if_same zero (suc j) = 0
one_if_same (suc i) zero = 0
one_if_same (suc i) (suc j) = one_if_same i j

-- How often the i-th goroutine moves.
abbrev pub moves_of : ℕ → List ℕ → ℕ
moves_of i [] = 0
moves_of i (j ∷ schedule) = one_if_same i j + moves_of i schedule

module _ {W Other Rest C : Type 0} (kind : KindLib W Other Rest C) (lib : EnvLib W Rest C)
    (kube : Library W Rest C) (root : String) where
  move_start-remaining :
      (g g' : Starting Rest C) (w w' : W) (c : ℕ)
      → move_start kind lib kube root g w ≡ (ok g', w')
      → remaining g ≤ suc c
      → remaining g' ≤ c
  unfolding move_start
  move_start-remaining (waiting k) g' w w' c h few =
      then-ok (new_kind_environment kind root k) _ w w' h
        λ e w1 h1 k1. omega (arith, few, ap remaining (pure-eq-ok k1).0)
  move_start-remaining (made e) g' w w' c h few =
      then-ok (start lib kube e) _ w w' h
        λ e1 w1 h1 k1. omega (arith, ap remaining (pure-eq-ok k1).0)
  move_start-remaining (started e) g' w w' c h few = omega (arith, ap remaining (pure-eq-ok h).0)

  move_at-remaining :
      (j i : ℕ) (gs gs' : List (Starting Rest C)) (w w' : W) (c : ℕ)
      → move_at (move_start kind lib kube root) j gs w ≡ (ok gs', w')
      → remaining_at gs i ≤ one_if_same i j + c
      → remaining_at gs' i ≤ c
  unfolding move_at
  move_at-remaining j i [] gs' w w' c h few =
      omega (arith, ap (λ l. remaining_at l i) (pure-eq-ok h).0)
  move_at-remaining zero zero (g ∷ gs) gs' w w' c h few =
      then-ok (move_start kind lib kube root g) _ w w' h λ g1 w1 h1 k1. omega (
        arith,
        move_start-remaining g g1 w w1 c h1 (omega (arith, few)),
        ap (λ l. remaining_at l 0) (pure-eq-ok k1).0,
      )
  move_at-remaining zero (suc i) (g ∷ gs) gs' w w' c h few =
      then-ok (move_start kind lib kube root g) _ w w' h
        λ g1 w1 h1 k1. omega (arith, few, ap (λ l. remaining_at l (suc i)) (pure-eq-ok k1).0)
  move_at-remaining (suc j) zero (g ∷ gs) gs' w w' c h few =
      then-ok (move_at (move_start kind lib kube root) j gs) _ w w' h
        λ gs1 w1 h1 k1. omega (arith, few, ap (λ l. remaining_at l 0) (pure-eq-ok k1).0)
  move_at-remaining (suc j) (suc i) (g ∷ gs) gs' w w' c h few =
      then-ok (move_at (move_start kind lib kube root) j gs) _ w w' h λ gs1 w1 h1 k1. omega (
        arith,
        move_at-remaining j i gs gs1 w w1 c h1 few,
        ap (λ l. remaining_at l (suc i)) (pure-eq-ok k1).0,
      )

  interleave-remaining :
      (schedule : List ℕ) (gs gs' : List (Starting Rest C)) (w w' : W)
      → interleave (move_start kind lib kube root) schedule gs w ≡ (ok gs', w')
      → ((i : ℕ) → remaining_at gs i ≤ moves_of i schedule)
      → (i : ℕ) → remaining_at gs' i ≤ 0
  unfolding interleave
  interleave-remaining [] gs gs' w w' h few i =
      omega (arith, few i, ap (λ l. remaining_at l i) (pure-eq-ok h).0)
  interleave-remaining (j ∷ schedule) gs gs' w w' h few i =
      then-ok (move_at (move_start kind lib kube root) j gs) _ w w' h λ gs1 w1 h1 k1.
        interleave-remaining schedule gs1 gs' w1 w' k1
          (λ i. move_at-remaining j i gs gs1 w w1 (moves_of i schedule) h1 (few i)) i

  all_started-remaining :
      (gs : List (Starting Rest C))
      → ((i : ℕ) → remaining_at gs i ≤ 0)
      → (es : List (Environment Rest C)) × (all_started gs ≡ some es)
  unfolding all_started
  all_started-remaining [] none_left = ([], refl)
  all_started-remaining (waiting k ∷ gs) none_left = absurd (omega (arith, none_left 0))
  all_started-remaining (made e ∷ gs) none_left = absurd (omega (arith, none_left 0))
  all_started-remaining (started e ∷ gs) none_left =
      let (es, is) = all_started-remaining gs (λ i. none_left (suc i)) in
      (e ∷ es, ap (Option.map (λ es. e ∷ es)) is)

  start_goroutines-remaining :
      (test_dir : String) (k : ℕ) (topology : List ℤ) (i n : ℕ)
      → (i < length topology → 2 ≤ n)
      → remaining_at (start_goroutines {Rest = Rest} {C = C} test_dir k topology) i ≤ n
  unfolding start_goroutines
  start_goroutines-remaining test_dir k [] i n enough = omega arith
  start_goroutines-remaining test_dir k (m ∷ topology) zero n enough = enough (omega arith)
  start_goroutines-remaining test_dir k (m ∷ topology) (suc i) n enough =
      start_goroutines-remaining test_dir (suc k) topology i n (λ h. enough (omega (arith, h)))

  found_all :
      (schedule : List ℕ) (setup : List (Environment Rest C) → Exec W (Unit {0}))
      (topology : List ℤ) (test_dir : String) (waited : Option (List (Environment Rest C)))
      (w w' : W)
      → ((i : ℕ) → i < length topology → 2 ≤ moves_of i schedule)
      → run_multi_kind kind lib kube root schedule setup topology test_dir w ≡ (ok waited, w')
      → (es : List (Environment Rest C)) × (waited ≡ some es)
  unfolding run_multi_kind after_wait
  found_all schedule setup topology test_dir waited w w' enough h =
      let move = move_start kind lib kube root in
      let begun = start_goroutines test_dir 0 topology in
      then-ok (interleave move schedule begun) _ w w' h λ gs ready ran then.
        let (es, is) = all_started-remaining gs (
          interleave-remaining schedule begun gs w ready ran (λ i.
            start_goroutines-remaining test_dir 0 topology i (moves_of i schedule) (enough i))) in
        then-ok (setup es >> pure es) (λ b. pure (some b)) ready w'
          (ap (λ o. after_wait o (λ es. setup es >> pure es) ready) (sym is) ∙ then)
          (λ b last h2 k2. (b, sym (pure-eq-ok k2).0))

  -- Where each goroutine of RunMultiKind moves at least twice, in whatever order, and nothing
  -- fails or panics, it has waited for them all and has called the set-up with one environment for
  -- each entry of the topology, in that order, with the number, the kubeconfig and the workers of
  -- that entry; and kind has created the cluster of each under its name from the written default
  -- configuration with one control plane and that many workers as its nodes.
  pub run_multi_kind-returns :
      (schedule : List ℕ) (setup : List (Environment Rest C) → Exec W (Unit {0}))
      (topology : List ℤ) (test_dir : String) (waited : Option (List (Environment Rest C)))
      (w w' : W)
      → ((i : ℕ) → i < length topology → 2 ≤ moves_of i schedule)
      → run_multi_kind kind lib kube root schedule setup topology test_dir w ≡ (ok waited, w')
      → (es : List (Environment Rest C)) × (waited ≡ some es)
        × (map request_in es ≡ requests test_dir 0 topology)
        × All (IsMade kind) es
        × (ready : W) × (setup es ready ≡ (ok tt, w'))
  run_multi_kind-returns schedule setup topology test_dir waited w w' enough h =
      let (es, is) = found_all schedule setup topology test_dir waited w w' enough h in
      let (in_order, ready, set) =
        run_multi_kind-requests kind lib kube root schedule setup topology test_dir es w w'
          (h ∙ ap (λ o. (ok o, w')) is) in
      (
        es,
        is,
        in_order,
        run_multi_kind-IsMade kind lib kube root schedule setup topology test_dir es w w'
            (h ∙ ap (λ o. (ok o, w')) is),
        ready,
        set,
      )
