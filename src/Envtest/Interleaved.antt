-- ===== src/Envtest/Interleaved.antt =====
-- Which environments RunMultiKind has, whatever the order in which its goroutines move.
use Prim.Native.String as Text
use mathlib.Core.Option
use mathlib.Core.Logic.{◌⊎◌, inl, inr}
use k8ssandra_client.Common.{
  ℕ, zero, suc, ℤ, String, Option, none, some, List, [], ◌∷◌, map, decimal, Result, ok, err, panic,
  ◌≡◌, refl, sym, ap, ◌∙◌,
}
use k8ssandra_client.Common.Exec.{Exec, pure, ◌>>◌, then-ok, pure-eq-ok, panic_not_ok}
use k8ssandra_client.Kube.{Library, get_client}
use k8ssandra_client.Envtest.Kind.{KindLib, KindManager, create_kind_cluster, after_create}
use k8ssandra_client.Envtest.Environment.{
  Environment, EnvLib, checked, new_kind_environment, of_created, start,
}
use k8ssandra_client.Envtest.Multi.{
  cluster_at, Starting, waiting, made, started, start_goroutines, move_at, interleave, all_started,
  after_wait, move_start, run_multi_kind,
}

-- What a cluster is asked for by: its name, the number of its workers and the path of its kubeconfig.
abbrev pub Request : Type 0
Request = String × ℤ × String

abbrev pub request_of : {Rest C : Type 0} → KindManager Rest C → Request
request_of k = (k.cluster_name, k.nodes, k.kubeconfig_location)

abbrev pub request_in : {Rest C : Type 0} → Environment Rest C → Option Request
request_in e = Option.map request_of e.kind_cluster

abbrev request_at : {Rest C : Type 0} → Starting Rest C → Option Request
request_at (waiting k) = some (request_of k)
request_at (made e) = request_in e
request_at (started e) = request_in e

-- A move that keeps what `key` tells of a goroutine keeps it of all, in any schedule.
module _ {W G K : Type 0} (move : G → Exec W G) (key : G → K)
    (keeps : (g g' : G) (w w' : W) → move g w ≡ (ok g', w') → key g' ≡ key g) where
  map-move_at :
      (i : ℕ) (gs gs' : List G) (w w' : W)
      → move_at move i gs w ≡ (ok gs', w')
      → map key gs' ≡ map key gs
  unfolding move_at
  map-move_at i [] gs' w w' h = sym (ap (map key) (pure-eq-ok h).0)
  map-move_at zero (g ∷ gs) gs' w w' h = then-ok (move g) _ w w' h λ g1 w1 h1 k1.
      sym (ap (map key) (pure-eq-ok k1).0) ∙ ap (λ x. x ∷ map key gs) (keeps g g1 w w1 h1)
  map-move_at (suc i) (g ∷ gs) gs' w w' h = then-ok (move_at move i gs) _ w w' h λ gs1 w1 h1 k1.
      sym (ap (map key) (pure-eq-ok k1).0) ∙ ap (λ xs. key g ∷ xs) (map-move_at i gs gs1 w w1 h1)

  map-interleave :
      (schedule : List ℕ) (gs gs' : List G) (w w' : W)
      → interleave move schedule gs w ≡ (ok gs', w')
      → map key gs' ≡ map key gs
  unfolding interleave
  map-interleave [] gs gs' w w' h = sym (ap (map key) (pure-eq-ok h).0)
  map-interleave (i ∷ schedule) gs gs' w w' h =
      then-ok (move_at move i gs) _ w w' h
        λ gs1 w1 h1 k1. map-interleave schedule gs1 gs' w1 w' k1 ∙ map-move_at i gs gs1 w w1 h1

module _ {W Other Rest C : Type 0} (kind : KindLib W Other Rest C) (lib : EnvLib W Rest C)
    (kube : Library W Rest C) (root : String) where
  of_created-request :
      (k : KindManager Rest C) (r : Result (Rest × C) × W) (e : Environment Rest C) (w' : W)
      → of_created root (after_create kind k r) ≡ (ok e, w')
      → request_in e ≡ some (request_of k)
  unfolding of_created after_create
  of_created-request k (ok (rest, c), w) e w' h = sym (ap request_in (pure-eq-ok h).0)
  of_created-request k (err x, w) e w' h = absurd (panic_not_ok (ap (λ r. r.0) h))
  of_created-request k (panic, w) e w' h = absurd (panic_not_ok (ap (λ r. r.0) h))

  new_kind_environment-request :
      (k : KindManager Rest C) (e : Environment Rest C) (w w' : W)
      → new_kind_environment kind root k w ≡ (ok e, w')
      → request_in e ≡ some (request_of k)
  unfolding new_kind_environment create_kind_cluster
  new_kind_environment-request k e w w' h = of_created-request k _ e w' h

  pub start-kind_cluster :
      (e e' : Environment Rest C) (w last : W)
      → start lib kube e w ≡ (ok e', last)
      → e'.kind_cluster ≡ e.kind_cluster
  unfolding start
  start-kind_cluster e e' w last h = then-ok (checked (lib.start e)) _ w last h λ cfg w1 h1 k1.
      then-ok (checked (get_client kube cfg)) _ w1 last k1 λ c w2 h2 k2.
        then-ok (checked (lib.add_cassdc c)) _ w2 last k2 λ u3 w3 h3 k3.
          then-ok (checked lib.add_global_cassdc) _ w3 last k3 λ u4 w4 h4 k4.
            then-ok (checked lib.add_global_control) _ w4 last k4 λ u5 w5 h5 k5.
              then-ok (checked lib.add_global_tasks) _ w5 last k5 λ u6 w6 h6 k6.
                then-ok (checked lib.add_global_extensions) _ w6 last k6 λ u7 w7 h7 k7.
                  sym (ap (λ (e : Environment Rest C). e.kind_cluster) (pure-eq-ok k7).0)

  start-request :
      (e e' : Environment Rest C) (w last : W)
      → start lib kube e w ≡ (ok e', last)
      → request_in e' ≡ request_in e
  start-request e e' w last h = ap (Option.map request_of) (start-kind_cluster e e' w last h)

  move_start-request :
      (g g' : Starting Rest C) (w w' : W)
      → move_start kind lib kube root g w ≡ (ok g', w')
      → request_at g' ≡ request_at g
  unfolding move_start
  move_start-request (waiting k) g' w w' h =
      then-ok (new_kind_environment kind root k) _ w w' h λ e w1 h1 k1.
        sym (ap request_at (pure-eq-ok k1).0) ∙ new_kind_environment-request k e w w1 h1
  move_start-request (made e) g' w w' h =
      then-ok (start lib kube e) _ w w' h
        λ e1 w1 h1 k1. sym (ap request_at (pure-eq-ok k1).0) ∙ start-request e e1 w w1 h1
  move_start-request (started e) g' w w' h = sym (ap request_at (pure-eq-ok h).0)

pub all_started-cases :
    {Rest C : Type 0} (waited : Option (List (Environment Rest C)))
    → (waited ≡ none) ⊎ ((es : List (Environment Rest C)) × (waited ≡ some es))
all_started-cases none = inl refl
all_started-cases (some es) = inr (es, refl)

all_started-request :
    {Rest C : Type 0} (gs : List (Starting Rest C)) (es : List (Environment Rest C))
    → all_started gs ≡ some es
    → map request_in es ≡ map request_at gs
unfolding all_started
all_started-request [] es h = let same : [] ≡ es = cc in sym (ap (map request_in) same)
all_started-request (waiting k ∷ gs) es h = absurd (cc h)
all_started-request (made e ∷ gs) es h = absurd (cc h)
all_started-request (started e ∷ gs) es h = elim (all_started-cases (all_started gs)) [
  | inl n ↦ absurd (cc (ap (Option.map (λ es. e ∷ es)) (sym n) ∙ h))
  | inr (rest, is) ↦
      let same : e ∷ rest ≡ es = cc (ap (Option.map (λ es. e ∷ es)) (sym is) ∙ h) in
      sym (ap (map request_in) same) ∙ ap (λ xs. request_in e ∷ xs) (all_started-request gs rest is)
]

-- The clusters that are asked for, from the i-th on.
abbrev pub requests : String → ℕ → List ℤ → List (Option Request)
requests test_dir i [] = []
requests test_dir i (nodes ∷ topology) =
    some (
      Text.◌++◌ "cluster" (decimal i),
      nodes,
      Text.◌++◌ test_dir (Text.◌++◌ "/cluster" (decimal i)),
    )
    ∷ requests test_dir (suc i) topology

start_goroutines-requests :
    (Rest C : Type 0) (test_dir : String) (i : ℕ) (topology : List ℤ)
    → map request_at (start_goroutines {Rest = Rest} {C = C} test_dir i topology)
      ≡ requests test_dir i topology
unfolding start_goroutines cluster_at
start_goroutines-requests Rest C test_dir i [] = refl
start_goroutines-requests Rest C test_dir i (nodes ∷ topology) =
    ap (λ xs. some (request_of (cluster_at {Rest = Rest} {C = C} test_dir i nodes)) ∷ xs)
      (start_goroutines-requests Rest C test_dir (suc i) topology)

module _ {W Other Rest C : Type 0} (kind : KindLib W Other Rest C) (lib : EnvLib W Rest C)
    (kube : Library W Rest C) (root : String) where
  pub after_wait-set_up :
      (setup : List (Environment Rest C) → Exec W (Unit {0}))
      (waited : Option (List (Environment Rest C))) (es : List (Environment Rest C)) (w w' : W)
      → after_wait waited (λ es. setup es >> pure es) w ≡ (ok (some es), w')
      → (waited ≡ some es) × (setup es w ≡ (ok tt, w'))
  unfolding after_wait
  after_wait-set_up setup none es w w' h = absurd (cc (pure-eq-ok h).0)
  after_wait-set_up setup (some found) es w w' h =
      then-ok (setup found >> pure found) _ w w' h λ found1 w1 h1 k1.
        then-ok (setup found) _ w w1 h1 λ u w2 h2 k2.
          let (same, end) = pure-eq-ok k2 in
          let (is, last) = pure-eq-ok k1 in
          let set : found ≡ es = same ∙ cc is in
          (ap some set, ap (λ l. setup l w) (sym set) ∙ h2 ∙ ap (λ v. (ok tt, v)) (end ∙ last))

  pub run_multi_kind-requests :
      (schedule : List ℕ) (setup : List (Environment Rest C) → Exec W (Unit {0}))
      (topology : List ℤ) (test_dir : String) (es : List (Environment Rest C)) (w w' : W)
      → run_multi_kind kind lib kube root schedule setup topology test_dir w ≡ (ok (some es), w')
      → (map request_in es ≡ requests test_dir 0 topology)
        × (ready : W) × (setup es ready ≡ (ok tt, w'))
  unfolding run_multi_kind
  run_multi_kind-requests schedule setup topology test_dir es w w' h =
      let move = move_start kind lib kube root in
      let begun = start_goroutines test_dir 0 topology in
      then-ok (interleave move schedule begun) _ w w' h λ gs ready ran waited.
        let (is, set) = after_wait-set_up setup (all_started gs) es ready w' waited in
        (
          all_started-request gs es is
              ∙ map-interleave move request_at (move_start-request kind lib kube root) schedule
                  begun gs w ready ran
              ∙ start_goroutines-requests Rest C test_dir 0 topology,
          ready,
          set,
        )
