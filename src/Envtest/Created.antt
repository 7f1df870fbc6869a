-- ===== src/Envtest/Created.antt =====
-- How the clusters of the environments of RunMultiKind were created.
use k8ssandra_client.Common.{
  ℕ, zero, suc, ℤ, pos, negsuc, String, some, List, [], ◌∷◌, All, Result, ok, err, panic, ◌≡◌, refl,
  sym, ap, ◌∙◌, subst, bind-eq-ok, inl, inr,
}
use mathlib.Core.Option
use k8ssandra_client.Common.Exec.{Exec, lift, then-ok, pure-eq-ok, panic_not_ok}
use k8ssandra_client.Kube.{Library}
use k8ssandra_client.Envtest.Kind.{
  control_plane, KindConfig, KindLib, KindManager, rounds, set_worker_nodes, start_kind_cluster,
  create_kind_cluster, after_create,
}
use k8ssandra_client.Envtest.Clients.{workers, append_workers-workers}
use k8ssandra_client.Envtest.Environment.{
  Environment, EnvLib, new_kind_environment, of_created, start,
}
use k8ssandra_client.Envtest.Multi.{
  Starting, waiting, made, started, start_goroutines, move_at, interleave, all_started, move_start,
  run_multi_kind,
}
use k8ssandra_client.Envtest.Interleaved.{all_started-cases, start-kind_cluster, after_wait-set_up}

-- What a move keeps of a goroutine, any schedule keeps of all.
module _ {W G : Type 0} (move : G → Exec W G) (P : G → Type 0)
    (keeps : (g g' : G) (w w' : W) → move g w ≡ (ok g', w') → P g → P g') where
  All-move_at :
      (i : ℕ) (gs gs' : List G) (w w' : W)
      → move_at move i gs w ≡ (ok gs', w')
      → All P gs
      → All P gs'
  unfolding move_at
  All-move_at i [] gs' w w' h p = subst (All P) (pure-eq-ok h).0 p
  All-move_at zero (g ∷ gs) gs' w w' h (p, ps) =
      then-ok (move g) _ w w' h
        λ g1 w1 h1 k1. subst (All P) (pure-eq-ok k1).0 (keeps g g1 w w1 h1 p, ps)
  All-move_at (suc i) (g ∷ gs) gs' w w' h (p, ps) =
      then-ok (move_at move i gs) _ w w' h
        λ gs1 w1 h1 k1. subst (All P) (pure-eq-ok k1).0 (p, All-move_at i gs gs1 w w1 h1 ps)

  All-interleave :
      (schedule : List ℕ) (gs gs' : List G) (w w' : W)
      → interleave move schedule gs w ≡ (ok gs', w')
      → All P gs
      → All P gs'
  unfolding interleave
  All-interleave [] gs gs' w w' h p = subst (All P) (pure-eq-ok h).0 p
  All-interleave (i ∷ schedule) gs gs' w w' h p =
      then-ok (move_at move i gs) _ w w' h
        λ gs1 w1 h1 k1. All-interleave schedule gs1 gs' w1 w' k1 (All-move_at i gs gs1 w w1 h1 p)

-- No workers for a number below 0.
abbrev pub worker_count : ℤ → ℕ
worker_count (pos n) = n
worker_count (negsuc n) = 0

rounds-worker_count : (z : ℤ) → rounds z ≡ worker_count z
unfolding rounds
rounds-worker_count (pos n) = refl
rounds-worker_count (negsuc n) = refl

module _ {W Other Rest C : Type 0} (kind : KindLib W Other Rest C) where
  -- kind has created a cluster of this name, with this kubeconfig, from the text of the default
  -- configuration whose nodes are one control plane and then that many workers.
  pub record IsCreated (k : KindManager Rest C) : Type 0 where
    pub default : KindConfig Other
    pub config : String
    pub before : W
    pub after : W
    pub read : kind.unmarshal kind.kind_config ≡ ok default
    pub written :
        kind.marshal (record default { nodes = control_plane ∷ workers (worker_count k.nodes) })
        ≡ ok config
    pub created : kind.create k.cluster_name k.kubeconfig_location config before ≡ (ok tt, after)

  abbrev pub IsMade : Environment Rest C → Type 0
  IsMade e = (k : KindManager Rest C) × (e.kind_cluster ≡ some k) × IsCreated k

  set_worker_nodes-written :
      (z : ℤ) (config : String)
      → set_worker_nodes kind z ≡ ok config
      → (default : KindConfig Other) × (kind.unmarshal kind.kind_config ≡ ok default)
        × (kind.marshal (record default { nodes = control_plane ∷ workers (worker_count z) })
            ≡ ok config)
  unfolding set_worker_nodes
  set_worker_nodes-written z config h =
      let (default, read, h') = bind-eq-ok (kind.unmarshal kind.kind_config) _ h in
      (
        default,
        read,
        ap (λ ns. kind.marshal (record default { nodes = ns }))
              (sym (
                append_workers-workers (rounds z) (control_plane ∷ [])
                ∙ ap (λ n. control_plane ∷ workers n) (rounds-worker_count z)))
            ∙ h',
      )

  created_lem :
      (k : KindManager Rest C) (w w' : W) (rest : Rest) (c : C)
      → start_kind_cluster kind k w ≡ (ok (rest, c), w')
      → IsCreated (record k { client = some (some c); rest_config = some rest })
  unfolding start_kind_cluster
  created_lem k w w' rest c h =
      then-ok (lift (set_worker_nodes kind k.nodes)) _ w w' h λ config w1 h1 k1.
        then-ok (kind.create k.cluster_name k.kubeconfig_location config) _ w1 w' k1 λ u w2 h2 k2.
          let (default, read, written) =
            set_worker_nodes-written k.nodes config (ap (λ r. r.0) h1) in
          record {
            default = default;
            config = config;
            before = w1;
            after = w2;
            read = read;
            written = written;
            created = h2;
          }

  module _ (lib : EnvLib W Rest C) (kube : Library W Rest C) (root : String) where
    of_created-IsMade :
        (k : KindManager Rest C) (w : W) (r : Result (Rest × C) × W) (e : Environment Rest C)
        (w' : W)
        → start_kind_cluster kind k w ≡ r
        → of_created root (after_create kind k r) ≡ (ok e, w')
        → IsMade e
    unfolding of_created after_create
    of_created-IsMade k w (ok (rest, c), v) e w' ran h =
        subst IsMade (pure-eq-ok h).0 (_, refl, created_lem k w v rest c ran)
    of_created-IsMade k w (err x, v) e w' ran h = absurd (panic_not_ok (ap (λ r. r.0) h))
    of_created-IsMade k w (panic, v) e w' ran h = absurd (panic_not_ok (ap (λ r. r.0) h))

    new_kind_environment-IsMade :
        (k : KindManager Rest C) (e : Environment Rest C) (w w' : W)
        → new_kind_environment kind root k w ≡ (ok e, w')
        → IsMade e
    unfolding new_kind_environment create_kind_cluster
    new_kind_environment-IsMade k e w w' h =
        of_created-IsMade k w (start_kind_cluster kind k w) e w' refl h

    -- The cluster of a goroutine that has made its environment.
    abbrev pub IsMadeAt : Starting Rest C → Type 0
    IsMadeAt (waiting k) = Unit
    IsMadeAt (made e) = IsMade e
    IsMadeAt (started e) = IsMade e

    start-IsMade :
        (e e' : Environment Rest C) (w last : W)
        → start lib kube e w ≡ (ok e', last)
        → IsMade e
        → IsMade e'
    start-IsMade e e' w last h (k, is, created) =
        (k, start-kind_cluster kind lib kube root e e' w last h ∙ is, created)

    move_start-IsMadeAt :
        (g g' : Starting Rest C) (w w' : W)
        → move_start kind lib kube root g w ≡ (ok g', w')
        → IsMadeAt g
        → IsMadeAt g'
    unfolding move_start
    move_start-IsMadeAt (waiting k) g' w w' h p =
        then-ok (new_kind_environment kind root k) _ w w' h
          λ e w1 h1 k1. subst IsMadeAt (pure-eq-ok k1).0 (new_kind_environment-IsMade k e w w1 h1)
    move_start-IsMadeAt (made e) g' w w' h p =
        then-ok (start lib kube e) _ w w' h
          λ e1 w1 h1 k1. subst IsMadeAt (pure-eq-ok k1).0 (start-IsMade e e1 w w1 h1 p)
    move_start-IsMadeAt (started e) g' w w' h p = subst IsMadeAt (pure-eq-ok h).0 p

    start_goroutines-IsMadeAt :
        (test_dir : String) (i : ℕ) (topology : List ℤ)
        → All IsMadeAt (start_goroutines test_dir i topology)
    unfolding start_goroutines
    start_goroutines-IsMadeAt test_dir i [] = tt
    start_goroutines-IsMadeAt test_dir i (nodes ∷ topology) =
        (tt, start_goroutines-IsMadeAt test_dir (suc i) topology)

    all_started-IsMade :
        (gs : List (Starting Rest C)) (es : List (Environment Rest C))
        → all_started gs ≡ some es
        → All IsMadeAt gs
        → All IsMade es
    unfolding all_started
    all_started-IsMade [] es h p = let same : [] ≡ es = cc in subst (All IsMade) same tt
    all_started-IsMade (waiting k ∷ gs) es h p = absurd (cc h)
    all_started-IsMade (made e ∷ gs) es h p = absurd (cc h)
    all_started-IsMade (started e ∷ gs) es h (p, ps) = elim (all_started-cases (all_started gs)) [
      | inl n ↦ absurd (cc (ap (Option.map (λ es. e ∷ es)) (sym n) ∙ h))
      | inr (rest, is) ↦
          let same : e ∷ rest ≡ es = cc (ap (Option.map (λ es. e ∷ es)) (sym is) ∙ h) in
          subst (All IsMade) same (p, all_started-IsMade gs rest is ps)
    ]

    pub run_multi_kind-IsMade :
        (schedule : List ℕ) (setup : List (Environment Rest C) → Exec W (Unit {0}))
        (topology : List ℤ) (test_dir : String) (es : List (Environment Rest C)) (w w' : W)
        → run_multi_kind kind lib kube root schedule setup topology test_dir w ≡ (ok (some es), w')
        → All IsMade es
    unfolding run_multi_kind
    run_multi_kind-IsMade schedule setup topology test_dir es w w' h =
        let move = move_start kind lib kube root in
        let begun = start_goroutines test_dir 0 topology in
        then-ok (interleave move schedule begun) _ w w' h λ gs ready ran waited.
          let (is, set) =
            after_wait-set_up kind lib kube root setup (all_started gs) es ready w' waited in
          all_started-IsMade gs es is (
            All-interleave move IsMadeAt move_start-IsMadeAt schedule begun gs w ready ran
              (start_goroutines-IsMadeAt test_dir 0 topology))
