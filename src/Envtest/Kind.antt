-- ===== src/Envtest/Kind.antt =====
-- internal/envtest/kind.go: a cluster of kind, and the client of it.
use k8ssandra_client.Common.{
  ℕ, zero, suc, ℤ, pos, negsuc, String, Option, none, some, List, [], ◌∷◌, ◌++◌, Result, ok, err,
  panic, ◌>>=◌,
}
use k8ssandra_client.Common.Exec.{Exec, lift}
use k8ssandra_client.Common.Exec as Exec

pub data Role : Type 0 where
  control_plane worker : Role

-- kindapi.Cluster: the roles of its nodes, and what else it has.
pub record KindConfig (Other : Type 0) : Type 0 where
  pub nodes : List Role
  pub other : Other

-- `for range workers` runs not at all below 0.
unfoldable pub rounds : ℤ → ℕ
rounds (pos n) = n
rounds (negsuc n) = 0

-- cluster.Nodes = append(cluster.Nodes, ...), once for each round.
unfoldable pub append_workers : ℕ → List Role → List Role
append_workers zero nodes = nodes
append_workers (suc n) nodes = append_workers n (nodes ++ worker ∷ [])

-- yaml.Unmarshal and yaml.Marshal for a cluster's configuration, kind's provider, clientcmd's
-- configuration from a file, and client.New.
pub record KindLib (W Other Rest C : Type 0) : Type 0 where
  pub kind_config : String
  pub unmarshal : String → Result (KindConfig Other)
  pub marshal : KindConfig Other → Result String
  pub create : String → String → String → Exec W (Unit {0})
  pub delete : String → String → Exec W (Unit {0})
  pub build_config_from_file : String → Exec W Rest
  pub new_client : Rest → Exec W C

-- KindManager. The client is a pointer to an interface: `some none` points to a nil one.
pub record KindManager (Rest C : Type 0) : Type 0 where
  pub cluster_name : String
  pub nodes : ℤ
  pub kubeconfig_location : String
  pub client : Option (Option C)
  pub rest_config : Option Rest

module _ {W Other Rest C : Type 0} (lib : KindLib W Other Rest C) where
  unfoldable pub set_worker_nodes : ℤ → Result String
  set_worker_nodes workers = do
    cluster ← lib.unmarshal lib.kind_config
    lib.marshal (record cluster { nodes = append_workers (rounds workers) (control_plane ∷ []) })

  -- A method returns the manager as it leaves it, after an error too.
  unfoldable pub after_create :
      KindManager Rest C → Result (Rest × C) × W → Result (Unit {0}) × KindManager Rest C × W
  after_create k (ok (rest, c), w) =
      (ok tt, record k { client = some (some c); rest_config = some rest }, w)
  after_create k (err e, w) = (err e, k, w)
  after_create k (panic, w) = (panic, k, w)

  -- The calls of CreateKindCluster, with the configuration and the client that they lead to.
  unfoldable pub start_kind_cluster : KindManager Rest C → Exec W (Rest × C)
  start_kind_cluster k = Exec.◌>>=◌ (lift (set_worker_nodes k.nodes)) (λ config.
      Exec.◌>>=◌ (lib.create k.cluster_name k.kubeconfig_location config) (λ u.
        Exec.◌>>=◌ (lib.build_config_from_file k.kubeconfig_location)
          (λ rest. Exec.◌>>=◌ (lib.new_client rest) (λ c. Exec.pure (rest, c)))))

  unfoldable pub create_kind_cluster :
      KindManager Rest C → W → Result (Unit {0}) × KindManager Rest C × W
  create_kind_cluster k w = after_create k (start_kind_cluster k w)

  unfoldable pub tear_down_kind_cluster : KindManager Rest C → Exec W (Unit {0})
  tear_down_kind_cluster k = lib.delete k.cluster_name k.kubeconfig_location

  -- What client.New leads to: the pointer is set before the error is looked at.
  unfoldable pub after_new :
      KindManager Rest C → Result C × W → Result (Option C) × KindManager Rest C × W
  after_new k (ok c, w) = (ok (some c), record k { client = some (some c) }, w)
  after_new k (err e, w) = (err e, record k { client = some none }, w)
  after_new k (panic, w) = (panic, k, w)

  unfoldable pub make_client :
      KindManager Rest C → Result Rest × W → Result (Option C) × KindManager Rest C × W
  make_client k (ok config, w) = after_new k (lib.new_client config w)
  make_client k (err e, w) = (err e, k, w)
  make_client k (panic, w) = (panic, k, w)

  unfoldable pub get_client : KindManager Rest C → W → Result (Option C) × KindManager Rest C × W
  get_client k w = elim k.client [
    | some c ↦ (ok c, k, w)
    | none ↦ make_client k (lib.build_config_from_file k.kubeconfig_location w)
  ]
