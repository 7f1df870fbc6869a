-- ===== src/Envtest/Environment.antt =====
-- internal/envtest/envtest.go, with RunMulti of multi_envtest.go: an environment with an API server.
use k8ssandra_client.Common.{
  ℕ, zero, suc, String, Bool, true, false, Option, none, some, List, [], ◌∷◌, Dict, Result, ok, err,
  panic,
}
use k8ssandra_client.Common.Exec.{Exec, pure, ◌>>=◌, ◌>>◌}
use k8ssandra_client.Common.Paths.{join_path}
use k8ssandra_client.Kube.{
  Library, NamespacedClient, get_client, get_client_in_namespace, create_namespace_if_not_exists,
}
use k8ssandra_client.Register.Kubeconfig.{ServerInfo, ContextInfo}
use k8ssandra_client.Envtest.Kind.{KindLib, KindManager, create_kind_cluster}

abbrev pub or_panic : {W A : Type 0} → Result A × W → Result A × W
or_panic (ok a, w) = (ok a, w)
or_panic (err e, w) = (panic, w)
or_panic (panic, w) = (panic, w)

-- `if err != nil { panic(err) }`
unfoldable pub checked : {W A : Type 0} → Exec W A → Exec W A
checked m w = or_panic (m w)

-- Environment with the fields of envtest.Environment that are set.
pub record Environment (Rest C : Type 0) : Type 0 where
  pub client : Option C
  pub config : Option Rest
  pub crd_directory : String
  pub use_existing_cluster : Bool
  pub error_if_crd_path_missing : Bool
  pub kubeconfig : String
  pub kind_cluster : Option (KindManager Rest C)

-- The start and the stop of the API server, the cancellation of the context, and AddToScheme for the
-- scheme of a client and for the global one, of which there are four.
pub record EnvLib (W Rest C : Type 0) : Type 0 where
  pub start : Environment Rest C → Exec W Rest
  pub stop : Environment Rest C → Exec W (Unit {0})
  pub cancel : Exec W (Unit {0})
  pub add_cassdc : C → Exec W (Unit {0})
  pub add_global_cassdc : Exec W (Unit {0})
  pub add_global_control : Exec W (Unit {0})
  pub add_global_tasks : Exec W (Unit {0})
  pub add_global_extensions : Exec W (Unit {0})

-- `root` is RootDir().
unfoldable pub crd_directory_of : String → String
crd_directory_of root = join_path (join_path root "testfiles") "crd"

unfoldable pub new_environment : {Rest C : Type 0} → String → Environment Rest C
new_environment root = record {
  client = none;
  config = none;
  crd_directory = crd_directory_of root;
  use_existing_cluster = false;
  error_if_crd_path_missing = true;
  kubeconfig = "";
  kind_cluster = none;
}

unfoldable pub of_created :
    {W Rest C : Type 0}
    → String
    → Result (Unit {0}) × KindManager Rest C × W
    → Result (Environment Rest C) × W
of_created root (ok u, k, w) = (
  ok (record {
    client = none;
    config = k.rest_config;
    crd_directory = crd_directory_of root;
    use_existing_cluster = true;
    error_if_crd_path_missing = true;
    kubeconfig = k.kubeconfig_location;
    kind_cluster = some k;
  }),
  w,
)
of_created root (err e, k, w) = (panic, w)
of_created root (panic, k, w) = (panic, w)

unfoldable pub new_kind_environment :
    {W Other Rest C : Type 0}
    → KindLib W Other Rest C
    → String
    → KindManager Rest C
    → Exec W (Environment Rest C)
new_kind_environment lib root cluster w = of_created root (create_kind_cluster lib cluster w)

module _ {W Rest C : Type 0} (lib : EnvLib W Rest C) (kube : Library W Rest C) where
  unfoldable pub start : Environment Rest C → Exec W (Environment Rest C)
  start e = do
    cfg ← checked (lib.start e)
    k8s_client ← checked (get_client kube cfg)
    checked (lib.add_cassdc k8s_client)
    checked lib.add_global_cassdc
    checked lib.add_global_control
    checked lib.add_global_tasks
    checked lib.add_global_extensions
    pure (record e { client = some k8s_client; config = some cfg })

  unfoldable pub stop : Environment Rest C → Exec W (Unit {0})
  stop e = do lib.cancel; checked (lib.stop e)

  -- `config` is e.env.Config.
  unfoldable pub get_client_in : Rest → String → Exec W (NamespacedClient Rest C)
  get_client_in config namespace = checked (get_client_in_namespace kube config namespace)

  -- `tests` is m.Run.
  unfoldable pub run : String → (Environment Rest C → Exec W (Unit {0})) → Exec W ℕ → Exec W ℕ
  run root setup tests = do
    env ← start (new_environment root)
    setup env
    code ← tests
    stop env
    pure code

  -- for i := range n: the environments are made and started in order.
  unfoldable pub start_all : ℕ → String → Exec W (List (Environment Rest C))
  start_all zero root = pure []
  start_all (suc n) root = do e ← start (new_environment root); es ← start_all n root; pure (e ∷ es)

  unfoldable pub stop_all : List (Environment Rest C) → Exec W (Unit {0})
  stop_all [] = pure tt
  stop_all (e ∷ es) = do stop e; stop_all es

  -- A deferred call runs after a panic too, and its own panic takes the place of the result.
  unfoldable pub after_deferred : Result ℕ → Result (Unit {0}) × W → Result ℕ × W
  after_deferred r (ok u, w) = (r, w)
  after_deferred r (err e, w) = (panic, w)
  after_deferred r (panic, w) = (panic, w)

  unfoldable pub run_started :
      (List (Environment Rest C) → Exec W (Unit {0}))
      → Exec W ℕ
      → List (Environment Rest C)
      → Exec W ℕ
  run_started setup tests es w =
      let (r, w') = (setup es >> tests) w in after_deferred r (stop_all es w')

  unfoldable pub run_multi :
      ℕ → String → (List (Environment Rest C) → Exec W (Unit {0})) → Exec W ℕ → Exec W ℕ
  run_multi num_clusters root setup tests = do
    es ← start_all num_clusters root
    run_started setup tests es

-- strings.ToLower is `lower`, and a test that fails at once ends by t.FailNow.
unfoldable pub create_namespace :
    {W : Type 0} → (String → Exec W (Unit {0})) → (String → String) → String → Exec W String
create_namespace create lower test_name = do
  create_namespace_if_not_exists create (lower test_name)
  pure (lower test_name)

-- The REST configuration, as far as it goes into a kubeconfig, and a kubeconfig with certificates.
pub record Connection : Type 0 where
  pub host : String
  pub ca_data : String
  pub cert_data : String
  pub key_data : String

pub record AdminConfig : Type 0 where
  pub clusters : Dict ServerInfo
  pub contexts : Dict ContextInfo
  pub current_context : String
  pub auth_infos : Dict (String × String)

unfoldable pub create_kubeconfig_file_for_rest_config : Connection → AdminConfig
create_kubeconfig_file_for_rest_config c = record {
  clusters = ("default-cluster", record { server = c.host; ca_data = c.ca_data }) ∷ [];
  contexts =
      ("default-context", record { cluster = "default-cluster"; auth_info = "default-user" }) ∷ [];
  current_context = "default-context";
  auth_infos = ("default-user", (c.cert_data, c.key_data)) ∷ [];
}

-- `write` is clientcmd.Write.
unfoldable pub get_kubeconfig : (AdminConfig → Result String) → Connection → Result String
get_kubeconfig write c = write (create_kubeconfig_file_for_rest_config c)
