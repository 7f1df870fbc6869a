-- ===== src/Envtest/Tests.antt =====
-- A cluster with two workers, a client that cannot be made, two environments whose tests panic, and
-- two clusters whose goroutines take turns.
mod Balanced
use Prim.Native.Char.{code}
use k8ssandra_client.Common.{
  All, ℕ, zero, suc, ◌<◌, ◌≤◌, ℤ, decimal, map, ◌-◌, pos, negsuc, String, true, false, none, some,
  List, [], ◌∷◌, ok, err, panic, message, nat_eq, if◌then◌else◌, lookup, ◌≡◌, refl, sym, ap, arith,
}
use k8ssandra_client.Common.Exec.{Exec}
use k8ssandra_client.Common.Paths.{join_path, clean}
use k8ssandra_client.Kube.{Library, get_client}
use k8ssandra_client.Envtest.Kind.{
  Role, control_plane, worker, KindConfig, KindLib, KindManager, set_worker_nodes, append_workers,
  rounds,
}
use k8ssandra_client.Envtest.Kind as Kind
use k8ssandra_client.Envtest.Environment.{
  Environment, EnvLib, new_environment, new_kind_environment, of_created, crd_directory_of, start,
  start_all, checked, run_multi, AdminConfig, Connection, create_kubeconfig_file_for_rest_config,
}
use k8ssandra_client.Envtest.Multi.{
  run_multi_kind, start_goroutines, cluster_at, interleave, move_at, move_start, all_started,
  after_wait,
}
use k8ssandra_client.Envtest.Interleaved.{request_in, requests}
use k8ssandra_client.Envtest.Created.{IsMade}
use k8ssandra_client.Envtest.Finished.{moves_of, run_multi_kind-returns}

-- A configuration is written as a letter for each node.
abbrev write : List Role → String
write [] = ""
write (control_plane ∷ nodes) = String.◌∷◌ "c" (write nodes)
write (worker ∷ nodes) = String.◌∷◌ "w" (write nodes)

abbrev config_of : List Role → KindConfig (Unit {0})
config_of nodes = record { nodes = nodes; other = tt }

abbrev read : String → List Role
read String.[] = []
read (String.◌∷◌ c s) = if nat_eq (code c) b'c' then control_plane ∷ read s else worker ∷ read s

abbrev lib : KindLib (Unit {0}) (Unit {0}) String String
lib = record {
  kind_config = "cww";
  unmarshal = λ s. ok (config_of (read s));
  marshal = λ c. ok (write c.nodes);
  create = λ name path config w. (ok tt, w);
  delete = λ name path w. (ok tt, w);
  build_config_from_file = λ path w. (ok path, w);
  new_client = λ rest w. (err (message "no server"), w);
}

abbrev manager : KindManager String String
manager = record {
  cluster_name = "cluster0";
  nodes = pos 2;
  kubeconfig_location = "/tmp/cluster0";
  client = none;
  rest_config = none;
}

has_two_workers : set_worker_nodes lib (pos 2) ≡ ok "cww"
unfolding set_worker_nodes append_workers rounds
has_two_workers = refl

has_no_workers : set_worker_nodes lib (negsuc 2) ≡ ok "c"
unfolding set_worker_nodes append_workers rounds
has_no_workers = refl

remembers_no_client :
    (Kind.get_client lib manager tt
      ≡ (err (message "no server"), record manager { client = some none }, tt))
    × (Kind.get_client lib (record manager { client = some none }) tt
        ≡ (ok none, record manager { client = some none }, tt))
unfolding Kind.get_client Kind.make_client Kind.after_new
remembers_no_client = (refl, refl)

-- The world is the number of servers that run.
abbrev env_lib : EnvLib ℕ String String
env_lib = record {
  start = λ e n. (ok "https://1.2.3.4", suc n);
  stop = λ e n. (ok tt, n - 1);
  cancel = λ n. (ok tt, n);
  add_cassdc = λ c n. (ok tt, n);
  add_global_cassdc = λ n. (ok tt, n);
  add_global_control = λ n. (ok tt, n);
  add_global_tasks = λ n. (ok tt, n);
  add_global_extensions = λ n. (ok tt, n);
}

abbrev kube : Library ℕ String String
kube = record {
  new = λ rest n. (ok rest, n);
  add_to_scheme = λ c n. (ok tt, n);
  new_namespaced_client = λ c namespace. c;
}

abbrev up : Environment String String
up = record {
  client = some "https://1.2.3.4";
  config = some "https://1.2.3.4";
  crd_directory = "/src/testfiles/crd";
  use_existing_cluster = false;
  error_if_crd_path_missing = true;
  kubeconfig = "";
  kind_cluster = none;
}

abbrev idle : List (Environment String String) → Exec ℕ (Unit {0})
idle es n = (ok tt, n)

abbrev connection : Connection
connection = record {
  host = "https://1.2.3.4";
  ca_data = "ca";
  cert_data = "cert";
  key_data = "key";
}

abbrev written : AdminConfig
written = create_kubeconfig_file_for_rest_config connection

context_leads_to_user :
    (lookup "default-context" written.contexts
      ≡ some (record { cluster = "default-cluster"; auth_info = "default-user" }))
    × (lookup "default-user" written.auth_infos ≡ some ("cert", "key"))
unfolding create_kubeconfig_file_for_rest_config lookup
context_leads_to_user = (refl, refl)

abbrev kind_lib : KindLib ℕ (Unit {0}) String String
kind_lib = record {
  kind_config = "cww";
  unmarshal = λ s. ok (config_of (read s));
  marshal = λ c. ok (write c.nodes);
  create = λ name path config n. (ok tt, n);
  delete = λ name path n. (ok tt, n);
  build_config_from_file = λ path n. (ok path, n);
  new_client = λ rest n. (ok rest, n);
}

abbrev in_turns : List ℕ
in_turns = 1 ∷ 0 ∷ 0 ∷ 1 ∷ []

both_twice : (i : ℕ) → i < 2 → 2 ≤ moves_of i in_turns
both_twice zero h = omega arith
both_twice (suc zero) h = omega arith
both_twice (suc (suc i)) h = absurd (omega (arith, h))

abbrev up_in : String → String → ℤ → Environment String String
up_in name path nodes = record {
  client = some "https://1.2.3.4";
  config = some "https://1.2.3.4";
  crd_directory = "/src/testfiles/crd";
  use_existing_cluster = true;
  error_if_crd_path_missing = true;
  kubeconfig = path;
  kind_cluster = some (record {
    cluster_name = name;
    nodes = nodes;
    kubeconfig_location = path;
    client = some (some path);
    rest_config = some path;
  });
}

abbrev both : List (Environment String String)
both = up_in "cluster0" "/tmp/cluster0" (pos 1) ∷ up_in "cluster1" "/tmp/cluster1" (pos 2) ∷ []

run_multi_kind-returns_example :
    (es : List (Environment String String)) × (some both ≡ some es)
    × (map request_in es ≡ requests "/tmp" 0 (pos 1 ∷ pos 2 ∷ []))
    × All (IsMade kind_lib) es
    × (ready : ℕ) × (idle es ready ≡ (ok tt, 2))
unfolding run_multi_kind start_goroutines cluster_at interleave move_at move_start all_started
    after_wait new_kind_environment of_created Kind.create_kind_cluster Kind.start_kind_cluster
    Kind.after_create set_worker_nodes append_workers rounds start checked crd_directory_of
    join_path clean get_client decimal
run_multi_kind-returns_example =
    run_multi_kind-returns kind_lib env_lib kube "/src" in_turns idle (pos 1 ∷ pos 2 ∷ []) "/tmp"
      (some both) 0 2 both_twice refl
