-- ===== src/Config/Tests/Files.antt =====
-- The theorems on YAML, nodes and files at inputs that meet their hypotheses.
use k8ssandra_client.Common.{
  Bool, String, ◌≡◌, ◌≢◌, refl, true, false, Option, none, some, [], ◌∷◌, Dict, lookup, Result, ok,
  panic, Error, message, insert, delete, ◌==◌, if◌then◌else◌,
}
use k8ssandra_client.Common.Disk.{Disk, file}
use k8ssandra_client.Common.Disk.Frame.{Leaves}
use k8ssandra_client.Common.Disk.Appends.{with_file, IsHealthy}
use k8ssandra_client.Common.Paths.{join_path}
use k8ssandra_client.Config.Types.{
  object, list, cons, nil, field, end, Ip, Value, str, bool, ConfigInput, NodeInfo, address,
}
use k8ssandra_client.Config.Overrides.{empty_env, empty_overrides}
use k8ssandra_client.Config.Jvm.Options.{copy_entries}
use k8ssandra_client.Config.Yaml.{
  keep_all_explicit, merge_yaml, address_overrides, k8ssandra_overrides,
  sidecar_k8ssandra_overrides, sidecar_body, set_first_instance, within, set_sections,
  disable_flags,
}
use k8ssandra_client.Config.Yaml.Laws.{override_of, lookup-k8ssandra_overrides}
use k8ssandra_client.Config.Yaml.Sidecar.{IsSidecar, sidecar_k8ssandra_overrides-IsSidecar}
use k8ssandra_client.Config.Node.{parse_bool, rpc_ip_for, parse_node_info}
use k8ssandra_client.Config.Files.{create_cassandra_env}
use k8ssandra_client.Config.Files.Laws.{env_text, create_cassandra_env_lem}
use k8ssandra_client.Config.Build.{Builder, Libraries, build}
use k8ssandra_client.Config.Build.Laws.{node_files, is_file_of, build-Leaves}
use k8ssandra_client.Config.Tests.Data.{plain}

-- A merge that lets the higher map win key by key.
abbrev overlay : Dict Value → Dict Value → Result (Dict Value)
overlay lower higher = ok (copy_entries (λ _. false) higher lower)

abbrev base_yaml : Dict Value
base_yaml = ("a", bool true) ∷ ("rpc_address", str "localhost") ∷ []

abbrev user_yaml : Dict Value
user_yaml = ("a", bool false) ∷ []

abbrev merged_yaml : Dict Value
merged_yaml = ("a", bool false) ∷ ("rpc_address", str "localhost") ∷ []

overlay_run : overlay base_yaml user_yaml ≡ ok merged_yaml
unfolding copy_entries insert
overlay_run = refl

merge_yaml_run : merge_yaml overlay base_yaml user_yaml ≡ ok merged_yaml
unfolding merge_yaml keep_all_explicit copy_entries insert
merge_yaml_run = refl

abbrev ten : Ip
ten = record { text = "10.0.0.1"; is_v4 = true; len = 16 }

abbrev node : NodeInfo
node = record {
  name = "pod-0";
  rack = "r1";
  listen_ip = some ten;
  broadcast_ip = some ten;
  rpc_ip = none;
}

abbrev input : ConfigInput
input = record {
  cluster_info = record { name = "c1"; seeds = "s1,s2" };
  datacenter_info = record { name = "dc1" };
  sidecar_yaml = [];
  overrides = empty_overrides;
  pod_overrides = [];
}

overridden : Dict Value
unfolding insert
overridden =
    ("a", bool false)
    ∷ ("rpc_address", str "<nil>")
    ∷ ("seed_provider", k8ssandra_client.Config.Yaml.seed_provider "s1,s2")
    ∷ ("listen_address", str "10.0.0.1")
    ∷ ("broadcast_rpc_address", address (some ten))
    ∷ ("endpoint_snitch", str "GossipingPropertyFileSnitch")
    ∷ ("cluster_name", str "c1")
    ∷ []

k8ssandra_overrides_run : k8ssandra_overrides merged_yaml input node ≡ ok overridden
unfolding k8ssandra_overrides lookup insert delete overridden
k8ssandra_overrides_run = refl

lookup-k8ssandra_overrides_example :
    lookup "cluster_name" overridden
    ≡ override_of input node (λ j. lookup j merged_yaml) "cluster_name"
lookup-k8ssandra_overrides_example =
    lookup-k8ssandra_overrides input node merged_yaml overridden k8ssandra_overrides_run
      "cluster_name"

-- The document that the sidecar needs at least.
abbrev empty_object : Value
empty_object = object end

abbrev sidecar_yaml : Dict Value
sidecar_yaml =
    ("cassandra_instances", list (cons empty_object nil))
    ∷ (
      "sidecar",
      object (field "coordination" (object (field "cluster_lease_claim" empty_object end)) end),
    )
    ∷ ("metrics", object (field "vertx" empty_object end))
    ∷ ("driver_parameters", empty_object)
    ∷ ("cluster_topology_monitor", empty_object)
    ∷ ("sidecar_peer_health", empty_object)
    ∷ ("schema_reporting", empty_object)
    ∷ []

abbrev is_ok : Result (Dict Value) → Bool
is_ok (ok m) = true
is_ok _ = false

sidecar_yaml_works : is_ok (sidecar_k8ssandra_overrides sidecar_yaml node) ≡ true
unfolding sidecar_k8ssandra_overrides sidecar_body set_first_instance within set_sections
    disable_flags lookup insert
sidecar_yaml_works = refl

sidecar_k8ssandra_overrides-IsSidecar_example :
    (sidecar_k8ssandra_overrides sidecar_yaml node ≢ panic)
    × ((r : Dict Value)
        → sidecar_k8ssandra_overrides sidecar_yaml node ≡ ok r
        → IsSidecar node sidecar_yaml r)
sidecar_k8ssandra_overrides-IsSidecar_example =
    sidecar_k8ssandra_overrides-IsSidecar node sidecar_yaml

-- Every text is an address.
abbrev any_ip : String → Option Ip
any_ip s = some (record { text = s; is_v4 = true; len = 16 })

abbrev env : String → String
env k = if k == "POD_IP" then "10.0.0.1" else ""

abbrev bad_env : String → String
bad_env k = if k == "USE_HOST_IP_FOR_BROADCAST" then "maybe" else ""

abbrev parsed : NodeInfo
parsed = record {
  name = "";
  rack = "";
  listen_ip = any_ip "10.0.0.1";
  broadcast_ip = any_ip "10.0.0.1";
  rpc_ip = any_ip "0.0.0.0";
}

parse_node_info_run : parse_node_info any_ip env ≡ ok parsed
unfolding parse_node_info parse_bool rpc_ip_for
parse_node_info_run = refl

abbrev not_bool : Error
not_bool = message "strconv.ParseBool: invalid syntax"

abbrev disk : Disk
disk = record {
  entries =
      ("/in/cassandra-env.sh", file "base") ∷ ("/in/jvm17-server.options", file "-ea\n# c\n") ∷ [];
  stat_fault = λ p. none;
  read_fault = λ p. none;
  open_fault = λ p. none;
  write_fault = λ p. none;
}

disk-IsHealthy : IsHealthy disk
disk-IsHealthy = record {
  stats = λ p. refl;
  reads = λ p. refl;
  opens = λ p. refl;
  writes = λ p. refl;
}

create_cassandra_env_example : create_cassandra_env empty_env "/in" "/out" disk ≡ (
  ok tt,
  with_file
      (join_path "/out" "cassandra-env.sh")
      (Prim.Native.String.◌++◌ "" (env_text empty_env "base"))
      disk,
)
unfolding join_path lookup
create_cassandra_env_example =
    create_cassandra_env_lem empty_env "/in" "/out" disk "base" "" disk-IsHealthy refl refl

abbrev libraries : Libraries
libraries = record {
  decode = λ s. ok input;
  parse_ip = any_ip;
  definitions = plain;
  yaml = record { unmarshal = λ s. ok base_yaml; marshal = λ m. ok "doc"; deep_merge = overlay };
}

abbrev builder : Builder
builder = record { config_input_dir = "/in"; config_output_dir = "/out"; sidecar = false }

build-Leaves_example : Leaves (is_file_of "/out" node_files) (build libraries builder env)
build-Leaves_example = build-Leaves libraries builder env
