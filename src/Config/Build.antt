-- ===== src/Config/Build.antt =====
-- Builder of pkg/config/builder.go: from the environment and the base files to the node's files.
pub mod Laws
use k8ssandra_client.Common.{
  String, Bool, true, false, Option, none, some, List, [], ◌∷◌, Result, ok, ◌==◌, if◌then◌else◌,
}
use k8ssandra_client.Common.Exec.{Exec, pure, raise, lift, ◌>>=◌, ◌>>◌}
use k8ssandra_client.Common.Disk.{Disk}
use k8ssandra_client.Config.Types.{Ip, ConfigInput, ConfigOverrides, NodeInfo}
use k8ssandra_client.Config.Overrides.{pod_overrides_for_node, merge_cassandra_env_options}
use k8ssandra_client.Config.Node.{parse_node_info}
use k8ssandra_client.Config.Jvm.{Definitions}
use k8ssandra_client.Config.Files.{
  YamlLib, create_rack_properties, create_cassandra_env, create_jvm_options, create_cassandra_yaml,
  create_sidecar_yaml, copy_files,
}

pub record Builder : Type 0 where
  pub config_input_dir : String
  pub config_output_dir : String
  pub sidecar : Bool

abbrev pub BuilderOption : Type 0
BuilderOption = Builder → Builder

unfoldable pub with_sidecar : BuilderOption
with_sidecar b = record b { sidecar = true }

abbrev apply_options : List BuilderOption → Builder → Builder
apply_options [] b = b
apply_options (opt ∷ opts) b = apply_options opts (opt b)

unfoldable pub new_builder : String → String → List BuilderOption → Builder
new_builder input output opts = apply_options opts (record {
  config_input_dir = if input == "" then "/cassandra-base-config" else input;
  config_output_dir = if output == "" then "/config" else output;
  sidecar = false;
})

-- What the builder takes from elsewhere: the JSON decoder into ConfigInput, net.ParseIP, the
-- definitions parser and the YAML libraries.
pub record Libraries : Type 0 where
  pub decode : String → Result ConfigInput
  pub parse_ip : String → Option Ip
  pub definitions : Definitions
  pub yaml : YamlLib

-- `configInput.CassandraEnv = mergeCassandraEnvOptions(...)`
abbrev pub with_env : ConfigInput → ConfigOverrides → ConfigInput
with_env input pod = record {
  cluster_info = input.cluster_info;
  datacenter_info = input.datacenter_info;
  sidecar_yaml = input.sidecar_yaml;
  overrides = record {
    cass_yaml = input.overrides.cass_yaml;
    server_options = input.overrides.server_options;
    server_options11 = input.overrides.server_options11;
    server_options17 = input.overrides.server_options17;
    server_options21 = input.overrides.server_options21;
    cassandra_env = merge_cassandra_env_options input.overrides.cassandra_env pod.cassandra_env;
  };
  pod_overrides = input.pod_overrides;
}

module _ (lib : Libraries) where
  -- The files of a Cassandra node, in the order in which they are written.
  unfoldable pub build_node :
      Builder → ConfigInput → NodeInfo → ConfigOverrides → Exec Disk (Unit {0})
  build_node b input node pod = do
    create_rack_properties input node b.config_output_dir
    create_cassandra_env input.overrides.cassandra_env b.config_input_dir b.config_output_dir
    create_jvm_options lib.definitions input.overrides pod b.config_input_dir b.config_output_dir
    create_cassandra_yaml lib.yaml input node b.config_input_dir b.config_output_dir pod.cass_yaml
    copy_files b.config_input_dir b.config_output_dir

  unfoldable pub build : Builder → (String → String) → Exec Disk (Unit {0})
  unfolding build_node
  build b env = do
    input ← lift (lib.decode (env "CONFIG_FILE_DATA"))
    node ← lift (parse_node_info lib.parse_ip env)
    let pod = pod_overrides_for_node input (some node)
    if b.sidecar
        then create_sidecar_yaml lib.yaml input node b.config_input_dir b.config_output_dir
        else build_node b (with_env input pod) node pod
