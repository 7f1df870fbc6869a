-- ===== src/Config/Overrides.antt =====
-- podOverridesForNode and mergeCassandraEnvOptions of pkg/config/builder.go.
pub mod Laws
use k8ssandra_client.Common.{
  pos, is_positive, String, Option, none, some, List, [], ◌∷◌, ◌++◌, ◌==◌, not, lookup, leb, length,
  if◌then◌else◌,
}
use k8ssandra_client.Config.Types.{CassandraEnvOptions, ConfigOverrides, ConfigInput, NodeInfo}

abbrev pub empty_env : CassandraEnvOptions
empty_env = record { malloc_arena_max = pos 0; heap_dump_dir = ""; additional_opts = [] }

-- &ConfigOverrides{}
abbrev pub empty_overrides : ConfigOverrides
empty_overrides = record {
  cass_yaml = [];
  server_options = [];
  server_options11 = [];
  server_options17 = [];
  server_options21 = [];
  cassandra_env = empty_env;
}

abbrev or_empty : Option ConfigOverrides → ConfigOverrides
or_empty none = empty_overrides
or_empty (some o) = o

-- The pointer nodeInfo may be nil.
unfoldable pub pod_overrides_for_node : ConfigInput → Option NodeInfo → ConfigOverrides
pod_overrides_for_node c none = empty_overrides
pod_overrides_for_node c (some n) =
    if n.name == "" then empty_overrides else or_empty (lookup n.name c.pod_overrides)

unfoldable pub merge_cassandra_env_options :
    CassandraEnvOptions → CassandraEnvOptions → CassandraEnvOptions
merge_cassandra_env_options lower higher = record {
  malloc_arena_max =
      if is_positive higher.malloc_arena_max
      then higher.malloc_arena_max
      else lower.malloc_arena_max;
  heap_dump_dir =
      if not (higher.heap_dump_dir == "") then higher.heap_dump_dir else lower.heap_dump_dir;
  additional_opts =
      if leb 1 (length higher.additional_opts)
      then lower.additional_opts ++ higher.additional_opts
      else lower.additional_opts;
}
