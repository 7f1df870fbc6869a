-- ===== src/Config/Tests/Options.antt =====
-- Runs of the configuration builder, and the theorems at inputs that meet their hypotheses.
use k8ssandra_client.Common.{
  String, ◌≡◌, refl, List, [], ◌∷◌, Dict, lookup, ok, pos, or_else, insert,
}
use k8ssandra_client.Config.Types.{Value, str, list, cons, nil, CassandraEnvOptions}
use k8ssandra_client.Config.Jvm.{target_options, server_jvm_options}
use k8ssandra_client.Config.Jvm.Options.{merge_options}
use k8ssandra_client.Config.Jvm.Options.Laws.{lookup-merge_options}
use k8ssandra_client.Config.Jvm.Laws.{
  IsMergeOf, HasCollector, collector_options, server_jvm_options-IsMergeOf,
  server_jvm_options-HasCollector,
}
use k8ssandra_client.Config.Tests.Data.{jvm, plain}
use k8ssandra_client.Config.Jvm.Version.{jvm_version}

abbrev env_a : CassandraEnvOptions
env_a = record { malloc_arena_max = pos 4; heap_dump_dir = ""; additional_opts = "-Da" ∷ [] }

abbrev env_b : CassandraEnvOptions
env_b = record { malloc_arena_max = pos 0; heap_dump_dir = "/d"; additional_opts = "-Db" ∷ [] }

abbrev node_options : Dict Value
node_options =
    ("max_heap_size", str "1G")
    ∷ ("additional-jvm-opts", list (cons (str "-XX:+UseZGC") (cons (str "-Dx=1") nil)))
    ∷ []

abbrev pod_options : Dict Value
pod_options = ("max_heap_size", str "2G") ∷ []

abbrev merged_options : Dict Value
merged_options =
    ("max_heap_size", str "2G")
    ∷ ("additional-jvm-opts", list (cons (str "-XX:+UseZGC") (cons (str "-Dx=1") nil)))
    ∷ []

merge_options_run : merge_options node_options pod_options ≡ ok merged_options
unfolding merge_options lookup insert
merge_options_run = refl

lookup-merge_options_example :
    lookup "max_heap_size" merged_options
    ≡ or_else (lookup "max_heap_size" pod_options) (lookup "max_heap_size" node_options)
unfolding lookup
lookup-merge_options_example =
    lookup-merge_options node_options pod_options merged_options merge_options_run
      (refl, (refl, tt)) (refl, tt) "max_heap_size" refl

abbrev with_gc : Dict Value
with_gc =
    ("max_heap_size", str "2G")
    ∷ ("additional-jvm-opts", list (cons (str "-XX:+UseZGC") (cons (str "-Dx=1") nil)))
    ∷ ("garbage_collector", str "ZGC")
    ∷ []

target_options_run :
    target_options plain "jvm17-server.options" merged_options ≡ ok (with_gc, "-Dx=1" ∷ [])
unfolding jvm
target_options_run = refl

abbrev base_lines : List String
base_lines = "-XX:+UseG1GC" ∷ "-Dx=2" ∷ "-ea" ∷ []

abbrev run_lines : List String
run_lines = "-Dx=1" ∷ "-ea" ∷ "-XX:+UseZGC" ∷ []

server_jvm_options_run :
    server_jvm_options plain node_options pod_options "jvm17-server.options" base_lines
    ≡ ok run_lines
unfolding jvm
server_jvm_options_run = refl

server_jvm_options-IsMergeOf_example :
    IsMergeOf plain "jvm17-server.options" with_gc ("-Dx=1" ∷ []) base_lines run_lines
server_jvm_options-IsMergeOf_example =
    server_jvm_options-IsMergeOf plain node_options pod_options "jvm17-server.options" base_lines
      run_lines server_jvm_options_run merged_options (with_gc, "-Dx=1" ∷ []) merge_options_run
      target_options_run

server_jvm_options-HasCollector_example :
    HasCollector plain
      (jvm_version "jvm17-server.options")
      (collector_options (str "ZGC") "jvm17-server.options")
      ("-Dx=1" ∷ [])
      run_lines
unfolding jvm
server_jvm_options-HasCollector_example =
    server_jvm_options-HasCollector plain node_options pod_options "jvm17-server.options" base_lines
      run_lines server_jvm_options_run merged_options (with_gc, "-Dx=1" ∷ []) merge_options_run
      target_options_run (str "ZGC") refl refl
