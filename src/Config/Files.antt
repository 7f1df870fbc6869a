-- ===== src/Config/Files.antt =====
-- The files that pkg/config/builder.go writes into the target directory.
pub mod Laws
pub mod Frame
use k8ssandra_client.Common.{
  ℕ, String, Bool, true, false, Option, none, some, List, [], ◌∷◌, Dict, Result, ok, err,
  is_positive, itoa, is_not_exist, not, ◌==◌, concat, if◌then◌else◌, length, ltb, message, wrapped,
  bind,
}
use k8ssandra_client.Common.Exec.{Exec, pure, raise, lift, ◌>>=◌, ◌>>◌}
use k8ssandra_client.Common.Disk.{
  Disk, Entry, stat, read_file, content, open_read, open_append, append, create, write_file,
}
use k8ssandra_client.Common.Paths.{join_path}
use k8ssandra_client.Config.Types.{
  Value, ConfigInput, ConfigOverrides, CassandraEnvOptions, NodeInfo,
}
use k8ssandra_client.Config.Jvm.{Definitions, server_jvm_options}
use k8ssandra_client.Config.Jvm.Merging.{read_options}
use k8ssandra_client.Config.Yaml.{merge_yaml, k8ssandra_overrides, sidecar_k8ssandra_overrides}

-- A call that only reads the disk.
abbrev pub reads {ℓ} : {A : Type ℓ} → (Disk → Result A) → Disk → Result A × Disk
reads f d = (f d, d)

unfoldable pub rack_text : String → String → String
rack_text dc rack = concat ("dc=" ∷ dc ∷ "\nrack=" ∷ rack ∷ "\n" ∷ [])

unfoldable pub create_rack_properties : ConfigInput → NodeInfo → String → Exec Disk (Unit {0})
unfolding rack_text
create_rack_properties input node target_dir = do
  let target = join_path target_dir "cassandra-rackdc.properties"
  open_append target
  append target (rack_text input.datacenter_info.name node.rack)

-- A write that is made only if the test holds.
abbrev append_if : Bool → String → String → Exec Disk (Unit {0})
append_if true path text = append path text
append_if false path text = pure tt

-- The loop over AdditionalOpts.
unfoldable pub append_opts : String → List String → Exec Disk (Unit {0})
append_opts path [] d = (ok tt, d)
append_opts path (opt ∷ opts) d =
    (append path (concat ("JVM_OPTS=\"$JVM_OPTS " ∷ opt ∷ "\"\n" ∷ [])) >> append_opts path opts) d

unfoldable pub create_cassandra_env : CassandraEnvOptions → String → String → Exec Disk (Unit {0})
unfolding append_opts
create_cassandra_env env source_dir target_dir = do
  f ← reads (read_file (join_path source_dir "cassandra-env.sh"))
  let target = join_path target_dir "cassandra-env.sh"
  open_append target
  append_if (is_positive env.malloc_arena_max) target
      (concat ("export MALLOC_ARENA_MAX=" ∷ itoa env.malloc_arena_max ∷ "\n" ∷ []))
  append_if (not (env.heap_dump_dir == "")) target
      (concat ("export CASSANDRA_HEAPDUMP_DIR=" ∷ env.heap_dump_dir ∷ "\n" ∷ []))
  append target f
  append target "\n"
  append_opts target env.additional_opts

-- readJvmServerOptions: a file that is not there has no options.
abbrev options_at : Result Entry → String → Disk → Result (List String)
options_at (ok e) path d = bind (read_file path d) read_options
options_at (err e) path d = if is_not_exist e then ok [] else err e
options_at Result.panic path d = Result.panic

unfoldable pub read_jvm_server_options : String → Disk → Result (List String)
read_jvm_server_options path d = options_at (stat path d) path d

-- The loop that writes the lines.
unfoldable pub append_lines : String → List String → Exec Disk (Unit {0})
append_lines path [] d = (ok tt, d)
append_lines path (l ∷ ls) d = (append path (concat (l ∷ "\n" ∷ [])) >> append_lines path ls) d

-- No file is created where there is nothing to write.
abbrev write_options : String → List String → Exec Disk (Unit {0})
write_options target [] = pure tt
write_options target (l ∷ ls) = do open_append target; append_lines target (l ∷ ls)

module _ (defs : Definitions) where
  unfoldable pub create_server_jvm_options :
      Dict Value → Dict Value → String → String → String → Exec Disk (Unit {0})
  unfolding read_jvm_server_options append_lines
  create_server_jvm_options base override filename source_dir target_dir = do
    current ← reads (read_jvm_server_options (join_path source_dir filename))
    lines ← lift (server_jvm_options defs base override filename current)
    write_options (join_path target_dir filename) lines

  unfoldable pub create_jvm_options :
      ConfigOverrides → ConfigOverrides → String → String → Exec Disk (Unit {0})
  unfolding create_server_jvm_options
  create_jvm_options o pod source_dir target_dir = do
    create_server_jvm_options o.server_options pod.server_options "jvm-server.options" source_dir
        target_dir
    create_server_jvm_options o.server_options11 pod.server_options11 "jvm11-server.options"
        source_dir target_dir
    create_server_jvm_options o.server_options17 pod.server_options17 "jvm17-server.options"
        source_dir target_dir
    create_server_jvm_options o.server_options21 pod.server_options21 "jvm21-server.options"
        source_dir target_dir

-- fmt.Errorf with %w, and errors.Wrap, of an error.
abbrev named_error {ℓ} : {A : Type ℓ} → String → Result A → Result A
named_error text (err e) = err (wrapped text e)
named_error text (ok a) = ok a
named_error text Result.panic = Result.panic

-- gopkg.in/yaml.v3 over maps, and goalesce.DeepMerge.
pub record YamlLib : Type 0 where
  pub unmarshal : String → Result (Dict Value)
  pub marshal : Dict Value → Result String
  pub deep_merge : Dict Value → Dict Value → Result (Dict Value)

module _ (yaml : YamlLib) where
  unfoldable pub write_yaml : Dict Value → String → Exec Disk (Unit {0})
  write_yaml doc target = do b ← lift (yaml.marshal doc); write_file target b

  -- cassandra_latest.yaml, if os.Stat finds it.
  abbrev config_file_name : Result Entry → String
  config_file_name (ok e) = "cassandra_latest.yaml"
  config_file_name _ = "cassandra.yaml"

  -- `len(finalOverrides) > 0`
  abbrev with_final : Dict Value → Dict Value → Result (Dict Value)
  with_final merged [] = ok merged
  with_final merged (o ∷ os) = merge_yaml yaml.deep_merge merged (o ∷ os)

  -- The document of cassandra.yaml, from that of the base file.
  unfoldable pub cassandra_yaml :
      Dict Value → ConfigInput → NodeInfo → Dict Value → Result (Dict Value)
  cassandra_yaml base input node final =
      bind (merge_yaml yaml.deep_merge base input.overrides.cass_yaml)
        λ merged. bind (k8ssandra_overrides merged input node) λ required. with_final required final

  unfoldable pub create_cassandra_yaml :
      ConfigInput → NodeInfo → String → String → Dict Value → Exec Disk (Unit {0})
  unfolding cassandra_yaml write_yaml
  create_cassandra_yaml input node source_dir target_dir final d =
      (do
        file ← reads (
            read_file (
              join_path source_dir
                (config_file_name (stat (join_path source_dir "cassandra_latest.yaml") d))))
        base ← lift (yaml.unmarshal file)
        doc ← lift (cassandra_yaml base input node final)
        write_yaml doc (join_path target_dir "cassandra.yaml"))
        d

  unfoldable pub create_sidecar_yaml :
      ConfigInput → NodeInfo → String → String → Exec Disk (Unit {0})
  unfolding write_yaml
  create_sidecar_yaml input node source_dir target_dir = do
    file ← reads (read_file (join_path source_dir "sidecar.yaml"))
    base ← lift (named_error "invalid sidecar.yaml" (yaml.unmarshal file))
    merged ← lift (merge_yaml yaml.deep_merge base input.sidecar_yaml)
    doc ← lift (sidecar_k8ssandra_overrides merged node)
    write_yaml doc (join_path target_dir "sidecar.yaml")

-- errors.Wrap(err, "failed to open " + path)
abbrev wrap_open {ℓ} : {A : Type ℓ} → String → Result A → Result A
wrap_open path r = named_error (concat ("failed to open " ∷ path ∷ [])) r

abbrev wrap_create : String → Exec Disk (Unit {0}) → Exec Disk (Unit {0})
wrap_create path m d = (wrap_open path (m d).0, (m d).1)

unfoldable pub copy_file : String → String → Exec Disk (Unit {0})
copy_file source target = do
  src ← reads (λ d. wrap_open source (open_read source d))
  wrap_create target (create target)
  text ← lift (content source src)
  append target text

abbrev pub copied_files : List String
copied_files =
    "jvm-clients.options" ∷ "jvm11-clients.options" ∷ "jvm17-clients.options" ∷ "logback.xml"
    ∷ "logback-tools.xml" ∷ "jvm-dependent.sh" ∷ "jvm.options" ∷ "cassandra-jaas.config" ∷ []

abbrev copy_found : Result Entry → String → String → Exec Disk (Unit {0})
copy_found (ok e) source target = copy_file source target
copy_found (err e) source target = if is_not_exist e then pure tt else raise e
copy_found Result.panic source target = lift Result.panic

-- The loop of copyFiles.
unfoldable pub copy_each : List String → String → String → Exec Disk (Unit {0})
unfolding copy_file
copy_each [] source_dir target_dir d = (ok tt, d)
copy_each (f ∷ fs) source_dir target_dir d =
    (copy_found (stat (join_path source_dir f) d) (join_path source_dir f) (join_path target_dir f)
        >> copy_each fs source_dir target_dir)
      d

unfoldable pub copy_files : String → String → Exec Disk (Unit {0})
unfolding copy_each
copy_files = copy_each copied_files
