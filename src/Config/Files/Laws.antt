-- ===== src/Config/Files/Laws.antt =====
-- What the builder's text files hold afterwards, on a disk without faults.
use Prim.Native.String
use k8ssandra_client.Common.{
  String, ◌≡◌, refl, Bool, true, false, not, some, List, [], ◌∷◌, ok, lookup, concat, is_positive,
  itoa, ◌==◌, if◌then◌else◌, Dict,
}
use k8ssandra_client.Common.Exec.{◌>>◌}
use k8ssandra_client.Common.Disk.{Disk, file, text_before, stat, append}
use k8ssandra_client.Common.Disk.Appends.{
  IsHealthy, with_file, Appends, Appends-pure, Appends-append, Appends-seq, Appends-open,
  read_file_lem,
}
use k8ssandra_client.Common.Paths.{join_path}
use k8ssandra_client.Config.Types.{CassandraEnvOptions, ConfigInput, NodeInfo, Value}
use k8ssandra_client.Config.Jvm.{Definitions, server_jvm_options}
use k8ssandra_client.Config.Jvm.Merging.{read_options}
use k8ssandra_client.Config.Files.{
  rack_text, create_rack_properties, append_if, append_opts, create_cassandra_env, append_lines,
  write_options, create_server_jvm_options,
}

-- The text of cassandra-rackdc.properties is appended to what the file held.
pub create_rack_properties_lem :
    (input : ConfigInput) (node : NodeInfo) (target_dir : String) (d : Disk) (before : String)
    → IsHealthy d
    → text_before (lookup (join_path target_dir "cassandra-rackdc.properties") d.entries)
      ≡ ok before
    → create_rack_properties input node target_dir d ≡ (
      ok tt,
      with_file
          (join_path target_dir "cassandra-rackdc.properties")
          (String.◌++◌ before (rack_text input.datacenter_info.name node.rack))
          d,
    )
unfolding create_rack_properties
create_rack_properties_lem input node target_dir d before h b =
    let target = join_path target_dir "cassandra-rackdc.properties" in
    Appends-open target _ (append target (rack_text input.datacenter_info.name node.rack))
      (Appends-append target _) d before h b

abbrev pub opt_lines : List String → String
opt_lines [] = ""
opt_lines (opt ∷ opts) =
    String.◌++◌ (concat ("JVM_OPTS=\"$JVM_OPTS " ∷ opt ∷ "\"\n" ∷ [])) (opt_lines opts)

abbrev arena_export : CassandraEnvOptions → String
arena_export env = concat ("export MALLOC_ARENA_MAX=" ∷ itoa env.malloc_arena_max ∷ "\n" ∷ [])

abbrev heap_export : CassandraEnvOptions → String
heap_export env = concat ("export CASSANDRA_HEAPDUMP_DIR=" ∷ env.heap_dump_dir ∷ "\n" ∷ [])

-- The text that createCassandraEnv adds, around that of the base file.
abbrev pub env_text : CassandraEnvOptions → String → String
env_text env base =
    String.◌++◌ (if is_positive env.malloc_arena_max then arena_export env else "") (
      String.◌++◌ (if not (env.heap_dump_dir == "") then heap_export env else "")
        (String.◌++◌ base (String.◌++◌ "\n" (opt_lines env.additional_opts))))

Appends-append_if :
    (b : Bool) (path text : String) → Appends path (if b then text else "") (append_if b path text)
Appends-append_if true path text = Appends-append path text
Appends-append_if false path text = Appends-pure path

Appends-append_opts :
    (path : String) (opts : List String) → Appends path (opt_lines opts) (append_opts path opts)
unfolding append_opts
Appends-append_opts path [] = record { at = (Appends-pure path).at }
Appends-append_opts path (opt ∷ opts) = record {
  at =
      (Appends-seq path _ (opt_lines opts)
        (append path (concat ("JVM_OPTS=\"$JVM_OPTS " ∷ opt ∷ "\"\n" ∷ []))) (append_opts path opts)
        (Appends-append path _) (Appends-append_opts path opts)).at;
}

Appends-env :
    (env : CassandraEnvOptions) (path base : String)
    → Appends path (env_text env base) (do
      append_if (is_positive env.malloc_arena_max) path (arena_export env)
      append_if (not (env.heap_dump_dir == "")) path (heap_export env)
      append path base
      append path "\n"
      append_opts path env.additional_opts)
Appends-env env path base =
    Appends-seq path _ _ _ _
      (Appends-append_if (is_positive env.malloc_arena_max) path (arena_export env))
      (Appends-seq path _ _ _ _
        (Appends-append_if (not (env.heap_dump_dir == "")) path (heap_export env))
        (Appends-seq path _ _ _ _ (Appends-append path base) (
          Appends-seq path _ _ _ _ (Appends-append path "\n")
            (Appends-append_opts path env.additional_opts))))

-- On a disk without faults that has the base file and no directory at the target,
-- createCassandraEnv appends the exports, the base file and one line for each option to the target
-- and changes nothing else.
pub create_cassandra_env_lem :
    (env : CassandraEnvOptions) (source_dir target_dir : String) (d : Disk) (base before : String)
    → IsHealthy d
    → lookup (join_path source_dir "cassandra-env.sh") d.entries ≡ some (file base)
    → text_before (lookup (join_path target_dir "cassandra-env.sh") d.entries) ≡ ok before
    → create_cassandra_env env source_dir target_dir d ≡ (
      ok tt,
      with_file
          (join_path target_dir "cassandra-env.sh")
          (String.◌++◌ before (env_text env base))
          d,
    )
unfolding create_cassandra_env
create_cassandra_env_lem env source_dir target_dir d base before h s b =
    rw (read_file_lem (join_path source_dir "cassandra-env.sh") base d h s) (
      Appends-open (join_path target_dir "cassandra-env.sh") _ _
        (Appends-env env (join_path target_dir "cassandra-env.sh") base) d before h b)

abbrev pub line_texts : List String → String
line_texts [] = ""
line_texts (l ∷ ls) = String.◌++◌ (concat (l ∷ "\n" ∷ [])) (line_texts ls)

Appends-append_lines :
    (path : String) (ls : List String) → Appends path (line_texts ls) (append_lines path ls)
unfolding append_lines
Appends-append_lines path [] = record { at = (Appends-pure path).at }
Appends-append_lines path (l ∷ ls) = record {
  at =
      (Appends-seq path _ (line_texts ls) (append path (concat (l ∷ "\n" ∷ [])))
        (append_lines path ls) (Appends-append path _) (Appends-append_lines path ls)).at;
}

-- The disk after the lines were written behind `before`; no file is created for no lines.
abbrev pub with_lines : String → String → List String → Disk → Disk
with_lines path before [] d = d
with_lines path before (l ∷ ls) d = with_file path (String.◌++◌ before (line_texts (l ∷ ls))) d

write_options_lem :
    (path : String) (lines : List String) (d : Disk) (before : String)
    → IsHealthy d
    → text_before (lookup path d.entries) ≡ ok before
    → write_options path lines d ≡ (ok tt, with_lines path before lines d)
write_options_lem path [] d before h b = refl
write_options_lem path (l ∷ ls) d before h b =
    Appends-open path _ (append_lines path (l ∷ ls)) (Appends-append_lines path (l ∷ ls)) d before h
      b

-- On a disk without faults that has a readable base file and no directory at the target, where the
-- merge succeeds, createServerJVMOptions appends one line for each merged option to the target,
-- and leaves the disk alone where there are none.
pub create_server_jvm_options_lem :
    (defs : Definitions) (base override : Dict Value) (filename source_dir target_dir : String)
    (d : Disk) (text before : String) (current lines : List String)
    → IsHealthy d
    → lookup (join_path source_dir filename) d.entries ≡ some (file text)
    → read_options text ≡ ok current
    → server_jvm_options defs base override filename current ≡ ok lines
    → text_before (lookup (join_path target_dir filename) d.entries) ≡ ok before
    → create_server_jvm_options defs base override filename source_dir target_dir d
      ≡ (ok tt, with_lines (join_path target_dir filename) before lines d)
unfolding create_server_jvm_options stat
create_server_jvm_options_lem defs base override filename source_dir target_dir d text before
      current lines h s r m b =
    rw (h.stats (join_path source_dir filename), s)
      (rw (read_file_lem (join_path source_dir filename) text d h s)
        (rw r (rw m (write_options_lem (join_path target_dir filename) lines d before h b))))
