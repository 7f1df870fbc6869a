-- ===== src/Config/Files/Frame.antt =====
-- The files that the functions of the builder can change.
use k8ssandra_client.Common.{
  String, ◌≡◌, refl, Bool, true, false, List, [], ◌∷◌, Result, ok, err, All, ◌==◌, Dict, Bool-cases,
  inl, inr, is_not_exist, is_positive, itoa, concat, not,
}
use k8ssandra_client.Common.Exec.{Exec}
use k8ssandra_client.Common.Disk.{Disk, Entry, stat, read_file, append, create, open_read, content}
use k8ssandra_client.Common.Disk.Frame.{
  Leaves, Leaves-pure, Leaves-lift, Leaves-reads, Leaves-bind, Leaves-open_append, Leaves-append,
  Leaves-create, Leaves-write_file,
}
use k8ssandra_client.Common.Paths.{join_path}
use k8ssandra_client.Config.Types.{Value, CassandraEnvOptions, ConfigInput, NodeInfo}
use k8ssandra_client.Config.Jvm.{Definitions, server_jvm_options}
use k8ssandra_client.Config.Files.{
  YamlLib, create_rack_properties, append_if, append_opts, create_cassandra_env, append_lines,
  write_options, read_jvm_server_options, create_server_jvm_options, write_yaml, cassandra_yaml,
  named_error, create_cassandra_yaml, create_sidecar_yaml, copy_file, wrap_open, wrap_create,
  copy_found, copy_each,
}
use k8ssandra_client.Config.Yaml.{merge_yaml, sidecar_k8ssandra_overrides}

module _ {written : String → Bool} where
  Leaves-append_if :
      (b : Bool) (path text : String) → written path ≡ true → Leaves written (append_if b path text)
  Leaves-append_if true path text w = Leaves-append path w text
  Leaves-append_if false path text w = Leaves-pure tt

  Leaves-append_opts :
      (path : String) (opts : List String)
      → written path ≡ true
      → Leaves written (append_opts path opts)
  unfolding append_opts
  Leaves-append_opts path [] w = Leaves-pure tt
  Leaves-append_opts path (opt ∷ opts) w = record {
    at =
        (Leaves-bind (append path _) (λ _. append_opts path opts) (Leaves-append path w _)
          (λ _. Leaves-append_opts path opts w)).at;
  }

  Leaves-append_lines :
      (path : String) (ls : List String)
      → written path ≡ true
      → Leaves written (append_lines path ls)
  unfolding append_lines
  Leaves-append_lines path [] w = Leaves-pure tt
  Leaves-append_lines path (l ∷ ls) w = record {
    at =
        (Leaves-bind (append path _) (λ _. append_lines path ls) (Leaves-append path w _)
          (λ _. Leaves-append_lines path ls w)).at;
  }

  pub Leaves-create_rack_properties :
      (input : ConfigInput) (node : NodeInfo) (out : String)
      → written (join_path out "cassandra-rackdc.properties") ≡ true
      → Leaves written (create_rack_properties input node out)
  unfolding create_rack_properties
  Leaves-create_rack_properties input node out w =
      Leaves-bind _ _ (Leaves-open_append _ w) (λ _. Leaves-append _ w _)

  pub Leaves-create_cassandra_env :
      (env : CassandraEnvOptions) (source out : String)
      → written (join_path out "cassandra-env.sh") ≡ true
      → Leaves written (create_cassandra_env env source out)
  unfolding create_cassandra_env
  Leaves-create_cassandra_env env source out w =
      let path = join_path out "cassandra-env.sh" in
      Leaves-bind _ _ (Leaves-reads (read_file (join_path source "cassandra-env.sh"))) λ f.
        Leaves-bind _ _ (Leaves-open_append path w) λ _.
          Leaves-bind _ _
            (Leaves-append_if (is_positive env.malloc_arena_max) path
              (concat ("export MALLOC_ARENA_MAX=" ∷ itoa env.malloc_arena_max ∷ "\n" ∷ [])) w)
            λ _.
              Leaves-bind _ _
                (Leaves-append_if (not (env.heap_dump_dir == "")) path
                  (concat ("export CASSANDRA_HEAPDUMP_DIR=" ∷ env.heap_dump_dir ∷ "\n" ∷ [])) w)
                λ _. Leaves-bind _ _ (Leaves-append path w f) λ _.
                  Leaves-bind _ _ (Leaves-append path w "\n")
                    λ _. Leaves-append_opts path env.additional_opts w

  Leaves-write_options :
      (path : String) (lines : List String)
      → written path ≡ true
      → Leaves written (write_options path lines)
  Leaves-write_options path [] w = Leaves-pure tt
  Leaves-write_options path (l ∷ ls) w =
      Leaves-bind _ _ (Leaves-open_append path w) (λ _. Leaves-append_lines path (l ∷ ls) w)

  pub Leaves-create_server_jvm_options :
      (defs : Definitions) (base override : Dict Value) (filename source out : String)
      → written (join_path out filename) ≡ true
      → Leaves written (create_server_jvm_options defs base override filename source out)
  unfolding create_server_jvm_options
  Leaves-create_server_jvm_options defs base override filename source out w =
      Leaves-bind {A = List String} _ _
        (Leaves-reads (read_jvm_server_options (join_path source filename)))
        λ current.
          Leaves-bind _ _ (Leaves-lift (server_jvm_options defs base override filename current))
            λ lines. Leaves-write_options (join_path out filename) lines w

  Leaves-write_yaml :
      (yaml : YamlLib) (doc : Dict Value) (path : String)
      → written path ≡ true
      → Leaves written (write_yaml yaml doc path)
  unfolding write_yaml
  Leaves-write_yaml yaml doc path w =
      Leaves-bind _ _ (Leaves-lift _) (λ b. Leaves-write_file path w b)

  pub Leaves-create_cassandra_yaml :
      (yaml : YamlLib) (input : ConfigInput) (node : NodeInfo) (source out : String)
      (final : Dict Value)
      → written (join_path out "cassandra.yaml") ≡ true
      → Leaves written (create_cassandra_yaml yaml input node source out final)
  unfolding create_cassandra_yaml
  Leaves-create_cassandra_yaml yaml input node source out final w = record {
    at = λ d.
        (Leaves-bind _ _ (Leaves-reads (read_file _)) λ file.
            Leaves-bind {A = Dict Value} _ _ (Leaves-lift (yaml.unmarshal file)) λ base.
              Leaves-bind _ _ (Leaves-lift (cassandra_yaml yaml base input node final))
                λ doc. Leaves-write_yaml yaml doc _ w).at
          d;
  }

  pub Leaves-create_sidecar_yaml :
      (yaml : YamlLib) (input : ConfigInput) (node : NodeInfo) (source out : String)
      → written (join_path out "sidecar.yaml") ≡ true
      → Leaves written (create_sidecar_yaml yaml input node source out)
  unfolding create_sidecar_yaml
  Leaves-create_sidecar_yaml yaml input node source out w =
      Leaves-bind {A = String} _ _ (Leaves-reads (read_file (join_path source "sidecar.yaml")))
        λ file.
          Leaves-bind {A = Dict Value} _ _
            (Leaves-lift (named_error "invalid sidecar.yaml" (yaml.unmarshal file)))
            λ base.
              Leaves-bind {A = Dict Value} _ _
                (Leaves-lift (merge_yaml yaml.deep_merge base input.sidecar_yaml))
                λ merged.
                  Leaves-bind _ _ (Leaves-lift (sidecar_k8ssandra_overrides merged node))
                    λ doc. Leaves-write_yaml yaml doc _ w

  Leaves-wrap_create :
      (path : String) (m : Exec Disk (Unit {0}))
      → Leaves written m
      → Leaves written (wrap_create path m)
  Leaves-wrap_create path m h = record { at = h.at }

  Leaves-copy_file :
      (source target : String) → written target ≡ true → Leaves written (copy_file source target)
  unfolding copy_file
  Leaves-copy_file source target w =
      Leaves-bind {A = Entry} _ _ (Leaves-reads (λ d. wrap_open source (open_read source d))) λ src.
        Leaves-bind _ _ (Leaves-wrap_create target (create target) (Leaves-create target w)) λ _.
          Leaves-bind {A = String} _ _ (Leaves-lift (content source src))
            λ text. Leaves-append target w text

  Leaves-copy_found :
      (r : Result Entry) (source target : String)
      → written target ≡ true
      → Leaves written (copy_found r source target)
  Leaves-copy_found (ok e) source target w = Leaves-copy_file source target w
  Leaves-copy_found (err e) source target w = elim (Bool-cases (is_not_exist e)) [
    | inl missing ↦ rw missing (Leaves-pure tt)
    | inr other ↦ rw other (record { at = λ d p h. refl })
  ]
  Leaves-copy_found Result.panic source target w = Leaves-lift _

  pub Leaves-copy_each :
      (names : List String) (source out : String)
      → All (λ f. written (join_path out f) ≡ true) names
      → Leaves written (copy_each names source out)
  unfolding copy_each
  Leaves-copy_each [] source out w = Leaves-pure tt
  Leaves-copy_each (f ∷ fs) source out (w, ws) = record {
    at = λ d.
        (Leaves-bind _ (λ _. copy_each fs source out)
            (Leaves-copy_found (stat (join_path source f) d) (join_path source f) (join_path out f)
              w)
            (λ _. Leaves-copy_each fs source out ws)).at
          d;
  }
