-- ===== src/Config/Build/Laws.antt =====
-- Which files a build can change, and what it does where its input is refused.
use k8ssandra_client.Common.{
  String, ◌≡◌, Bool, true, false, List, [], ◌∷◌, ◌++◌, ok, err, any, All, ◌==◌, eq_refl, arith,
  Error, some, subst, append_assoc, any-append, ◌∙◌, ◌⊎◌, inl, inr, if◌then◌else◌,
}
use k8ssandra_client.Common.Disk.{Disk}
use k8ssandra_client.Common.Disk.Frame.{Leaves, Leaves-lift, Leaves-bind}
use k8ssandra_client.Common.Paths.{join_path}
use k8ssandra_client.Config.Types.{ConfigInput, ConfigOverrides, NodeInfo}
use k8ssandra_client.Config.Node.{parse_node_info}
use k8ssandra_client.Config.Overrides.{pod_overrides_for_node}
use k8ssandra_client.Config.Files.{
  create_jvm_options, create_sidecar_yaml, copied_files, copy_files,
}
use k8ssandra_client.Config.Files.Frame.{
  Leaves-create_rack_properties, Leaves-create_cassandra_env, Leaves-create_server_jvm_options,
  Leaves-create_cassandra_yaml, Leaves-create_sidecar_yaml, Leaves-copy_each,
}
use k8ssandra_client.Config.Build.{Builder, Libraries, with_env, build_node, build}

-- The files of a Cassandra node.
abbrev pub node_files : List String
node_files =
    "cassandra-rackdc.properties" ∷ "cassandra-env.sh" ∷ "jvm-server.options"
    ∷ "jvm11-server.options" ∷ "jvm17-server.options" ∷ "jvm21-server.options" ∷ "cassandra.yaml"
    ∷ copied_files

-- The path is that of one of the files in the directory.
unfoldable pub is_file_of : String → List String → String → Bool
is_file_of out names p = any (λ f. join_path out f == p) names

is_file_of_middle :
    (out f : String) (before names : List String)
    → is_file_of out (before ++ f ∷ names) (join_path out f) ≡ true
unfolding is_file_of
is_file_of_middle out f before names =
    any-append (λ g. join_path out g == join_path out f) before (f ∷ names)
    ∙ ground (arith, eq_refl (join_path out f))

is_file_of-All :
    (out : String) (before names : List String)
    → All (λ f. is_file_of out (before ++ names) (join_path out f) ≡ true) names
is_file_of-All out before [] = tt
is_file_of-All out before (f ∷ names) = (
  is_file_of_middle out f before names,
  subst (λ l. All (λ f. is_file_of out l (join_path out f) ≡ true) names)
      (append_assoc before (f ∷ []) names) (is_file_of-All out (before ++ f ∷ []) names),
)

module _ (lib : Libraries) (b : Builder) where
  Leaves-jvm :
      (o pod : ConfigOverrides)
      → All
          (λ f. is_file_of b.config_output_dir node_files (join_path b.config_output_dir f) ≡ true)
          node_files
      → Leaves
          (is_file_of b.config_output_dir node_files)
          (create_jvm_options lib.definitions o pod b.config_input_dir b.config_output_dir)
  unfolding create_jvm_options
  Leaves-jvm o pod w =
      let out = b.config_output_dir in
      let source = b.config_input_dir in
      let defs = lib.definitions in
      Leaves-bind _ _
        (Leaves-create_server_jvm_options defs o.server_options pod.server_options
          "jvm-server.options" source out w.1.1.0)
        λ _.
          Leaves-bind _ _
            (Leaves-create_server_jvm_options defs o.server_options11 pod.server_options11
              "jvm11-server.options" source out w.1.1.1.0)
            λ _.
              Leaves-bind _ _
                (Leaves-create_server_jvm_options defs o.server_options17 pod.server_options17
                  "jvm17-server.options" source out w.1.1.1.1.0)
                λ _.
                  Leaves-create_server_jvm_options defs o.server_options21 pod.server_options21
                    "jvm21-server.options" source out w.1.1.1.1.1.0

  Leaves-build_node :
      (input : ConfigInput) (node : NodeInfo) (pod : ConfigOverrides)
      → Leaves (is_file_of b.config_output_dir node_files) (build_node lib b input node pod)
  unfolding build_node copy_files
  Leaves-build_node input node pod =
      let out = b.config_output_dir in
      let source = b.config_input_dir in
      let w = is_file_of-All out [] node_files in
      Leaves-bind _ _ (Leaves-create_rack_properties input node out w.0) λ _.
        Leaves-bind _ _ (Leaves-create_cassandra_env input.overrides.cassandra_env source out w.1.0)
          λ _. Leaves-bind _ _ (Leaves-jvm input.overrides pod w) λ _.
            Leaves-bind _ _
              (Leaves-create_cassandra_yaml lib.yaml input node source out pod.cass_yaml
                w.1.1.1.1.1.1.0)
              λ _. Leaves-copy_each copied_files source out w.1.1.1.1.1.1.1

  Leaves-files :
      (input : ConfigInput) (node : NodeInfo) (pod : ConfigOverrides) (sidecar : Bool)
      → Leaves
          (is_file_of b.config_output_dir (if sidecar then "sidecar.yaml" ∷ [] else node_files))
          (if sidecar
            then create_sidecar_yaml lib.yaml input node b.config_input_dir b.config_output_dir
            else build_node lib b (with_env input pod) node pod)
  Leaves-files input node pod true =
      Leaves-create_sidecar_yaml lib.yaml input node b.config_input_dir b.config_output_dir
        (is_file_of_middle b.config_output_dir "sidecar.yaml" [] [])
  Leaves-files input node pod false = Leaves-build_node (with_env input pod) node pod

  -- Whether a build succeeds or fails, it changes no file outside those of the node in the output
  -- directory, and a build for the sidecar none but sidecar.yaml.
  pub build-Leaves :
      (env : String → String)
      → Leaves
          (is_file_of b.config_output_dir (if b.sidecar then "sidecar.yaml" ∷ [] else node_files))
          (build lib b env)
  unfolding build
  build-Leaves env =
      Leaves-bind {A = ConfigInput} _ _ (Leaves-lift (lib.decode (env "CONFIG_FILE_DATA"))) λ input.
        Leaves-bind {A = NodeInfo} _ _ (Leaves-lift (parse_node_info lib.parse_ip env))
          λ node. Leaves-files input node (pod_overrides_for_node input (some node)) b.sidecar

-- A configuration input or an environment that is refused leaves the disk as it is and is the
-- error of the build.
pub build_refused :
    (lib : Libraries) (b : Builder) (env : String → String) (d : Disk) (e : Error)
    → (lib.decode (env "CONFIG_FILE_DATA") ≡ err e)
      ⊎ ((input : ConfigInput) × (lib.decode (env "CONFIG_FILE_DATA") ≡ ok input)
          × (parse_node_info lib.parse_ip env ≡ err e))
    → build lib b env d ≡ (err e, d)
unfolding build
build_refused lib b env d e (inl h) = rw h
build_refused lib b env d e (inr (input, h, k)) = rw (h, k)
