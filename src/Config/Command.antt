-- ===== src/Config/Command.antt =====
-- cmd/kubectl-k8ssandra/config/builder.go: the command that builds the configuration.
use mathlib.Core.Bool.{not}
use k8ssandra_client.Common.{String, Bool, ◌||◌, List, [], ◌∷◌, ◌++◌, message, ◌==◌, if◌then◌else◌}
use k8ssandra_client.Common.Exec.{Exec, pure, raise, ◌>>◌}
use k8ssandra_client.Common.Disk.{Disk}
use k8ssandra_client.Config.Build.{BuilderOption, Libraries, with_sidecar, new_builder, build}

pub record BuilderOptions : Type 0 where
  pub input_dir : String
  pub output_dir : String
  pub sidecar : Bool
  pub config_builder_options : List BuilderOption

unfoldable pub complete : BuilderOptions → BuilderOptions
complete o =
    if o.sidecar
    then record o { config_builder_options = o.config_builder_options ++ with_sidecar ∷ [] }
    else o

unfoldable pub validate : BuilderOptions → Exec Disk (Unit {0})
validate o =
    if not o.sidecar
    then pure tt
    else if o.input_dir == "" || o.output_dir == ""
    then raise (message "--input and --output are required when using --sidecar")
    else pure tt

module _ (lib : Libraries) where
  unfoldable pub run : BuilderOptions → (String → String) → Exec Disk (Unit {0})
  run o env = build lib (new_builder o.input_dir o.output_dir o.config_builder_options) env

  -- The command, from its flags.
  unfoldable pub build_command : String → String → Bool → (String → String) → Exec Disk (Unit {0})
  build_command input output sidecar env = do
    let o = complete (record {
      input_dir = input;
      output_dir = output;
      sidecar = sidecar;
      config_builder_options = [];
    })
    validate o
    run o env
