-- ===== src/Cli/Commands.antt =====
-- The commands that run: the constructors in operate.go, users/add.go, config/builder.go,
-- helm/crds.go, nodetool.go, tools/estimate.go and register/command.go, without their help texts.
use k8ssandra_client.Common.{
  pos, String, Bool, true, false, Option, some, List, [], ◌∷◌, Result, ok, ◌>>=◌,
}
use k8ssandra_client.Common.Exec.{Exec}
use k8ssandra_client.Cli.Flags.{
  Value, switch, number, text, texts, Flag, flag, short_flag, FlagLib, define_all, require_all,
}

-- The values of the flags by their names, as they are after cobra has parsed a command line.
abbrev pub Values : Type 0
Values = String → Value

-- PreRunE and RunE, which cobra calls one after the other, until one returns an error.
abbrev pub Closure : Type 0 → Type 0
Closure W = Values → List String → Exec W (Unit {0})

-- cobra.Command without its subcommands.
pub record Command (W F : Type 0) : Type 0 where
  pub use_line : String
  pub silence_usage : Bool
  pub flags : F
  pub run_e : Option (Closure W)

abbrev pub start_flags : List Flag
start_flags = short_flag "wait" "w" (switch false) ∷ flag "rack" (text "") ∷ []

abbrev pub wait_flags : List Flag
wait_flags = short_flag "wait" "w" (switch false) ∷ []

abbrev pub add_flags : List Flag
add_flags =
    flag "path" (text "")
    ∷ flag "dc" (text "")
    ∷ flag "superuser" (switch true)
    ∷ short_flag "username" "u" (text "")
    ∷ short_flag "password" "p" (text "")
    ∷ []

abbrev pub builder_flags : List Flag
builder_flags =
    flag "input" (text "") ∷ flag "output" (text "") ∷ flag "sidecar" (switch false) ∷ []

abbrev pub upgrade_flags : List Flag
upgrade_flags =
    flag "chartName" (text "")
    ∷ flag "chartVersion" (text "")
    ∷ flag "chartRepo" (text "")
    ∷ flag "repoURL" (text "")
    ∷ flag "charts" (texts [])
    ∷ flag "download" (switch false)
    ∷ []

abbrev pub estimate_flags : List Flag
estimate_flags =
    flag "count" (number (pos 0)) ∷ flag "cpu" (text "0") ∷ flag "memory" (text "0") ∷ []

abbrev pub register_flags : List Flag
register_flags =
    flag "source-kubeconfig" (text "")
    ∷ flag "dest-kubeconfig" (text "")
    ∷ flag "source-context" (text "")
    ∷ flag "dest-context" (text "")
    ∷ flag "source-namespace" (text "k8ssandra-operator")
    ∷ flag "dest-namespace" (text "k8ssandra-operator")
    ∷ flag "serviceaccount-name" (text "k8ssandra-operator")
    ∷ flag "destination-name" (text "")
    ∷ flag "override-src-ip" (text "")
    ∷ flag "override-src-port" (text "")
    ∷ []

module _ {W F : Type 0} (lib : FlagLib F) where
  unfoldable pub new_start_cmd : Closure W → Result (Command W F)
  new_start_cmd run_e = do
    flags ← define_all lib start_flags lib.new_flags
    flags' ← lib.add_config_flags flags
    ok (record {
      use_line = "start [cluster]";
      silence_usage = true;
      flags = flags';
      run_e = some run_e;
    })

  unfoldable pub new_restart_cmd : Closure W → Result (Command W F)
  new_restart_cmd run_e = do
    flags ← define_all lib wait_flags lib.new_flags
    flags' ← lib.add_config_flags flags
    ok (record {
      use_line = "restart [cluster]";
      silence_usage = true;
      flags = flags';
      run_e = some run_e;
    })

  unfoldable pub new_stop_cmd : Closure W → Result (Command W F)
  new_stop_cmd run_e = do
    flags ← define_all lib wait_flags lib.new_flags
    flags' ← lib.add_config_flags flags
    ok (record {
      use_line = "stop [cluster]";
      silence_usage = true;
      flags = flags';
      run_e = some run_e;
    })

  unfoldable pub new_add_cmd : Closure W → Result (Command W F)
  new_add_cmd run_e = do
    flags ← define_all lib add_flags lib.new_flags
    flags' ← lib.add_config_flags flags
    ok (record {
      use_line = "add [flags]";
      silence_usage = false;
      flags = flags';
      run_e = some run_e;
    })

  unfoldable pub new_builder_cmd : Closure W → Result (Command W F)
  new_builder_cmd run_e = do
    flags ← define_all lib builder_flags lib.new_flags
    flags' ← lib.add_config_flags flags
    ok (record {
      use_line = "build [flags]";
      silence_usage = true;
      flags = flags';
      run_e = some run_e;
    })

  unfoldable pub new_upgrade_cmd : Closure W → Result (Command W F)
  new_upgrade_cmd run_e = do
    flags ← define_all lib upgrade_flags lib.new_flags
    flags' ← lib.add_config_flags flags
    flags'' ← require_all lib ("chartName" ∷ "chartVersion" ∷ []) flags'
    ok (record {
      use_line = "upgrade [flags]";
      silence_usage = true;
      flags = flags'';
      run_e = some run_e;
    })

  unfoldable pub new_nodetool_cmd : Closure W → Result (Command W F)
  new_nodetool_cmd run_e = do
    flags ← lib.add_config_flags lib.new_flags
    ok (record {
      use_line = "nodetool [pod] [flags]";
      silence_usage = true;
      flags = flags;
      run_e = some run_e;
    })

  unfoldable pub new_estimate_cmd : Closure W → Result (Command W F)
  new_estimate_cmd run_e = do
    flags ← define_all lib estimate_flags lib.new_flags
    flags' ← require_all lib ("memory" ∷ "cpu" ∷ "count" ∷ []) flags
    flags'' ← lib.add_config_flags flags'
    ok (record {
      use_line = "estimate [flags]";
      silence_usage = false;
      flags = flags'';
      run_e = some run_e;
    })

  -- The command that SetupRegisterClusterCmd adds.
  unfoldable pub register_cluster_cmd : Closure W → Result (Command W F)
  register_cluster_cmd run_e = do
    flags ← define_all lib register_flags lib.new_flags
    flags' ← require_all lib ("source-context" ∷ "dest-context" ∷ []) flags
    flags'' ← lib.mark_required_together ("override-src-ip" ∷ "override-src-port" ∷ []) flags'
    ok (record {
      use_line = "register [flags]";
      silence_usage = false;
      flags = flags'';
      run_e = some run_e;
    })
