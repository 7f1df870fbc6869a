-- ===== src/Cli/Runs.antt =====
-- What each command runs, from the values of its flags: the variables that its flags are bound to are
-- the fields of its options.
use Prim.Native.Char.{Char}
use k8ssandra_client.Common.{ℤ, pos, ℕ, String, Bool, false, Option, List, [], Result, Error}
use k8ssandra_client.Common.Exec.{Exec, pure, lift, ◌>>=◌}
use k8ssandra_client.Common.Disk.{Disk}
use k8ssandra_client.Common.Poll.{Poll}
use k8ssandra_client.Cli.Flags.{Value, switch, number, text, texts}
use k8ssandra_client.Cli.Commands.{Values, Closure}
use k8ssandra_client.Tasks.Create.{TaskClient, CassandraTask}
use k8ssandra_client.Datacenter.Fetch.{Client, CassandraDatacenter}
use k8ssandra_client.Datacenter.Operate.{run_command, restart_command}
use k8ssandra_client.Datacenter.Auth.{Gabs}
use k8ssandra_client.Kube.{Library}
use k8ssandra_client.Datacenter.ExecOptions.{RestConfig, ExecOptions, ConfigFlags, RestLib}
use k8ssandra_client.Datacenter.Nodetool.{nodetool_command}
use k8ssandra_client.Ui.Prompter.{Msg, TextInput}
use k8ssandra_client.Users.Secrets.{Visit}
use k8ssandra_client.Users.Roles.{Session}
use k8ssandra_client.Users.Add.{AddOptions, add_command}
use k8ssandra_client.Config.Build.{Libraries}
use k8ssandra_client.Config.Command.{build_command}
use k8ssandra_client.Helm.Charts.{Object, Files}
use k8ssandra_client.Helm.Crds.{Definition, CrdClient}
use k8ssandra_client.Helm.Cache.{FileSystem}
use k8ssandra_client.Helm.Fetch.{Downloader}
use k8ssandra_client.Helm.Upgrade.{UpgradeOptions}
use k8ssandra_client.Helm.Upgrade as Upgrade
use k8ssandra_client.Scheduler.Estimate.{
  Quantities, Cluster, Log, EstimateOptions, estimate_command,
}
use k8ssandra_client.Register.Kubeconfig.{Host}
use k8ssandra_client.Register.Cluster.{Api, register_cluster}
use k8ssandra_client.Register.Names.{new_registration_executor_from_register_cluster_cmd}
use k8ssandra_client.Register.Retry.{entrypoint}

-- A variable of another type than its flag keeps its zero value.
abbrev pub switch_of : Value → Bool
switch_of (switch b) = b
switch_of _ = false

abbrev pub number_of : Value → ℤ
number_of (number z) = z
number_of _ = pos 0

abbrev pub text_of : Value → String
text_of (text s) = s
text_of _ = ""

abbrev pub texts_of : Value → List String
texts_of (texts ss) = ss
texts_of _ = []

-- What depends on the connection, the namespace and the clients, is a function of the values of the
-- flags, since --namespace, --context and --kubeconfig are among them.
module _ {W : Type 0} (connect : Values → Exec W String) (client : Values → Client W)
    (poll : Poll W) where
  unfoldable pub run_start : Closure W
  run_start values args =
      run_command (client values) poll (connect values) false (text_of (values "rack"))
        (switch_of (values "wait")) args

  -- The command has no flag for the rack.
  unfoldable pub run_stop : Closure W
  run_stop values args =
      run_command (client values) poll (connect values) Bool.true "" (switch_of (values "wait"))
        args

  unfoldable pub run_restart :
      (Values → TaskClient W CassandraTask)
      → (Values → String → String → Exec W (Option ℕ))
      → Closure W
  run_restart tasks completion_time values args =
      restart_command (client values) poll (tasks values) (completion_time values) (connect values)
        (switch_of (values "wait")) args

unfoldable pub add_options : Values → AddOptions
add_options values = record {
  datacenter = text_of (values "dc");
  superuser = switch_of (values "superuser");
  username = text_of (values "username");
  password = text_of (values "password");
  secret_path = text_of (values "path");
}

module _ {I M W : Type 0} (lib : TextInput I M) (complete : Values → Exec W String)
    (connect : Values → String → Exec W (Session W)) (walk_dir : String → List Visit) (disk : Disk)
    (failure : Option Error) (msgs : List (Msg M)) where
  unfoldable pub run_add : Closure W
  run_add values args =
      add_command lib (complete values) (connect values) walk_dir disk failure msgs
        (add_options values)

-- `on_disk` runs on the disk of the world.
module _ {W : Type 0} (lib : Libraries) (env : String → String)
    (on_disk : Exec Disk (Unit {0}) → Exec W (Unit {0})) where
  unfoldable pub run_build : Closure W
  run_build values args = on_disk (
      build_command lib (text_of (values "input")) (text_of (values "output"))
        (switch_of (values "sidecar")) env)

unfoldable pub upgrade_options : Values → UpgradeOptions
upgrade_options values = record {
  chart_name = text_of (values "chartName");
  chart_version = text_of (values "chartVersion");
  chart_repo = text_of (values "chartRepo");
  repo_url = text_of (values "repoURL");
  download = switch_of (values "download");
  chart_list = texts_of (values "charts");
}

module _ {W Repo Index C D : Type 0} (fs : FileSystem W) (downloader : Downloader W Repo Index)
    (files : Files W C) (namespace : Values → Exec W String)
    (rest_config : Values → Exec W (Unit {0})) (connect : Values → Exec W (CrdClient W C D))
    (from_unstructured : Object C → Result (Definition D)) where
  unfoldable pub run_upgrade : Closure W
  run_upgrade values args = do
    o ← Upgrade.complete (namespace values) (upgrade_options values)
    _ ← Upgrade.run fs downloader files (rest_config values) (connect values) from_unstructured o
    pure tt

module _ {J W Streams Serializer Other PodClient C : Type 0} (gabs : Gabs J)
    (lib : RestLib Serializer Other PodClient) (kube : Library W (RestConfig Serializer Other) C)
    (flags : Values → ConfigFlags W (RestConfig Serializer Other)) (streams : Streams)
    (manager : C → Client W) (secret_key : CassandraDatacenter → String × String)
    (execute : ExecOptions Streams (RestConfig Serializer Other) PodClient
      → Exec W (Unit {0})) where
  unfoldable pub run_nodetool : Closure W
  run_nodetool values args =
      nodetool_command gabs lib kube (flags values) streams manager secret_key execute args

unfoldable pub estimate_options : Values → EstimateOptions
estimate_options values = record {
  count = number_of (values "count");
  memory = text_of (values "memory");
  cpu = text_of (values "cpu");
}

module _ {W Q Node Info PodInfo Cycle Kept : Type 0} (quantities : Quantities Q)
    (raw_context : Values → Result String)
    (connect : Values → Result (Cluster Node Info PodInfo Cycle Kept))
    (log : Log → Exec W (Unit {0})) where
  unfoldable pub run_estimate : Closure W
  run_estimate values args = do
    line ← lift (
        estimate_command quantities (raw_context values) (connect values) (estimate_options values))
    log line

module _ {W Rest Client : Type 0} (host : Host Rest Client) (api : Api W Client)
    (is_dns1035_label : String → Bool) (lower : Char → Char) where
  unfoldable pub run_register : Closure W
  run_register values args = entrypoint (
      register_cluster host api (
        new_registration_executor_from_register_cluster_cmd is_dns1035_label lower
          (λ name. text_of (values name))))
