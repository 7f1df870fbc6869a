-- ===== src/Cli/Reads.antt =====
-- Which flags the commands read.
use Prim.Native.Char.{Char}
use k8ssandra_client.Common.{ℕ, String, Bool, Option, List, All, ◌≡◌, ap}
use k8ssandra_client.Common.Exec.{Exec}
use k8ssandra_client.Common.Poll.{Poll}
use k8ssandra_client.Cli.Flags.{Flag}
use k8ssandra_client.Cli.Commands.{Values, add_flags, upgrade_flags, estimate_flags, register_flags}
use k8ssandra_client.Cli.Runs.{
  text_of, add_options, upgrade_options, estimate_options, run_register,
}
use k8ssandra_client.Tasks.Create.{TaskClient, CassandraTask}
use k8ssandra_client.Datacenter.Fetch.{Client}
use k8ssandra_client.Register.Kubeconfig.{Host}
use k8ssandra_client.Register.Cluster.{Api, register_cluster}
use k8ssandra_client.Register.Names.{new_registration_executor_from_register_cluster_cmd}
use k8ssandra_client.Register.Retry.{entrypoint}

-- Two sets of values agree on flags.
abbrev pub AgreeOn : List Flag → Values → Values → Type 0
AgreeOn flags v w = All (λ f. v f.name ≡ w f.name) flags

module _ {W : Type 0} (connect : Values → Exec W String) (client : Values → Client W)
    (poll : Poll W) (tasks : Values → TaskClient W CassandraTask)
    (completion_time : Values → String → String → Exec W (Option ℕ)) where
  -- The values lead to the same namespace and to the same clients.
  pub record IsSameConnection (v w : Values) : Type 0 where
    pub namespaces : connect v ≡ connect w
    pub clients : client v ≡ client w
    pub task_clients : tasks v ≡ tasks w
    pub times : completion_time v ≡ completion_time w

pub add_options-AgreeOn : (v w : Values) → AgreeOn add_flags v w → add_options v ≡ add_options w
unfolding add_options
add_options-AgreeOn v w (a, (b, (c, (d, (e, _))))) = cc

pub upgrade_options-AgreeOn :
    (v w : Values) → AgreeOn upgrade_flags v w → upgrade_options v ≡ upgrade_options w
unfolding upgrade_options
upgrade_options-AgreeOn v w (a, (b, (c, (d, (e, (f, _)))))) = cc

pub estimate_options-AgreeOn :
    (v w : Values) → AgreeOn estimate_flags v w → estimate_options v ≡ estimate_options w
unfolding estimate_options
estimate_options-AgreeOn v w (a, (b, (c, _))) = cc

module _ {W Rest Client : Type 0} (host : Host Rest Client) (api : Api W Client)
    (is_dns1035_label : String → Bool) (lower : Char → Char) where
  executor-AgreeOn :
      (v w : Values)
      → AgreeOn register_flags v w
      → new_registration_executor_from_register_cluster_cmd is_dns1035_label lower
          (λ name. text_of (v name))
        ≡ new_registration_executor_from_register_cluster_cmd is_dns1035_label lower
            (λ name. text_of (w name))
  unfolding new_registration_executor_from_register_cluster_cmd
  executor-AgreeOn v w (a, (b, (c, (d, (e, (f, (g, (h, (i, (j, _)))))))))) = cc

  -- The register command does the same for two sets of values that agree on the ten flags that
  -- SetupRegisterClusterCmd declares, so it asks for no flag that is not there.
  pub run_register-AgreeOn :
      (v w : Values) (args : List String)
      → AgreeOn register_flags v w
      → run_register host api is_dns1035_label lower v args
        ≡ run_register host api is_dns1035_label lower w args
  unfolding run_register
  run_register-AgreeOn v w args h =
      ap (λ e. entrypoint (register_cluster host api e)) (executor-AgreeOn v w h)
