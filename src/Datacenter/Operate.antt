-- ===== src/Datacenter/Operate.antt =====
-- cmd/kubectl-k8ssandra/operate/operate.go: the commands start, stop and restart.
use k8ssandra_client.Common.{ℕ, String, Bool, Option, List, [], ◌∷◌, message, if◌then◌else◌}
use k8ssandra_client.Common.Exec.{Exec, raise, pure, ◌>>=◌, ◌>>◌}
use k8ssandra_client.Common.Poll.{Poll}
use k8ssandra_client.Tasks.Create.{TaskClient, CassandraTask}
use k8ssandra_client.Datacenter.Fetch.{Client, cassandra_datacenter}
use k8ssandra_client.Datacenter.Manage.{modify_stopped_state, restart_dc}

pub record Options : Type 0 where
  pub namespace : String
  pub dc_name : String
  pub rack_name : String
  pub wait : Bool

-- Complete, with the rack and the wait of the flags. `connect` is the reading of the kubeconfig and
-- the construction of the client, and gives the namespace.
unfoldable pub complete :
    {W : Type 0} → Exec W String → String → Bool → List String → Exec W Options
complete connect rack wait [] = raise (message "no target datacenter given")
complete connect rack wait (dc ∷ args) = do
  namespace ← connect
  pure (record { namespace = namespace; dc_name = dc; rack_name = rack; wait = wait })

module _ {W : Type 0} (client : Client W) (poll : Poll W) where
  unfoldable pub validate : Options → Exec W (Unit {0})
  validate o = do dc ← cassandra_datacenter client o.dc_name o.namespace; pure tt

  unfoldable pub validate_restart : Options → Exec W (Unit {0})
  validate_restart o = do
    dc ← cassandra_datacenter client o.dc_name o.namespace
    if dc.stopped
        then raise (message "unable to do rolling restart to a stopped datacenter")
        else pure tt

  unfoldable pub run : Bool → Options → Exec W (Unit {0})
  run stop o = modify_stopped_state client poll o.dc_name o.namespace stop o.wait

  -- The commands start and stop.
  unfoldable pub run_command :
      Exec W String → Bool → String → Bool → List String → Exec W (Unit {0})
  run_command connect stop rack wait args = do
    o ← complete connect rack wait args
    validate o
    run stop o

  module _ (tasks : TaskClient W CassandraTask)
      (completion_time : String → String → Exec W (Option ℕ)) where
    unfoldable pub restart : Options → Exec W (Unit {0})
    restart o =
        restart_dc client poll tasks completion_time o.dc_name o.namespace o.rack_name o.wait

    -- The command restart, which has no flag for a rack.
    unfoldable pub restart_command : Exec W String → Bool → List String → Exec W (Unit {0})
    restart_command connect wait args = do
      o ← complete connect "" wait args
      validate_restart o
      restart o
