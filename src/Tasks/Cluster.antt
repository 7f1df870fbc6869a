-- ===== src/Tasks/Cluster.antt =====
-- pkg/tasks/cluster.go and the cluster tasks of pkg/tasks/create.go.
use k8ssandra_client.Common.{String, not, ◌||◌, List, [], ◌∷◌, message, ◌==◌, if◌then◌else◌}
use k8ssandra_client.Common.Exec.{Exec, raise, lift, ◌>>=◌}
use k8ssandra_client.Tasks.Names.{create_name}
use k8ssandra_client.Tasks.Create.{
  Command, restart, replace_node, flush, cleanup, upgrade_sstables, scrub, compaction,
  garbage_collect, rebuild, JobArguments, TaskClient, restart_arguments, replace_arguments,
  common_arguments, compaction_arguments, rebuild_arguments,
}

-- k8ssandrataskapi.K8ssandraTask
pub record ClusterTask : Type 0 where
  pub name : String
  pub namespace : String
  pub cluster : String
  pub cluster_namespace : String
  pub datacenters : List String
  pub command : Command
  pub arguments : JobArguments

-- `len(datacenters) > 0 && datacenters[0] != ""`, or the field stays nil.
unfoldable pub chosen_datacenters : List String → List String
chosen_datacenters [] = []
chosen_datacenters (dc ∷ dcs) = if not (dc == "") then dc ∷ dcs else []

module _ {W : Type 0} (client : TaskClient W ClusterTask) where
  unfoldable pub new_cluster_task :
      Command → String → String → List String → JobArguments → String → ClusterTask
  new_cluster_task command namespace cluster datacenters args name = record {
    name = name;
    namespace = namespace;
    cluster = cluster;
    cluster_namespace = namespace;
    datacenters = chosen_datacenters datacenters;
    command = command;
    arguments = args;
  }

  -- The task is named and created once the names are there.
  unfoldable pub create_named_task :
      Command → String → String → List String → JobArguments → Exec W ClusterTask
  create_named_task command namespace cluster datacenters args = do
    name ← create_name client.intn client.now cluster (client.command_text command)
    client.create (new_cluster_task command namespace cluster datacenters args name)

  unfoldable pub create_cluster_task :
      Command → String → String → List String → JobArguments → Exec W ClusterTask
  create_cluster_task command namespace cluster datacenters args =
      if cluster == "" || namespace == ""
      then raise (message "clusterName and namespace must be specified")
      else create_named_task command namespace cluster datacenters args

  unfoldable pub create_cluster_restart_task :
      String → String → String → String → Exec W ClusterTask
  create_cluster_restart_task namespace cluster dc rack =
      create_cluster_task restart namespace cluster (dc ∷ []) (restart_arguments rack)

  unfoldable pub create_cluster_replace_task :
      String → String → String → String → Exec W ClusterTask
  create_cluster_replace_task namespace cluster dc pod = do
    args ← lift (replace_arguments pod)
    create_cluster_task replace_node namespace cluster (dc ∷ []) args

  unfoldable pub create_cluster_flush_task :
      String → String → String → String → String → Exec W ClusterTask
  create_cluster_flush_task namespace cluster dc rack pod =
      create_cluster_task flush namespace cluster (dc ∷ []) (common_arguments rack pod)

  unfoldable pub create_cluster_cleanup_task :
      String → String → String → String → String → Exec W ClusterTask
  create_cluster_cleanup_task namespace cluster dc rack pod =
      create_cluster_task cleanup namespace cluster (dc ∷ []) (common_arguments rack pod)

  unfoldable pub create_cluster_upgrade_sstables_task :
      String → String → String → String → String → Exec W ClusterTask
  create_cluster_upgrade_sstables_task namespace cluster dc rack pod =
      create_cluster_task upgrade_sstables namespace cluster (dc ∷ []) (common_arguments rack pod)

  unfoldable pub create_cluster_scrub_task :
      String → String → String → String → String → Exec W ClusterTask
  create_cluster_scrub_task namespace cluster dc rack pod =
      create_cluster_task scrub namespace cluster (dc ∷ []) (common_arguments rack pod)

  unfoldable pub create_cluster_compaction_task :
      String → String → String → String → String → String → List String → Exec W ClusterTask
  create_cluster_compaction_task namespace cluster dc rack pod keyspace tables = do
    args ← lift (compaction_arguments rack pod keyspace tables)
    create_cluster_task compaction namespace cluster (dc ∷ []) args

  unfoldable pub create_cluster_gc_task :
      String → String → String → String → String → Exec W ClusterTask
  create_cluster_gc_task namespace cluster dc rack pod =
      create_cluster_task garbage_collect namespace cluster (dc ∷ []) (common_arguments rack pod)

  unfoldable pub create_cluster_rebuild_task :
      String → String → String → String → String → String → Exec W ClusterTask
  create_cluster_rebuild_task namespace cluster dc rack pod source = do
    args ← lift (rebuild_arguments rack pod source)
    create_cluster_task rebuild namespace cluster (dc ∷ []) args
