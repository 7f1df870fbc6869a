-- ===== src/Tasks/Create.antt =====
-- pkg/tasks/create.go: the tasks of one datacenter, and the arguments that both kinds of task share.
use k8ssandra_client.Common.{
  ℕ, String, ◌&&◌, List, [], ◌∷◌, Result, ok, err, message, concat, ◌==◌, ltb, length,
  if◌then◌else◌,
}
use k8ssandra_client.Common.Exec.{Exec, lift, ◌>>=◌}
use k8ssandra_client.Tasks.Names.{create_name}

-- controlapi.CassandraCommand: the commands that the program creates tasks for.
pub data Command : Type 0 where
  restart : Command
  replace_node : Command
  flush : Command
  cleanup : Command
  upgrade_sstables : Command
  scrub : Command
  compaction : Command
  garbage_collect : Command
  rebuild : Command

-- controlapi.JobArguments, the fields that the program sets.
pub record JobArguments : Type 0 where
  pub rack_name : String
  pub pod_name : String
  pub keyspace_name : String
  pub tables : List String
  pub source_datacenter : String

-- controlapi.CassandraTask: its name and namespace, the datacenter and its one job.
pub record CassandraTask : Type 0 where
  pub name : String
  pub namespace : String
  pub datacenter : String
  pub datacenter_namespace : String
  pub job_name : String
  pub command : Command
  pub arguments : JobArguments

-- The name and namespace of a cassdcapi.CassandraDatacenter.
pub record Datacenter : Type 0 where
  pub name : String
  pub namespace : String

unfoldable pub common_arguments : String → String → JobArguments
common_arguments rack pod = record {
  rack_name = rack;
  pod_name = pod;
  keyspace_name = "";
  tables = [];
  source_datacenter = "";
}

unfoldable pub restart_arguments : String → JobArguments
restart_arguments rack = record {
  rack_name = rack;
  pod_name = "";
  keyspace_name = "";
  tables = [];
  source_datacenter = "";
}

unfoldable pub replace_arguments : String → Result JobArguments
replace_arguments pod =
    if pod == ""
    then err (message "podName must be specified")
    else ok (record {
      rack_name = "";
      pod_name = pod;
      keyspace_name = "";
      tables = [];
      source_datacenter = "";
    })

unfoldable pub compaction_arguments : String → String → String → List String → Result JobArguments
compaction_arguments rack pod keyspace tables =
    let args = common_arguments rack pod in
    if keyspace == "" && ltb 0 (length tables)
    then err (message "keyspace must be specified when tables are specified")
    else ok (record {
      rack_name = args.rack_name;
      pod_name = args.pod_name;
      keyspace_name = keyspace;
      tables = if ltb 0 (length tables) then tables else args.tables;
      source_datacenter = args.source_datacenter;
    })

unfoldable pub rebuild_arguments : String → String → String → Result JobArguments
rebuild_arguments rack pod source =
    let args = common_arguments rack pod in
    if source == ""
    then err (message "sourceDatacenter must be specified")
    else ok (record {
      rack_name = args.rack_name;
      pod_name = args.pod_name;
      keyspace_name = args.keyspace_name;
      tables = args.tables;
      source_datacenter = source;
    })

-- What tasks are created with: the clock and the random numbers, the text of a command, and
-- client.Create, which gives the object back as the server holds it.
pub record TaskClient (W Task : Type 0) : Type 0 where
  pub now : Exec W ℕ
  pub intn : ℕ → Exec W ℕ
  pub command_text : Command → String
  pub create : Task → Exec W Task

module _ {W : Type 0} (client : TaskClient W CassandraTask) where
  unfoldable pub new_task : Command → Datacenter → JobArguments → String → CassandraTask
  new_task command dc args name = record {
    name = name;
    namespace = dc.namespace;
    datacenter = dc.name;
    datacenter_namespace = dc.namespace;
    job_name = concat (dc.name ∷ "-" ∷ client.command_text command ∷ []);
    command = command;
    arguments = args;
  }

  unfoldable pub create_task : Command → Datacenter → JobArguments → Exec W CassandraTask
  create_task command dc args = do
    name ← create_name client.intn client.now dc.name (client.command_text command)
    client.create (new_task command dc args name)

  unfoldable pub create_restart_task : Datacenter → String → Exec W CassandraTask
  create_restart_task dc rack = create_task restart dc (restart_arguments rack)

  unfoldable pub create_replace_task : Datacenter → String → Exec W CassandraTask
  create_replace_task dc pod = do
    args ← lift (replace_arguments pod)
    create_task replace_node dc args

  unfoldable pub create_flush_task : Datacenter → String → String → Exec W CassandraTask
  create_flush_task dc rack pod = create_task flush dc (common_arguments rack pod)

  unfoldable pub create_cleanup_task : Datacenter → String → String → Exec W CassandraTask
  create_cleanup_task dc rack pod = create_task cleanup dc (common_arguments rack pod)

  unfoldable pub create_upgrade_sstables_task : Datacenter → String → String → Exec W CassandraTask
  create_upgrade_sstables_task dc rack pod =
      create_task upgrade_sstables dc (common_arguments rack pod)

  unfoldable pub create_scrub_task : Datacenter → String → String → Exec W CassandraTask
  create_scrub_task dc rack pod = create_task scrub dc (common_arguments rack pod)

  unfoldable pub create_compaction_task :
      Datacenter → String → String → String → List String → Exec W CassandraTask
  create_compaction_task dc rack pod keyspace tables = do
    args ← lift (compaction_arguments rack pod keyspace tables)
    create_task compaction dc args

  unfoldable pub create_gc_task : Datacenter → String → String → Exec W CassandraTask
  create_gc_task dc rack pod = create_task garbage_collect dc (common_arguments rack pod)

  unfoldable pub create_rebuild_task : Datacenter → String → String → String → Exec W CassandraTask
  create_rebuild_task dc rack pod source = do
    args ← lift (rebuild_arguments rack pod source)
    create_task rebuild dc args
