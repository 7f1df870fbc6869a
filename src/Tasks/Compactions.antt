-- ===== src/Tasks/Compactions.antt =====
-- The compaction tasks of a datacenter and of a cluster.
use k8ssandra_client.Common.{
  String, List, [], ◌∷◌, err, message, concat, Error, ◌≡◌, ◌≢◌, ◌⊎◌, inl, inr, refl, ◌==◌, eq_iff,
  Bool-cases, arith, if◌then◌else◌,
}
use k8ssandra_client.Common.Exec.{Exec, ◌>>=◌}
use k8ssandra_client.Tasks.Names.{create_name}
use k8ssandra_client.Tasks.Create.{
  compaction, JobArguments, CassandraTask, Datacenter, TaskClient, create_task, new_task,
  create_compaction_task,
}
use k8ssandra_client.Tasks.Cluster.{
  ClusterTask, chosen_datacenters, new_cluster_task, create_named_task, create_cluster_task,
  create_cluster_compaction_task,
}
use k8ssandra_client.Tasks.Laws.{IsCompaction, compaction_arguments-cases}

-- The datacenters of a cluster's task: the one that is named, if any.
abbrev pub named_only : String → List String
named_only dc_name = if dc_name == "" then [] else dc_name ∷ []

chosen_datacenters-named_only :
    (dc_name : String) → chosen_datacenters (dc_name ∷ []) ≡ named_only dc_name
unfolding chosen_datacenters
chosen_datacenters-named_only dc_name = ground arith

module _ {W : Type 0} (one : TaskClient W CassandraTask) (all : TaskClient W ClusterTask) where
  -- A name is made, and then this task is created under it.
  abbrev pub creates : Datacenter → JobArguments → Exec W CassandraTask
  creates dc args = create_name one.intn one.now dc.name (one.command_text compaction) >>= λ name.
      one.create (record {
        name = name;
        namespace = dc.namespace;
        datacenter = dc.name;
        datacenter_namespace = dc.namespace;
        job_name = concat (dc.name ∷ "-" ∷ one.command_text compaction ∷ []);
        command = compaction;
        arguments = args;
      })

  abbrev pub creates_for_cluster : String → String → String → JobArguments → Exec W ClusterTask
  creates_for_cluster namespace cluster dc_name args =
      create_name all.intn all.now cluster (all.command_text compaction) >>= λ name.
      all.create (record {
        name = name;
        namespace = namespace;
        cluster = cluster;
        cluster_namespace = namespace;
        datacenters = named_only dc_name;
        command = compaction;
        arguments = args;
      })

  -- What is created for a cluster: nothing where it or its namespace has no name.
  abbrev pub IsCreatedFor :
      String → String → String → JobArguments → Exec W ClusterTask → W → Type 0
  IsCreatedFor namespace cluster dc_name args run w =
      (((cluster ≡ "") ⊎ (namespace ≡ ""))
        × (run w ≡ (err (message "clusterName and namespace must be specified"), w)))
      ⊎ ((cluster ≢ "")
          × (namespace ≢ "")
          × (run w ≡ creates_for_cluster namespace cluster dc_name args w))

  create_cluster_task-IsCreatedFor :
      (namespace cluster dc_name : String) (args : JobArguments) (w : W)
      → IsCreatedFor namespace cluster dc_name args
          (create_cluster_task all compaction namespace cluster (dc_name ∷ []) args)
          w
  unfolding create_cluster_task create_named_task new_cluster_task
  create_cluster_task-IsCreatedFor namespace cluster dc_name args w =
      elim (Bool-cases (cluster == "")) [
        | inl e ↦ inl (inl (ground (arith, e, eq_iff cluster "")), rw e refl)
        | inr e ↦ elim (Bool-cases (namespace == "")) [
          | inl f ↦ inl (inr (ground (arith, f, eq_iff namespace "")), rw e rw f refl)
          | inr f ↦ inr (
            λ k. ground (arith, e, k, eq_iff cluster ""),
            λ k. ground (arith, f, k, eq_iff namespace ""),
            rw e rw f rw (chosen_datacenters-named_only dc_name) refl,
          )
        ]
      ]

  -- A compaction of tables without a keyspace is refused before anything is drawn or created, for
  -- a datacenter as for a cluster. Every other compaction has the arguments that were asked for:
  -- for a datacenter, a name is made and the task of a compaction of that datacenter with these
  -- arguments is created under it; for a cluster likewise, for the datacenter that is named if
  -- any, but an error comes before anything is drawn or created where the name of the cluster or
  -- the namespace is empty.
  pub create_compaction_task-agrees :
      (dc : Datacenter) (namespace cluster dc_name rack pod keyspace : String)
      (tables : List String) (w : W)
      → ((e : Error) × (create_compaction_task one dc rack pod keyspace tables w ≡ (err e, w))
          × (create_cluster_compaction_task all namespace cluster dc_name rack pod keyspace tables w
              ≡ (err e, w))
          × (keyspace ≡ "")
          × (tables ≢ []))
        ⊎ ((args : JobArguments) × IsCompaction rack pod keyspace tables args
            × (create_compaction_task one dc rack pod keyspace tables w ≡ creates dc args w)
            × IsCreatedFor namespace cluster dc_name args
                (create_cluster_compaction_task all namespace cluster dc_name rack pod keyspace
                  tables)
                w)
  unfolding create_compaction_task create_cluster_compaction_task create_task new_task
  create_compaction_task-agrees dc namespace cluster dc_name rack pod keyspace tables w =
      elim (compaction_arguments-cases rack pod keyspace tables) [
        | inl (refused, missing, some_tables) ↦ inl (
          message "keyspace must be specified when tables are specified",
          rw refused refl,
          rw refused refl,
          missing,
          some_tables,
        )
        | inr (args, accepted, is) ↦ inr (
          args,
          is,
          rw accepted refl,
          rw accepted (create_cluster_task-IsCreatedFor namespace cluster dc_name args w),
        )
      ]
