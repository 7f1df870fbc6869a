-- ===== src/Tasks/Tests.antt =====
-- The theorems on tasks with a clock and random numbers that are fixed.
use k8ssandra_client.Common.{
  ℕ, ◌≤◌, String, ◌≡◌, refl, ok, arith, [], ◌∷◌, decimal, ◌≢◌, ◌⊎◌, err, Error, List,
}
use k8ssandra_client.Common.Exec.{Exec}
use k8ssandra_client.Tasks.Names.{text_length, create_name}
use k8ssandra_client.Tasks.Compactions.{creates, IsCreatedFor, create_compaction_task-agrees}
use k8ssandra_client.Tasks.Laws.{IsRandom, IsClock, text_length-create_name, IsCompaction}
use k8ssandra_client.Tasks.Create.{
  TaskClient, CassandraTask, Datacenter, JobArguments, create_compaction_task,
}
use k8ssandra_client.Tasks.Cluster.{ClusterTask, create_cluster_compaction_task}

abbrev intn : ℕ → Exec ℕ ℕ
intn n w = (ok 3, w)

abbrev now : Exec ℕ ℕ
now w = (ok 17, w)

intn-IsRandom : IsRandom intn now
intn-IsRandom w = (3, w, refl, omega arith)

now-IsClock : IsClock intn now
unfolding decimal
now-IsClock w = (17, w, refl, omega arith)

text_length-create_name_example :
    (name : String) × (w' : ℕ) × (create_name intn now "cluster1-dc1" "restart" 0 ≡ (ok name, w'))
    × (text_length name ≤ 63)
text_length-create_name_example =
    text_length-create_name intn now "cluster1-dc1" "restart" 0 intn-IsRandom now-IsClock

abbrev dc1 : Datacenter
dc1 = record { name = "dc1"; namespace = "ns" }

abbrev one : TaskClient ℕ CassandraTask
one = record { now = now; intn = intn; command_text = λ c. "compact"; create = λ t w. (ok t, w) }

abbrev all : TaskClient ℕ ClusterTask
all = record { now = now; intn = intn; command_text = λ c. "compact"; create = λ t w. (ok t, w) }

create_compaction_task-agrees_example :
    ((e : Error) × (create_compaction_task one dc1 "r1" "p1" "ks" ("t" ∷ []) 0 ≡ (err e, 0))
      × (create_cluster_compaction_task all "ns" "c1" "dc1" "r1" "p1" "ks" ("t" ∷ []) 0
          ≡ (err e, 0))
      × (◌≡◌ {A = String} "ks" "")
      × (◌≢◌ {A = List String} ("t" ∷ []) []))
    ⊎ ((args : JobArguments) × IsCompaction "r1" "p1" "ks" ("t" ∷ []) args
        × (create_compaction_task one dc1 "r1" "p1" "ks" ("t" ∷ []) 0 ≡ creates one all dc1 args 0)
        × IsCreatedFor one all "ns" "c1" "dc1" args
            (create_cluster_compaction_task all "ns" "c1" "dc1" "r1" "p1" "ks" ("t" ∷ []))
            0)
create_compaction_task-agrees_example =
    create_compaction_task-agrees one all dc1 "ns" "c1" "dc1" "r1" "p1" "ks" ("t" ∷ []) 0
