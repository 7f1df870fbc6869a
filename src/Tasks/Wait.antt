-- ===== src/Tasks/Wait.antt =====
-- WaitForCompletion and WaitForCompletionKey of pkg/tasks/tools.go.
use k8ssandra_client.Common.{ℕ, ◌*◌, String, is_some, Option}
use k8ssandra_client.Common.Exec.{Exec, pure, ◌>>=◌}
use k8ssandra_client.Common.Poll.{Poll, second, minute}
use k8ssandra_client.Tasks.Create.{CassandraTask}

-- `completion_time` is client.Get of a task, by its name and namespace, with the time of completion
-- in its status.
module _ {W : Type 0} (poll : Poll W) (completion_time : String → String → Exec W (Option ℕ)) where
  unfoldable pub wait_for_completion_key : String → String → Exec W (Unit {0})
  wait_for_completion_key name namespace =
      poll (5 * second) (10 * minute) do time ← completion_time name namespace; pure (is_some time)

  unfoldable pub wait_for_completion : CassandraTask → Exec W (Unit {0})
  wait_for_completion task = wait_for_completion_key task.name task.namespace
