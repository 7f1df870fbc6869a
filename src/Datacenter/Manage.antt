-- ===== src/Datacenter/Manage.antt =====
-- pkg/cassdcutil/manage.go: a datacenter is stopped, started and restarted.
use k8ssandra_client.Common.{ℕ, ◌*◌, String, Bool, true, false, Option, nat_eq, if◌then◌else◌}
use k8ssandra_client.Common.Exec.{Exec, pure, ◌>>=◌, ◌>>◌}
use k8ssandra_client.Common.Poll.{Poll, second, minute}
use k8ssandra_client.Tasks.Create as Tasks
use k8ssandra_client.Tasks.Wait as Wait
use k8ssandra_client.Datacenter.Fetch.{
  ConditionType, datacenter_stopped, datacenter_ready, ConditionStatus, condition_true,
  condition_false, condition_unknown, CassandraDatacenter, Client, cassandra_datacenter,
}

abbrev pub default_poll_interval : ℕ
default_poll_interval = 1 * second

abbrev pub default_timeout : ℕ
default_timeout = 10 * minute

abbrev pub same_status : ConditionStatus → ConditionStatus → Bool
same_status condition_true condition_true = true
same_status condition_false condition_false = true
same_status condition_unknown condition_unknown = true
same_status _ _ = false

module _ {W : Type 0} (client : Client W) where
  unfoldable pub refresh_status :
      CassandraDatacenter → ConditionType → ConditionStatus → Exec W Bool
  refresh_status cassdc status wanted = do
    dc ← cassandra_datacenter client cassdc.name cassdc.namespace
    pure (same_status (dc.condition status) wanted)

  module _ (poll : Poll W) where
    unfoldable pub wait_for_status :
        CassandraDatacenter → ConditionType → ConditionStatus → ℕ → ℕ → Exec W (Unit {0})
    wait_for_status cassdc status wanted interval timeout =
        poll (if nat_eq interval 0 then default_poll_interval else interval)
          (if nat_eq timeout 0 then default_timeout else timeout)
          (refresh_status cassdc status wanted)

    -- The two waits of ModifyStoppedState, where `wait` is set.
    unfoldable pub wait_until : Bool → CassandraDatacenter → Exec W (Unit {0})
    wait_until true cassdc = do
      wait_for_status cassdc datacenter_stopped condition_true default_poll_interval default_timeout
      wait_for_status cassdc datacenter_ready condition_false default_poll_interval default_timeout
    wait_until false cassdc = do
      wait_for_status cassdc datacenter_stopped condition_false default_poll_interval
          default_timeout
      wait_for_status cassdc datacenter_ready condition_true default_poll_interval default_timeout

    unfoldable pub modify_stopped_state : String → String → Bool → Bool → Exec W (Unit {0})
    modify_stopped_state name namespace stop wait = do
      cassdc ← cassandra_datacenter client name namespace
      updated ← client.update_datacenter (record cassdc { stopped = stop })
      if wait then wait_until stop updated else pure tt

    unfoldable pub restart_dc :
        Tasks.TaskClient W Tasks.CassandraTask
        → (String → String → Exec W (Option ℕ))
        → String
        → String
        → String
        → Bool
        → Exec W (Unit {0})
    restart_dc tasks completion_time name namespace rack wait = do
      cassdc ← cassandra_datacenter client name namespace
      task ←
          Tasks.create_restart_task tasks
            (record { name = cassdc.name; namespace = cassdc.namespace }) rack
      if wait then Wait.wait_for_completion poll completion_time task else pure tt
