-- ===== src/Datacenter/Tests/Waits.antt =====
-- A datacenter that is stopped and waited for, over a server whose states are ordered by its writes.
use k8ssandra_client.Common.{true, refl, subst, not_found}
use k8ssandra_client.Datacenter.Fetch.{
  CassandraDatacenter, condition_true, condition_false, datacenter_stopped, datacenter_ready,
  cassandra_datacenter,
}
use k8ssandra_client.Datacenter.Manage.{
  modify_stopped_state, wait_until, wait_for_status, refresh_status,
}
use k8ssandra_client.Datacenter.Laws.{IsModified}
use k8ssandra_client.Datacenter.Waiting.{IsOrdered, IsFoundAfter, modify_stopped_state-HasCondition}
use k8ssandra_client.Datacenter.Tests.{
  is_key, stored, renewed, server, answer-ok, server-updated, server-IsApi, poll_once, asked, dc1,
  dc1_stopped,
}

-- A state is later than another that it comes from by writes.
data IsLater : CassandraDatacenter → CassandraDatacenter → Type 0 where
  stays : (a : CassandraDatacenter) → IsLater a a
  writes :
      {a b : CassandraDatacenter} (dc : CassandraDatacenter)
      → IsLater a b
      → IsLater a (renewed dc b)

IsLater_trans : (a b c : CassandraDatacenter) → IsLater a b → IsLater b c → IsLater a c
IsLater_trans a b _ h (stays _) = h
IsLater_trans a b _ h (writes dc k) = writes dc (IsLater_trans a b _ h k)

server-IsOrdered : IsOrdered server poll_once IsLater
server-IsOrdered = record {
  refl_later = stays;
  trans_later = IsLater_trans;
  reads = λ namespace name w last dc h.
      let (key, is, same) =
        answer-ok (is_key namespace name w) w w dc last (not_found "datacenter") h in
      subst (IsLater w) same (stays w);
  updates = λ dc new w last h.
      let (key, version, is, now) = server-updated dc new w last h in
      subst (IsLater w) now (writes dc (stays w));
  asks_last = λ interval timeout condition w last h. (w, stays w, asked (condition w) last h);
}

modify_stopped_state-HasCondition_example :
    (after : CassandraDatacenter) × (between : CassandraDatacenter) × IsLater dc1 after
    × IsModified server stored "dc1" "ns" true dc1 after
    × IsFoundAfter server stored server-IsApi poll_once IsLater server-IsOrdered "dc1" "ns"
        datacenter_stopped condition_true after between
    × IsFoundAfter server stored server-IsApi poll_once IsLater server-IsOrdered "dc1" "ns"
        datacenter_ready condition_false between dc1_stopped
unfolding modify_stopped_state cassandra_datacenter wait_until wait_for_status refresh_status
modify_stopped_state-HasCondition_example =
    modify_stopped_state-HasCondition server stored server-IsApi poll_once IsLater server-IsOrdered
      "dc1" "ns" true dc1 dc1_stopped refl
