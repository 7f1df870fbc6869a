-- ===== src/Datacenter/Waiting.antt =====
-- What stopping and starting a datacenter has waited for.
use k8ssandra_client.Common.{
  ℕ, String, Bool, true, false, not, some, ok, ◌≡◌, refl, ap, subst, ◌∙◌, arith, if◌then◌else◌,
  nat_eq,
}
use k8ssandra_client.Common.Exec.{Exec, ◌>>=◌, ◌>>◌, pure, then-eq-ok}
use k8ssandra_client.Common.Poll.{Poll}
use k8ssandra_client.Datacenter.Fetch.{
  ConditionType, datacenter_stopped, datacenter_ready, ConditionStatus, condition_true,
  condition_false, condition_unknown, CassandraDatacenter, Client, cassandra_datacenter,
}
use k8ssandra_client.Datacenter.Manage.{
  same_status, refresh_status, wait_for_status, wait_until, modify_stopped_state,
  default_poll_interval, default_timeout,
}
use k8ssandra_client.Datacenter.Laws.{Store, IsApi, IsModified, update-IsModified, updated_key}

-- Which of two states comes later. Documented behaviour: a read and an update end in a later state than
-- they start in, and a poll asks its condition last in a state that comes later, and ends where that
-- answer is given.
pub record IsOrdered {W : Type 0} (client : Client W) (poll : Poll W) (Later : W → W → Type 0)
    : Type 0 where
  pub refl_later : (w : W) → Later w w
  pub trans_later : (a b c : W) → Later a b → Later b c → Later a c
  pub reads :
      (namespace name : String) (w last : W) (dc : CassandraDatacenter)
      → client.get_datacenter namespace name w ≡ (ok dc, last)
      → Later w last
  pub updates :
      (dc new : CassandraDatacenter) (w last : W)
      → client.update_datacenter dc w ≡ (ok new, last)
      → Later w last
  pub asks_last :
      (interval timeout : ℕ) (condition : Exec W Bool) (w last : W)
      → poll interval timeout condition w ≡ (ok tt, last)
      → (before : W) × Later w before × (condition before ≡ (ok true, last))

ok_inj : {a b : Bool} → ok a ≡ ok b → a ≡ b
ok_inj h = cc

same_status→eq : (s t : ConditionStatus) → same_status s t ≡ true → s ≡ t
same_status→eq condition_true condition_true h = refl
same_status→eq condition_true condition_false h = ground (arith, h)
same_status→eq condition_true condition_unknown h = ground (arith, h)
same_status→eq condition_false condition_true h = ground (arith, h)
same_status→eq condition_false condition_false h = refl
same_status→eq condition_false condition_unknown h = ground (arith, h)
same_status→eq condition_unknown condition_true h = ground (arith, h)
same_status→eq condition_unknown condition_false h = ground (arith, h)
same_status→eq condition_unknown condition_unknown h = refl

-- The condition that a flag stands for.
abbrev pub status_of : Bool → ConditionStatus
status_of true = condition_true
status_of false = condition_false

moved : (P : String → String → Type 0) {n m s t : String} → n ≡ m → s ≡ t → P n s → P m t
moved P {n} {m} {s} {t} p q h = subst (λ k. P m k) q (subst (λ k. P k s) p h)

module _ {W : Type 0} (client : Client W) (stored : Store W) where
  -- A datacenter under its key with a condition as it is wanted, as a read finds it that ends there.
  pub record HasCondition (name namespace : String) (status : ConditionType)
      (wanted : ConditionStatus) (asked w : W) : Type 0 where
    pub dc : CassandraDatacenter
    pub found : client.get_datacenter namespace name asked ≡ (ok dc, w)
    pub there : stored w namespace name ≡ some dc
    pub is_wanted : dc.condition status ≡ wanted

  module _ (laws : IsApi client stored) (poll : Poll W) (Later : W → W → Type 0)
      (order : IsOrdered client poll Later) where
    -- The condition is found by a read that begins after the first state and ends at the last.
    abbrev pub IsFoundAfter : String → String → ConditionType → ConditionStatus → W → W → Type 0
    IsFoundAfter name namespace status wanted w last =
        (asked : W) × Later w asked
        × Later asked last
        × HasCondition name namespace status wanted asked last

    refresh_status-HasCondition :
        (dc : CassandraDatacenter) (status : ConditionType) (wanted : ConditionStatus) (w last : W)
        → refresh_status client dc status wanted w ≡ (ok true, last)
        → HasCondition dc.name dc.namespace status wanted w last
    unfolding refresh_status cassandra_datacenter
    refresh_status-HasCondition dc status wanted w last h =
        let (now, after, read, same) =
          then-eq-ok (client.get_datacenter dc.namespace dc.name)
            (λ now. pure (same_status (now.condition status) wanted)) w last h in
        let (is, a, b) = laws.got dc.namespace dc.name w after now read in
        let end = ap (λ r. r.1) same in
        record {
          dc = now;
          found = read ∙ ap (λ u. (ok now, u)) end;
          there = subst (λ u. stored u dc.namespace dc.name ≡ some now) end is;
          is_wanted = same_status→eq (now.condition status) wanted (ok_inj (ap (λ r. r.0) same));
        }

    wait_for_status-HasCondition :
        (dc : CassandraDatacenter) (status : ConditionType) (wanted : ConditionStatus)
        (interval timeout : ℕ) (w last : W)
        → wait_for_status client poll dc status wanted interval timeout w ≡ (ok tt, last)
        → IsFoundAfter dc.name dc.namespace status wanted w last
    unfolding wait_for_status
    wait_for_status-HasCondition dc status wanted interval timeout w last h =
        let (before, later, asked) =
          order.asks_last (if nat_eq interval 0 then default_poll_interval else interval)
            (if nat_eq timeout 0 then default_timeout else timeout)
            (refresh_status client dc status wanted) w last h in
        let found = refresh_status-HasCondition dc status wanted before last asked in
        (before, later, order.reads dc.namespace dc.name before last found.dc found.found, found)

    both_waits :
        (dc : CassandraDatacenter) (is_stopped is_ready : ConditionStatus) (w last : W)
        → (wait_for_status client poll dc datacenter_stopped is_stopped default_poll_interval
                default_timeout
              >> wait_for_status client poll dc datacenter_ready is_ready default_poll_interval
                  default_timeout)
            w
          ≡ (ok tt, last)
        → (between : W) × IsFoundAfter dc.name dc.namespace datacenter_stopped is_stopped w between
          × IsFoundAfter dc.name dc.namespace datacenter_ready is_ready between last
    both_waits dc is_stopped is_ready w last h =
        let (done, between, first, next) =
          then-eq-ok
            (wait_for_status client poll dc datacenter_stopped is_stopped default_poll_interval
              default_timeout)
            (λ u.
              wait_for_status client poll dc datacenter_ready is_ready default_poll_interval
                default_timeout)
            w last h in
        (
          between,
          wait_for_status-HasCondition dc datacenter_stopped is_stopped default_poll_interval
              default_timeout w between first,
          wait_for_status-HasCondition dc datacenter_ready is_ready default_poll_interval
              default_timeout between last next,
        )

    wait_until-HasCondition :
        (dc : CassandraDatacenter) (stop : Bool) (w last : W)
        → wait_until client poll stop dc w ≡ (ok tt, last)
        → (between : W) × IsFoundAfter dc.name dc.namespace datacenter_stopped
            (status_of stop)
            w
            between
          × IsFoundAfter dc.name dc.namespace datacenter_ready (status_of (not stop)) between last
    unfolding wait_until
    wait_until-HasCondition dc true w last h = both_waits dc condition_true condition_false w last h
    wait_until-HasCondition dc false w last h =
        both_waits dc condition_false condition_true w last h

    -- Over an API server and a poll that work as documented, and an order of states in which
    -- reads, updates and polls go forward, where ModifyStoppedState with a wait ends without an
    -- error, the datacenter was modified in a later state than the first, a read that began after
    -- that state found its condition Stopped as asked for, and a read that began after this one
    -- and ended last found its condition Ready to be the opposite.
    pub modify_stopped_state-HasCondition :
        (name namespace : String) (stop : Bool) (w last : W)
        → modify_stopped_state client poll name namespace stop true w ≡ (ok tt, last)
        → (after : W) × (between : W) × Later w after
          × IsModified client stored name namespace stop w after
          × IsFoundAfter name namespace datacenter_stopped (status_of stop) after between
          × IsFoundAfter name namespace datacenter_ready (status_of (not stop)) between last
    unfolding modify_stopped_state cassandra_datacenter
    modify_stopped_state-HasCondition name namespace stop w last h =
        let (old, before, read, more) =
          then-eq-ok (cassandra_datacenter client name namespace)
            (λ old.
              client.update_datacenter (record old { stopped = stop })
              >>= wait_until client poll stop)
            w last h in
        let (new, after, update, waited) =
          then-eq-ok (client.update_datacenter (record old { stopped = stop }))
            (wait_until client poll stop) before last more in
        let (between, stops, ready) = wait_until-HasCondition new stop after last waited in
        let (named, in_space) =
          updated_key client stored laws name namespace stop w before after old new read update in
        (
          after,
          between,
          order.trans_later w before after (order.reads namespace name w before old read)
              (order.updates (record old { stopped = stop }) new before after update),
          update-IsModified client stored laws name namespace stop w before after old new read
              update,
          moved (λ n s. IsFoundAfter n s datacenter_stopped (status_of stop) after between) named
              in_space stops,
          moved (λ n s. IsFoundAfter n s datacenter_ready (status_of (not stop)) between last) named
              in_space ready,
        )
