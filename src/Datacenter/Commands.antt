-- ===== src/Datacenter/Commands.antt =====
-- What the commands on a datacenter have done when they end without an error.
use k8ssandra_client.Common.{
  ℕ, ◌*◌, String, Bool, true, false, Option, none, some, List, [], ◌∷◌, ok, message, is_some, ◌≡◌,
  refl, sym, ap, subst, ◌∙◌, arith, if◌then◌else◌,
}
use k8ssandra_client.Common.Exec.{Exec, raise, pure, ◌>>=◌, ◌>>◌, then-eq-ok, err_not_ok}
use k8ssandra_client.Common.Poll.{Poll, IsPoll, second, minute}
use k8ssandra_client.Tasks.Create.{TaskClient, CassandraTask, create_restart_task}
use k8ssandra_client.Tasks.Wait.{wait_for_completion, wait_for_completion_key}
use k8ssandra_client.Datacenter.Fetch.{CassandraDatacenter, Client, cassandra_datacenter}
use k8ssandra_client.Datacenter.Manage.{restart_dc}
use k8ssandra_client.Datacenter.Operate.{
  Options, complete, validate_restart, restart, restart_command,
}

module _ {W : Type 0} where
  -- A test that raises an error or returns has not raised one.
  not_raised :
      (b : Bool) (s : String) (w last : W)
      → (if b then raise (message s) else pure {W = W} (tt {0})) w ≡ (ok tt, last)
      → (b ≡ false) × (w ≡ last)
  not_raised true s w last h = absurd (err_not_ok (ap (λ r. r.0) h))
  not_raised false s w last h = (refl, ap (λ r. r.1) h)

module _ {W : Type 0} (client : Client W) (poll : Poll W) (tasks : TaskClient W CassandraTask)
    (completion_time : String → String → Exec W (Option ℕ)) where
  -- The datacenter was there and not stopped, a restart of all its racks was created for it, and
  -- where `wait` is set the task has a time of completion.
  pub record IsRestarted (dc_name : String) (wait : Bool) (last : W) : Type 0 where
    pub namespace : String
    pub checked : W
    pub read : W
    pub created : W
    pub seen : CassandraDatacenter
    pub cassdc : CassandraDatacenter
    pub task : CassandraTask
    pub not_stopped : seen.stopped ≡ false
    pub first_read :
        (w : W) × (cassandra_datacenter client dc_name namespace w ≡ (ok seen, checked))
    pub next_read : cassandra_datacenter client dc_name namespace checked ≡ (ok cassdc, read)
    pub creation :
        create_restart_task tasks
          (record { name = cassdc.name; namespace = cassdc.namespace })
          ""
          read
        ≡ (ok task, created)
    pub completed :
        wait ≡ true
        → (before : W) × (time : ℕ) × (completion_time task.name task.namespace before
            ≡ (ok (some time), last))

  ok_options : {o p : Options} → ok o ≡ ok p → o ≡ p
  ok_options h = cc

  ok_some : {b : Bool} → ok b ≡ ok true → b ≡ true
  ok_some h = cc

  some_time : (t : Option ℕ) → is_some t ≡ true → (time : ℕ) × (t ≡ some time)
  some_time none h = ground (arith, h)
  some_time (some time) h = (time, refl)

  module _ (polls : IsPoll poll) where
    wait_for_completion-completed :
        (task : CassandraTask) (w last : W)
        → wait_for_completion poll completion_time task w ≡ (ok tt, last)
        → (before : W) × (time : ℕ) × (completion_time task.name task.namespace before
            ≡ (ok (some time), last))
    unfolding wait_for_completion wait_for_completion_key
    wait_for_completion-completed task w last h =
        let (before, asked) =
          polls (5 * second) (10 * minute)
            (completion_time task.name task.namespace >>= λ t. pure (is_some t)) w last h in
        let (t, after, read, is) =
          then-eq-ok (completion_time task.name task.namespace) (λ t. pure (is_some t)) before last
            asked in
        let (time, e) = some_time t (ok_some (ap (λ r. r.0) is)) in
        (
          before,
          time,
          read ∙ ap (λ o. (ok o, after)) e ∙ ap (λ u. (ok (some time), u)) (ap (λ r. r.1) is),
        )

    waited :
        (wait : Bool) (task : CassandraTask) (w last : W)
        → (if wait then wait_for_completion poll completion_time task else pure tt) w
          ≡ (ok tt, last)
        → wait ≡ true
        → (before : W) × (time : ℕ) × (completion_time task.name task.namespace before
            ≡ (ok (some time), last))
    waited true task w last h e = wait_for_completion-completed task w last h
    waited false task w last h e = ground (arith, e)

    validated :
        (o : Options) (w last : W)
        → validate_restart client poll o w ≡ (ok tt, last)
        → (seen : CassandraDatacenter) × (seen.stopped ≡ false)
          × (cassandra_datacenter client o.dc_name o.namespace w ≡ (ok seen, last))
    unfolding validate_restart
    validated o w last h =
        let (seen, checked, read, test) =
          then-eq-ok (cassandra_datacenter client o.dc_name o.namespace)
            (λ seen.
              if seen.stopped
              then raise (message "unable to do rolling restart to a stopped datacenter")
              else pure tt)
            w last h in
        let (running, stays) =
          not_raised seen.stopped "unable to do rolling restart to a stopped datacenter" checked
            last test in
        (seen, running, read ∙ ap (λ u. (ok seen, u)) stays)

    restart-IsRestarted :
        (o : Options) (seen : CassandraDatacenter) (w checked last : W)
        → seen.stopped ≡ false
        → cassandra_datacenter client o.dc_name o.namespace w ≡ (ok seen, checked)
        → o.rack_name ≡ ""
        → restart client poll tasks completion_time o checked ≡ (ok tt, last)
        → IsRestarted o.dc_name o.wait last
    unfolding restart restart_dc
    restart-IsRestarted o seen w checked last running first rack h =
        let (cassdc, read, next, more) =
          then-eq-ok (cassandra_datacenter client o.dc_name o.namespace)
            (λ cassdc.
              create_restart_task tasks
                (record { name = cassdc.name; namespace = cassdc.namespace }) o.rack_name
              >>= λ task. if o.wait then wait_for_completion poll completion_time task else pure tt)
            checked last h in
        let (task, created, creation, rest) =
          then-eq-ok
            (create_restart_task tasks (record { name = cassdc.name; namespace = cassdc.namespace })
              o.rack_name)
            (λ task. if o.wait then wait_for_completion poll completion_time task else pure tt) read
            last more in
        record {
          namespace = o.namespace;
          checked = checked;
          read = read;
          created = created;
          seen = seen;
          cassdc = cassdc;
          task = task;
          not_stopped = running;
          first_read = (w, first);
          next_read = next;
          creation =
              ap
                (λ r.
                  create_restart_task tasks
                    (record { name = cassdc.name; namespace = cassdc.namespace }) r read)
                (sym rack)
              ∙ creation;
          completed = waited o.wait task created last rest;
        }

    completed_options :
        (connect : Exec W String) (wait : Bool) (args : List String) (o : Options) (w last : W)
        → complete connect "" wait args w ≡ (ok o, last)
        → (dc_name : String) × (rest : List String) × (args ≡ dc_name ∷ rest)
          × (o.dc_name ≡ dc_name)
          × (o.rack_name ≡ "")
          × (o.wait ≡ wait)
    unfolding complete
    completed_options connect wait [] o w last h = absurd (err_not_ok (ap (λ r. r.0) h))
    completed_options connect wait (dc ∷ args) o w last h =
        let (namespace, after, c, done) =
          then-eq-ok connect
            (λ n. pure (record { namespace = n; dc_name = dc; rack_name = ""; wait = wait })) w last
            h in
        let same = ok_options (ap (λ r. r.0) done) in
        (
          dc,
          args,
          refl,
          ap (λ (p : Options). p.dc_name) (sym same),
          ap (λ (p : Options). p.rack_name) (sym same),
          ap (λ (p : Options). p.wait) (sym same),
        )

    -- With a poll that works as documented, where the restart command ends without an error, its
    -- first argument names a datacenter that was read and was not stopped, a restart of all racks
    -- was created for it, and where it waits the task has a time of completion.
    pub restart_command-IsRestarted :
        (connect : Exec W String) (wait : Bool) (args : List String) (w last : W)
        → restart_command client poll tasks completion_time connect wait args w ≡ (ok tt, last)
        → (dc_name : String) × (rest : List String) × (args ≡ dc_name ∷ rest)
          × IsRestarted dc_name wait last
    unfolding restart_command
    restart_command-IsRestarted connect wait args w last h =
        let (o, start, c, more) =
          then-eq-ok (complete connect "" wait args)
            (λ o. validate_restart client poll o >> restart client poll tasks completion_time o) w
            last h in
        let (u, checked, v, rest) =
          then-eq-ok (validate_restart client poll o)
            (λ u. restart client poll tasks completion_time o) start last more in
        let (seen, running, first) = validated o start checked v in
        let (dc_name, others, same_args, named, rack, waits) =
          completed_options connect wait args o w start c in
        (
          dc_name,
          others,
          same_args,
          subst (λ b. IsRestarted dc_name b last) waits
              (subst (λ n. IsRestarted n o.wait last) named
                (restart-IsRestarted o seen start checked last running first rack rest)),
        )
