-- ===== src/Scheduler/Promise.antt =====
-- What the command promises where it says that the pods can be scheduled.
use mathlib.Core.Bool.{not}
use k8ssandra_client.Common.{
  All, ℕ, zero, suc, ◌≤◌, ◌<◌, String, Bool, true, false, List, [], ◌∷◌, length, Result, ok, err,
  panic, Error, message, ℤ, pos, negsuc, is_positive, ◌≡◌, refl, sym, ap, subst, ◌∙◌, arith,
  bind-eq-ok, ltb→lt, if◌then◌else◌,
}
use k8ssandra_client.Scheduler.Fit.{Plugin, try_scheduling, create_node_infos}
use k8ssandra_client.Scheduler.Capacity.{open_nodes, IsGuarded, SetsFlag, try_scheduling-open_nodes}
use k8ssandra_client.Scheduler.Estimate.{
  ProposedPod, EstimateOptions, Quantities, Validated, make_pods, make_pods_checked, Cluster,
  can_be_scheduled, error_log, validate, schedule_on, wrap_failure, run, log_of, estimate_command,
}

-- What holds of each pod with these resources holds of all that are made.
make_pods-All :
    (P : ProposedPod → Type 0) (milli_cpu memory : ℤ)
    → ((p : ProposedPod) → P p)
    → (n : ℕ) → All P (make_pods n milli_cpu memory)
unfolding make_pods
make_pods-All P milli_cpu memory h zero = tt
make_pods-All P milli_cpu memory h (suc n) = (h _, make_pods-All P milli_cpu memory h n)

make_pods_checked-All :
    (P : ProposedPod → Type 0) (count milli_cpu memory : ℤ) (pods : List ProposedPod)
    → ((p : ProposedPod) → P p)
    → make_pods_checked count milli_cpu memory ≡ ok pods
    → All P pods
unfolding make_pods_checked
make_pods_checked-All P (pos n) milli_cpu memory pods h e =
    subst (All P) (pods_inj e) (make_pods-All P milli_cpu memory h n)
  where
    pods_inj : {a b : List ProposedPod} → ok a ≡ ok b → a ≡ b
    pods_inj e = cc
make_pods_checked-All P (negsuc n) milli_cpu memory pods h e = cc

length-make_pods : (n : ℕ) (milli_cpu memory : ℤ) → length (make_pods n milli_cpu memory) ≡ n
unfolding make_pods
length-make_pods zero milli_cpu memory = refl
length-make_pods (suc n) milli_cpu memory = omega (arith, length-make_pods n milli_cpu memory)

scheduled_ok :
    (context said : String) (r : Result (Unit {0}))
    → log_of context r ≡ ok (can_be_scheduled said)
    → r ≡ ok tt
scheduled_ok context said (ok u) h = refl
scheduled_ok context said (err e) h = absurd (logs_apart (sym h))
  where
    logs_apart : {s : String} {x : Error} → ok (can_be_scheduled s) ≡ ok (error_log x) → ⊥
    logs_apart h = cc
scheduled_ok context said panic h = cc

not_wrapped :
    (context : String) (r : Result (Unit {0})) → wrap_failure context r ≡ ok tt → r ≡ ok tt
not_wrapped context (ok u) h = refl
not_wrapped context (err e) h = cc
not_wrapped context panic h = cc

checked_count :
    (count : ℤ) (milli_cpu memory : ℤ) (pods : List ProposedPod)
    → make_pods_checked count milli_cpu memory ≡ ok pods
    → (n : ℕ) × (count ≡ pos n) × (length pods ≡ n)
unfolding make_pods_checked
checked_count (pos n) milli_cpu memory pods h =
    (n, refl, subst (λ ps. length ps ≡ n) (pods_inj h) (length-make_pods n milli_cpu memory))
  where
    pods_inj : {a b : List ProposedPod} → ok a ≡ ok b → a ≡ b
    pods_inj e = cc
checked_count (negsuc n) milli_cpu memory pods h = cc

guard_passed : (b : Bool) (e : Error) → (if not b then err e else ok (tt {0})) ≡ ok tt → b ≡ true
guard_passed true e h = refl
guard_passed false e h = cc

positive :
    {Q : Type 0} (quantities : Quantities Q) (raw_context : Result String) (o : EstimateOptions)
    (v : Validated Q)
    → validate quantities raw_context o ≡ ok v
    → is_positive o.count ≡ true
unfolding validate
positive quantities raw_context o v h =
    let e = message "Count of pods must be higher than 0" in
    let (u, passed, more) =
      bind-eq-ok (if not (is_positive o.count) then err e else ok (tt {0})) _ h in
    guard_passed (is_positive o.count) e passed

above_zero : (count : ℤ) (n : ℕ) → count ≡ pos n → is_positive count ≡ true → 0 < n
above_zero count n e h = ltb→lt 0 n (sym (ap is_positive e) ∙ h)

module _ {Node Info PodInfo Cycle Kept : Type 0} (closed : Info → Bool) where
  -- The open nodes of a cluster that could be read.
  pub HasRoom : Cluster Node Info PodInfo Cycle Kept → ℕ → Type 0
  HasRoom c n =
      (nodes : List Node) × (infos : List Info) × (c.list_nodes ≡ ok nodes)
      × (create_node_infos c.fw c.list_pods c.new_node_info nodes ≡ ok infos)
      × (n ≤ open_nodes closed infos)

schedule_on-made :
    {Node Info PodInfo Cycle Kept : Type 0} (c : Cluster Node Info PodInfo Cycle Kept)
    (pods : List ProposedPod)
    (schedulable resources affinity taints : Plugin Info ProposedPod PodInfo Cycle Kept)
    → c.schedulable ≡ ok schedulable
    → c.resources ≡ ok resources
    → c.affinity ≡ ok affinity
    → c.taints ≡ ok taints
    → schedule_on c pods
      ≡ try_scheduling c.fw c.list_pods c.new_node_info c.list_nodes
          (ok schedulable)
          (ok resources)
          (ok affinity)
          (ok taints)
          pods
schedule_on-made c pods schedulable resources affinity taints hs hr ha ht =
    rw hs rw hr rw ha rw ht refl

module _ {Q Node Info PodInfo Cycle Kept : Type 0} (quantities : Quantities Q)
    (closed : Info → Bool) (tolerates : PodInfo → Bool) where
  -- Where the four plugins can be made, set_unschedulable sets the flag of a node, the
  -- NodeUnschedulable plugin, which no PreFilter can skip, refuses a node whose flag is set to a
  -- pod that does not tolerate it, and the pods of the command, which carry no tolerations,
  -- tolerate none, the command says that the pods can be scheduled only where the count is above 0
  -- and the cluster could be read and has at least as many open nodes.
  pub estimate_command-HasRoom :
      (raw_context : Result String) (c : Cluster Node Info PodInfo Cycle Kept) (o : EstimateOptions)
      (context : String)
      (schedulable resources affinity taints : Plugin Info ProposedPod PodInfo Cycle Kept)
      → c.schedulable ≡ ok schedulable
      → c.resources ≡ ok resources
      → c.affinity ≡ ok affinity
      → c.taints ≡ ok taints
      → SetsFlag c.fw closed
      → IsGuarded (resources ∷ schedulable ∷ affinity ∷ taints ∷ []) closed tolerates
      → ((pod : ProposedPod) (info : PodInfo)
          → c.fw.new_pod_info pod ≡ ok info
          → tolerates info ≡ false)
      → estimate_command quantities raw_context (ok c) o ≡ ok (can_be_scheduled context)
      → (n : ℕ) × (o.count ≡ pos n) × (0 < n) × HasRoom closed c n
  unfolding estimate_command run HasRoom
  estimate_command-HasRoom raw_context c o context schedulable resources affinity taints hs hr ha ht
        f g t h =
      let (v, valid, logged) = bind-eq-ok (validate quantities raw_context o) _ h in
      let (pods, made, fits) =
        bind-eq-ok
          (make_pods_checked o.count (quantities.milli_value v.cpu_quantity)
            (quantities.value v.memory_quantity))
          _ (scheduled_ok v.current_context context _ logged) in
      let (n, counts, long) = checked_count o.count _ _ pods made in
      let (nodes, infos, listed, created, room) =
        try_scheduling-open_nodes c.fw closed tolerates c.list_pods c.new_node_info c.list_nodes
          schedulable resources affinity taints pods f g
          (make_pods_checked-All _ o.count _ _ pods t made)
          (sym (schedule_on-made c pods schedulable resources affinity taints hs hr ha ht)
            ∙ not_wrapped v.current_context (schedule_on c pods) fits) in
      (
        n,
        counts,
        above_zero o.count n counts (positive quantities raw_context o v valid),
        (nodes, infos, listed, created, subst (λ k. k ≤ open_nodes closed infos) long room),
      )
