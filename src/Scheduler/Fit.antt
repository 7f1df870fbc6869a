-- ===== src/Scheduler/Fit.antt =====
-- pkg/scheduler/fit.go: whether the proposed pods fit the cluster. The node infos, pod infos and
-- plugins are those of the Kubernetes scheduler, so they are parameters.
use mathlib.Core.Option
use k8ssandra_client.Common.{
  ℕ, suc, String, Bool, true, false, ◌&&◌, ◌||◌, Option, none, some, List, [], ◌∷◌, any, length,
  Result, ok, err, Error, message, concat, decimal, ◌>>=◌, ◌==◌, if◌then◌else◌,
}

-- framework.Code
pub data Code : Type 0 where
  success : Code
  error : Code
  unschedulable : Code
  unresolvable : Code
  wait : Code
  skip : Code
  pending : Code

abbrev pub is_success : Code → Bool
is_success success = true
is_success _ = false

abbrev pub is_skip : Code → Bool
is_skip skip = true
is_skip _ = false

-- A nil status is a success.
unfoldable pub status_code : Option Code → Code
status_code none = success
status_code (some c) = c

-- The types of the scheduler framework: node infos, pods, pod infos, the cycle state and the
-- result of a PreFilter.
module _ (Info Pod PodInfo Cycle Kept : Type 0) where
  -- schedframework.FilterPlugin, with its PreFilter where it is a PreFilterPlugin. A PreFilter
  -- writes the cycle state, which Filter reads.
  pub record Plugin : Type 0 where
    pub name : String
    pub prefilter : Option (Cycle → PodInfo → List Info → (Option Kept × Option Code) × Cycle)
    pub filter : Cycle → PodInfo → Info → Option Code

  -- What the code calls of the framework.
  pub record Framework : Type 0 where
    -- framework.NewCycleState and framework.NewPodInfo
    pub new_cycle : Cycle
    pub new_pod_info : Pod → Result PodInfo
    -- preFilterResult.Merge, on pointers that may be nil
    pub merge_kept : Option Kept → Option Kept → Option Kept
    -- AllNodes, and NodeNames.Has
    pub all_nodes : Kept → Bool
    pub has_node : Kept → String → Bool
    -- node.Node().Name, node.AddPod and `n.Spec.Unschedulable = true`
    pub node_name : Info → String
    pub add_pod : Pod → Info → Info
    pub set_unschedulable : Info → Info

unfoldable pub unable_to_schedule : ℕ → ℕ → Error
unable_to_schedule requested schedulable = message (
    concat (
      "unable to schedule all the pods, requested: "
      ∷ decimal requested
      ∷ ", schedulable: "
      ∷ decimal schedulable
      ∷ []))

-- A pod that finds no node ends the whole attempt.
unfoldable pub or_unable : {A : Type 0} → ℕ → ℕ → Option A → Result A
or_unable requested succeeded (some a) = ok a
or_unable requested succeeded none = err (unable_to_schedule requested succeeded)

-- What the PreFilters leave: the cycle state, the names of skipped plugins and the nodes kept.
pub record Prepared (Cycle Kept : Type 0) : Type 0 where
  pub cycle : Cycle
  pub skipped : List String
  pub kept : Option Kept

module _ {Info Pod PodInfo Cycle Kept : Type 0} where
  module _ (fw : Framework Info Pod PodInfo Cycle Kept) where
    -- What one status changes; `none` where the pod cannot be scheduled.
    unfoldable pub after_status :
        String → Option Kept → Code → Prepared Cycle Kept → Option (Prepared Cycle Kept)
    after_status name result success p =
        some (record { cycle = p.cycle; skipped = p.skipped; kept = fw.merge_kept p.kept result })
    after_status name result skip p =
        some (record { cycle = p.cycle; skipped = name ∷ p.skipped; kept = p.kept })
    after_status name result _ p = none

    unfoldable pub run_prefilter :
        String
        → Option (Cycle → PodInfo → List Info → (Option Kept × Option Code) × Cycle)
        → PodInfo
        → List Info
        → Prepared Cycle Kept
        → Option (Prepared Cycle Kept)
    run_prefilter name none pod nodes p = some p
    run_prefilter name (some prefilter) pod nodes p =
        let ((result, status), cycle') = prefilter p.cycle pod nodes in
        after_status name result (status_code status)
          (record { cycle = cycle'; skipped = p.skipped; kept = p.kept })

    unfoldable pub run_prefilters :
        List (Plugin Info Pod PodInfo Cycle Kept)
        → PodInfo
        → List Info
        → Option (Prepared Cycle Kept)
        → Option (Prepared Cycle Kept)
    run_prefilters [] pod nodes p = p
    run_prefilters (plugin ∷ plugins) pod nodes none = none
    run_prefilters (plugin ∷ plugins) pod nodes (some p) =
        run_prefilters plugins pod nodes (run_prefilter plugin.name plugin.prefilter pod nodes p)

    -- `preFilterResult != nil && !preFilterResult.AllNodes() && !NodeNames.Has(name)` fails.
    unfoldable pub is_kept : Option Kept → Info → Bool
    is_kept none node = true
    is_kept (some kept) node = fw.all_nodes kept || fw.has_node kept (fw.node_name node)

    unfoldable pub passes_filters :
        List (Plugin Info Pod PodInfo Cycle Kept) → PodInfo → Prepared Cycle Kept → Info → Bool
    passes_filters [] pod p node = true
    passes_filters (plugin ∷ plugins) pod p node =
        (any (λ n. n == plugin.name) p.skipped
          || is_success (status_code (plugin.filter p.cycle pod node)))
        && passes_filters plugins pod p node

    -- The first node that takes the pod gets it and is made unschedulable.
    unfoldable pub place :
        List (Plugin Info Pod PodInfo Cycle Kept)
        → Pod
        → PodInfo
        → Prepared Cycle Kept
        → List Info
        → Option (List Info)
    place plugins pod info p [] = none
    place plugins pod info p (node ∷ nodes) =
        let rest = place plugins pod info p nodes in
        if is_kept p.kept node && passes_filters plugins info p node
        then some (fw.set_unschedulable (fw.add_pod pod node) ∷ nodes)
        else Option.map (λ after. node ∷ after) rest

    -- The nodes after one pod: `none` where no node takes it.
    unfoldable pub schedule_pod :
        List (Plugin Info Pod PodInfo Cycle Kept) → List Info → Pod → PodInfo → Option (List Info)
    schedule_pod plugins nodes pod info =
        Option.bind
          (run_prefilters plugins info nodes
            (some (record { cycle = fw.new_cycle; skipped = []; kept = none })))
          (λ p. place plugins pod info p nodes)

    -- The pods one after the other. `requested` is len(proposedPods), and `succeeded` counts the
    -- pods placed. The Go code drops the nodes at the end.
    unfoldable pub schedule_pods :
        List (Plugin Info Pod PodInfo Cycle Kept)
        → ℕ
        → ℕ
        → List Pod
        → List Info
        → Result (List Info)
    schedule_pods plugins requested succeeded [] nodes = ok nodes
    schedule_pods plugins requested succeeded (pod ∷ pods) nodes = do
      info ← fw.new_pod_info pod
      after ← or_unable requested succeeded (schedule_pod plugins nodes pod info)
      schedule_pods plugins requested (suc succeeded) pods after

    -- nodeInfo.AddPod for each pod of a node.
    unfoldable pub add_pods : List Pod → Info → Info
    add_pods [] info = info
    add_pods (pod ∷ pods) info = add_pods pods (fw.add_pod pod info)

-- The parameters below are client.List for nodes and for the pods of a node, framework.NewNodeInfo
-- with SetNode, and the constructors of the four plugins.
module _ {Node Info Pod PodInfo Cycle Kept : Type 0}
    (fw : Framework Info Pod PodInfo Cycle Kept) where
  module _ (list_pods : String → Result (List Pod)) (new_node_info : Node → Info) where
    unfoldable pub create_node_infos : List Node → Result (List Info)
    create_node_infos [] = ok []
    create_node_infos (node ∷ nodes) = do
      pods ← list_pods (fw.node_name (new_node_info node))
      infos ← create_node_infos nodes
      ok (add_pods fw pods (new_node_info node) ∷ infos)

    unfoldable pub try_scheduling :
        Result (List Node)
        → (nodeunschedulable noderesources nodeaffinity tainttoleration : Result
            (Plugin Info Pod PodInfo Cycle Kept))
        → List Pod
        → Result {0} Unit
    try_scheduling list_nodes nodeunschedulable noderesources nodeaffinity tainttoleration
          proposed_pods =
        do
          nodes ← list_nodes
          usable_nodes ← create_node_infos nodes
          schedulable ← nodeunschedulable
          resources ← noderesources
          affinity ← nodeaffinity
          taints ← tainttoleration
          after ←
              schedule_pods fw (resources ∷ schedulable ∷ affinity ∷ taints ∷ [])
                (length proposed_pods) 0 proposed_pods usable_nodes
          ok tt
