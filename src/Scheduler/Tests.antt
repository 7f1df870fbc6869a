-- ===== src/Scheduler/Tests.antt =====
-- The theorems on scheduling for a cluster of two nodes with 4 and 8 units.
mod Estimates
use mathlib.Core.Option
use k8ssandra_client.Common.{
  nat_eq, not, ◌&&◌, ap, sym, ℕ, ◌+◌, ◌-◌, ◌≤◌, String, Bool, eq_iff, ◌≤◌, true, false, none, some,
  List, [], ◌∷◌, ◌++◌, length, Result, ok, err, ◌≡◌, refl, arith, leb, if◌then◌else◌,
}
use k8ssandra_client.Scheduler.Fit.{
  Plugin, Framework, unschedulable, skip, error, schedule_pods, schedule_pod, place, passes_filters,
  is_kept, run_prefilters, run_prefilter, after_status, status_code, or_unable, try_scheduling,
  create_node_infos, add_pods, unable_to_schedule,
}
use k8ssandra_client.Scheduler.Trace.{StopsAt, schedule_pods-StopsAt}
use k8ssandra_client.Scheduler.Capacity.{
  open_nodes, IsGuarded, SetsFlag, NoneTolerates, open_nodes-schedule_pods,
  try_scheduling-open_nodes,
}

-- A node: its name, its free units and its flag. A pod is the units that it asks for.
record Info : Type 0 where
  name : String
  free : ℕ
  closed : Bool

abbrev Fitter : Type 0
Fitter = Plugin Info ℕ ℕ Unit Unit

abbrev resources : Fitter
resources = record {
  name = "NodeResourcesFit";
  prefilter = some (λ c pod nodes. ((none, none), c));
  filter = λ c pod node. if leb pod node.free then none else some unschedulable;
}

-- A pod that asks for less than one unit tolerates every node.
abbrev tolerates : ℕ → Bool
tolerates pod = nat_eq pod 0

abbrev schedulable : Fitter
schedulable = record {
  name = "NodeUnschedulable";
  prefilter = none;
  filter = λ c pod node. if node.closed && not (tolerates pod) then some unschedulable else none;
}

-- A plugin that skips itself, and one that takes every node.
abbrev affinity : Fitter
affinity = record {
  name = "NodeAffinity";
  prefilter = some (λ c pod nodes. ((none, some skip), c));
  filter = λ c pod node. some error;
}

abbrev taints : Fitter
taints = record { name = "TaintToleration"; prefilter = none; filter = λ c pod node. none }

abbrev plugins : List Fitter
plugins = resources ∷ schedulable ∷ affinity ∷ taints ∷ []

abbrev is_closed : Info → Bool
is_closed node = node.closed

abbrev fw : Framework Info ℕ ℕ Unit Unit
fw = record {
  new_cycle = tt;
  new_pod_info = λ pod. ok pod;
  merge_kept = λ a b. none;
  all_nodes = λ k. true;
  has_node = λ k n. false;
  node_name = λ node. node.name;
  add_pod = λ pod node. record { name = node.name; free = node.free - pod; closed = node.closed };
  set_unschedulable = λ node. record { name = node.name; free = node.free; closed = true };
}

abbrev cluster : List Info
cluster =
    record { name = "a"; free = 4; closed = false }
    ∷ record { name = "b"; free = 8; closed = false }
    ∷ []

fits :
    schedule_pods fw plugins 2 0 (6 ∷ 4 ∷ []) cluster
    ≡ ok (
        record { name = "a"; free = 0; closed = true }
        ∷ record { name = "b"; free = 2; closed = true }
        ∷ [])
unfolding schedule_pods schedule_pod place passes_filters is_kept run_prefilters run_prefilter
    after_status status_code or_unable Option.bind
fits = refl

-- The second pod would fit the units that node b has left, but the node is closed.
full : schedule_pods fw plugins 2 0 (6 ∷ 5 ∷ []) cluster ≡ err (unable_to_schedule 2 1)
unfolding schedule_pods schedule_pod place passes_filters is_kept run_prefilters run_prefilter
    after_status status_code or_unable Option.bind
full = refl

plugins-IsGuarded : IsGuarded plugins is_closed tolerates
unfolding status_code
plugins-IsGuarded = record {
  guard = schedulable;
  others = (resources ∷ [], affinity ∷ taints ∷ []);
  among = refl;
  named = (
    λ e. ground (arith, eq_iff "NodeResourcesFit" "NodeUnschedulable"),
    (λ e. refl, (λ e. ground (arith, eq_iff "NodeAffinity" "NodeUnschedulable"), (λ e. refl, tt))),
  );
  refuses = λ c pod node t h. ground (arith, t, h);
}

none_tolerates : NoneTolerates fw is_closed tolerates (6 ∷ 4 ∷ [])
none_tolerates = (
  λ info e. let same : 6 ≡ info = cc e in ap tolerates (sym same),
  (λ info e. let same : 4 ≡ info = cc e in ap tolerates (sym same), tt),
)

fw-SetsFlag : SetsFlag fw is_closed
fw-SetsFlag node = refl

open_nodes-schedule_pods_example :
    length {A = ℕ} (6 ∷ 4 ∷ [])
      + open_nodes is_closed (
          record { name = "a"; free = 0; closed = true }
          ∷ record { name = "b"; free = 2; closed = true }
          ∷ [])
    ≡ open_nodes is_closed cluster
open_nodes-schedule_pods_example =
    open_nodes-schedule_pods fw is_closed tolerates plugins 2 0 (6 ∷ 4 ∷ []) cluster
      (record { name = "a"; free = 0; closed = true }
        ∷ record { name = "b"; free = 2; closed = true }
        ∷ [])
      fw-SetsFlag plugins-IsGuarded none_tolerates fits

schedule_pods-StopsAt_example :
    (placed : List ℕ) × (pod : ℕ) × (rest : List ℕ) × (after : List Info) × ((6 ∷ 5 ∷ [])
      ≡ placed ++ pod ∷ rest)
    × StopsAt fw plugins 2 0 cluster (unable_to_schedule 2 1) placed pod after
schedule_pods-StopsAt_example =
    schedule_pods-StopsAt fw plugins 2 0 (6 ∷ 5 ∷ []) cluster (unable_to_schedule 2 1) full

-- client.List finds the two nodes, and no pods on them.
abbrev list_pods : String → Result (List ℕ)
list_pods name = ok []

abbrev as_info : Info → Info
as_info node = node

tries :
    try_scheduling fw list_pods as_info
      (ok cluster)
      (ok schedulable)
      (ok resources)
      (ok affinity)
      (ok taints)
      (6 ∷ 4 ∷ [])
    ≡ ok tt
unfolding try_scheduling create_node_infos add_pods schedule_pods schedule_pod place passes_filters
    is_kept run_prefilters run_prefilter after_status status_code or_unable Option.bind
tries = refl

try_scheduling-open_nodes_example :
    (nodes : List Info) × (infos : List Info) × (ok cluster ≡ ok nodes)
    × (create_node_infos fw list_pods as_info nodes ≡ ok infos)
    × (length {A = ℕ} (6 ∷ 4 ∷ []) ≤ open_nodes is_closed infos)
try_scheduling-open_nodes_example =
    try_scheduling-open_nodes fw is_closed tolerates list_pods as_info (ok cluster) schedulable
      resources affinity taints (6 ∷ 4 ∷ []) fw-SetsFlag plugins-IsGuarded none_tolerates tries
