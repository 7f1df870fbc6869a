-- ===== src/Scheduler/Tests/Estimates.antt =====
-- The promise of the estimate, for a cluster of three nodes of which one is closed.
use mathlib.Core.Option
use k8ssandra_client.Common.{
  ℕ, ◌<◌, String, Bool, true, false, none, some, [], ◌∷◌, ok, pos, ◌≡◌, refl, arith, if◌then◌else◌,
}
use k8ssandra_client.Scheduler.Fit.{
  Plugin, unschedulable, schedule_pods, schedule_pod, place, passes_filters, is_kept,
  run_prefilters, run_prefilter, status_code, or_unable, is_success, try_scheduling,
  create_node_infos, add_pods,
}
use k8ssandra_client.Scheduler.Capacity.{IsGuarded}
use k8ssandra_client.Scheduler.Estimate.{
  ProposedPod, EstimateOptions, Quantities, Cluster, make_pods, make_pods_checked, validate, run,
  estimate_command,
}
use k8ssandra_client.Scheduler.Promise.{HasRoom, estimate_command-HasRoom}

-- A node is its flag.
abbrev Fitter : Type 0
Fitter = Plugin Bool ProposedPod ProposedPod Unit Unit

abbrev guard : Fitter
guard = record {
  name = "NodeUnschedulable";
  prefilter = none;
  filter = λ c pod closed. if closed then some unschedulable else none;
}

abbrev open_to_all : String → Fitter
open_to_all name = record { name = name; prefilter = none; filter = λ c pod closed. none }

abbrev cluster : Cluster Bool Bool ProposedPod Unit Unit
cluster = record {
  fw = record {
    new_cycle = tt;
    new_pod_info = λ pod. ok pod;
    merge_kept = λ a b. none;
    all_nodes = λ k. true;
    has_node = λ k n. false;
    node_name = λ closed. "node";
    add_pod = λ pod closed. closed;
    set_unschedulable = λ closed. true;
  };
  list_nodes = ok (false ∷ true ∷ false ∷ []);
  list_pods = λ name. ok [];
  new_node_info = λ closed. closed;
  schedulable = ok guard;
  resources = ok (open_to_all "NodeResourcesFit");
  affinity = ok (open_to_all "NodeAffinity");
  taints = ok (open_to_all "TaintToleration");
}

abbrev quantities : Quantities ℕ
quantities = record { parse_quantity = λ s. ok 2; milli_value = λ q. pos 2000; value = λ q. pos q }

abbrev two_nodes : EstimateOptions
two_nodes = record { count = pos 2; memory = "2"; cpu = "2" }

cluster-IsGuarded :
    IsGuarded
      (open_to_all "NodeResourcesFit"
        ∷ guard
        ∷ open_to_all "NodeAffinity"
        ∷ open_to_all "TaintToleration"
        ∷ [])
      (λ closed. closed)
      (λ pod. false)
unfolding status_code
cluster-IsGuarded = record {
  guard = guard;
  others = (
    open_to_all "NodeResourcesFit" ∷ [],
    open_to_all "NodeAffinity" ∷ open_to_all "TaintToleration" ∷ [],
  );
  among = refl;
  named = (λ e. refl, (λ e. refl, (λ e. refl, (λ e. refl, tt))));
  refuses = λ c pod closed t h. refuses closed h;
}
  where
    refuses :
        (closed : Bool)
        → closed ≡ true
        → is_success (status_code (if closed then some unschedulable else none)) ≡ false
    refuses true h = refl
    refuses false h = ground (arith, h)

estimate_command-HasRoom_example :
    (n : ℕ) × (pos 2 ≡ pos n) × (0 < n) × HasRoom (λ closed. closed) cluster n
unfolding estimate_command validate run make_pods make_pods_checked try_scheduling create_node_infos
    add_pods schedule_pods schedule_pod place passes_filters is_kept run_prefilters run_prefilter
    status_code or_unable Option.bind
estimate_command-HasRoom_example =
    estimate_command-HasRoom quantities (λ closed. closed) (λ pod. false) (ok "prod") cluster
      two_nodes "prod" guard (open_to_all "NodeResourcesFit") (open_to_all "NodeAffinity")
      (open_to_all "TaintToleration") refl refl refl refl (λ closed. refl) cluster-IsGuarded
      (λ pod info e. refl) refl
