-- ===== src/Scheduler/Estimate.antt =====
-- cmd/kubectl-k8ssandra/tools/estimate.go: whether a number of equal pods fits the cluster.
use mathlib.Core.Bool.{not}
use k8ssandra_client.Common.{
  ℕ, zero, suc, String, List, [], ◌∷◌, Result, ok, err, panic, Error, message, wrapped, concat, ℤ,
  pos, negsuc, is_positive, ◌>>=◌, ◌>>◌, if◌then◌else◌,
}
use k8ssandra_client.Scheduler.Fit.{Plugin, Framework, try_scheduling}

-- A proposed corev1.Pod: its name, and the requests of its one container.
pub record ProposedPod : Type 0 where
  pub name : String
  pub milli_cpu : ℤ
  pub memory : ℤ

pub record EstimateOptions : Type 0 where
  pub count : ℤ
  pub memory : String
  pub cpu : String

-- resource.Quantity: ParseQuantity, MilliValue and Value.
pub record Quantities (Q : Type 0) : Type 0 where
  pub parse_quantity : String → Result Q
  pub milli_value : Q → ℤ
  pub value : Q → ℤ

-- What Validate adds to the options.
pub record Validated (Q : Type 0) : Type 0 where
  pub cpu_quantity : Q
  pub memory_quantity : Q
  pub current_context : String

-- make([]*corev1.Pod, n), filled in the loop
unfoldable pub make_pods : ℕ → ℤ → ℤ → List ProposedPod
make_pods zero milli_cpu memory = []
make_pods (suc n) milli_cpu memory =
    record { name = "a"; milli_cpu = milli_cpu; memory = memory } ∷ make_pods n milli_cpu memory

-- make panics on a length below 0.
unfoldable pub make_pods_checked : ℤ → ℤ → ℤ → Result (List ProposedPod)
make_pods_checked (pos n) milli_cpu memory = ok (make_pods n milli_cpu memory)
make_pods_checked (negsuc n) milli_cpu memory = panic

-- The cluster behind a client: what TryScheduling reads, and the constructors of its plugins.
pub record Cluster (Node Info PodInfo Cycle Kept : Type 0) : Type 0 where
  pub fw : Framework Info ProposedPod PodInfo Cycle Kept
  pub list_nodes : Result (List Node)
  pub list_pods : String → Result (List ProposedPod)
  pub new_node_info : Node → Info
  pub schedulable : Result (Plugin Info ProposedPod PodInfo Cycle Kept)
  pub resources : Result (Plugin Info ProposedPod PodInfo Cycle Kept)
  pub affinity : Result (Plugin Info ProposedPod PodInfo Cycle Kept)
  pub taints : Result (Plugin Info ProposedPod PodInfo Cycle Kept)

-- What the command logs.
pub data Log : Type 0 where
  can_be_scheduled : String → Log
  error_log : Error → Log

abbrev pub wrap_failure : String → Result (Unit {0}) → Result (Unit {0})
wrap_failure context (ok u) = ok tt
wrap_failure context (err e) =
    err (wrapped (concat ("Unable to schedule the pods to current cluster " ∷ context ∷ [])) e)
wrap_failure context panic = panic

abbrev pub log_of : String → Result (Unit {0}) → Result Log
log_of context (ok u) = ok (can_be_scheduled context)
log_of context (err e) = ok (error_log e)
log_of context panic = panic

module _ {Node Info PodInfo Cycle Kept : Type 0} where
  abbrev pub schedule_on :
      Cluster Node Info PodInfo Cycle Kept → List ProposedPod → Result (Unit {0})
  schedule_on c pods =
      try_scheduling c.fw c.list_pods c.new_node_info c.list_nodes c.schedulable c.resources
        c.affinity c.taints pods

module _ {Q : Type 0} (quantities : Quantities Q) where
  -- `raw_context` is the current context of the kubeconfig.
  unfoldable pub validate : Result String → EstimateOptions → Result (Validated Q)
  validate raw_context o = do
    if not (is_positive o.count)
        then err (message "Count of pods must be higher than 0")
        else ok (tt {0})
    cpu ← quantities.parse_quantity o.cpu
    memory ← quantities.parse_quantity o.memory
    context ← raw_context
    ok (record { cpu_quantity = cpu; memory_quantity = memory; current_context = context })

  module _ {Node Info PodInfo Cycle Kept : Type 0} where
    -- `connect` is ToRESTConfig with GetClient.
    unfoldable pub run :
        Result (Cluster Node Info PodInfo Cycle Kept)
        → EstimateOptions
        → Validated Q
        → Result (Unit {0})
    run connect o v = do
      cluster ← connect
      pods ←
          make_pods_checked o.count (quantities.milli_value v.cpu_quantity)
            (quantities.value v.memory_quantity)
      wrap_failure v.current_context (schedule_on cluster pods)

    -- An error of the run is logged, and the command ends without one.
    unfoldable pub estimate_command :
        Result String → Result (Cluster Node Info PodInfo Cycle Kept) → EstimateOptions → Result Log
    estimate_command raw_context connect o = do
      v ← validate raw_context o
      log_of v.current_context (run connect o v)
