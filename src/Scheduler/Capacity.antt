-- ===== src/Scheduler/Capacity.antt =====
-- A cluster takes no more pods than it has nodes that are open: each placed pod closes its node.
use k8ssandra_client.Common.{
  ℕ, suc, ◌+◌, String, Bool, true, false, ◌&&◌, if◌then◌else◌, Option, none, some, List, [], ◌∷◌,
  ◌++◌, length, Result, ok, bind-eq-ok, ◌≤◌, All, ◌≡◌, refl, sym, ap, ◌∙◌, arith, inl, inr, ◌⊎◌,
  ◌==◌,
}
use mathlib.Core.Option
use k8ssandra_client.Scheduler.Fit.{
  Plugin, Framework, Prepared, is_success, status_code, run_prefilters, is_kept, passes_filters,
  place, schedule_pod, schedule_pods, try_scheduling, create_node_infos,
}
use k8ssandra_client.Scheduler.Skips.{some_injective, is_skipped, run_prefilters-skipped}
use k8ssandra_client.Scheduler.Trace.{schedule_pods-eq-ok, schedule_pods_nil}

ok_injective {ℓ} : {A : Type ℓ} {a b : A} → ok a ≡ ok b → a ≡ b
ok_injective h = cc

taken_or_passed :
    {Info : Type 0} (taken : Bool) (rest : Option (List Info)) (node node' : Info)
    (nodes after : List Info)
    → (if taken then some (node' ∷ nodes) else Option.map (λ r. node ∷ r) rest) ≡ some after
    → ((taken ≡ true) × (node' ∷ nodes ≡ after))
      ⊎ ((r : List Info) × (rest ≡ some r) × (node ∷ r ≡ after))
taken_or_passed true rest node node' nodes after h = inl (refl, some_injective h)
taken_or_passed false none node node' nodes after h = cc
taken_or_passed false (some r) node node' nodes after h = inr (r, refl, some_injective h)

none_not_some {ℓ} : {A : Type ℓ} {b : A} → none ≡ some b → ⊥
none_not_some h = cc

option_bind-eq-some {ℓ} :
    {A B : Type ℓ} (o : Option A) (f : A → Option B) {b : B}
    → Option.bind o f ≡ some b
    → (a : A) × (o ≡ some a) × (f a ≡ some b)
unfolding Option.bind
option_bind-eq-some none f {b} h = absurd (none_not_some h)
option_bind-eq-some (some a) f h = (a, refl, h)

module _ {Info : Type 0} (closed : Info → Bool) where
  -- The nodes that are open to pods.
  unfoldable pub open_nodes : List Info → ℕ
  open_nodes [] = 0
  open_nodes (n ∷ ns) = if closed n then open_nodes ns else suc (open_nodes ns)

module _ {Info Pod PodInfo Cycle Kept : Type 0} (fw : Framework Info Pod PodInfo Cycle Kept)
    (closed : Info → Bool) where
  -- Documented behaviour of the framework: `closed` reads the node's flag, which
  -- `set_unschedulable` sets.
  abbrev pub SetsFlag : Type 0
  SetsFlag = (node : Info) → closed (fw.set_unschedulable node) ≡ true

  -- The infos that are made of the pods have no toleration of a closed node.
  abbrev pub NoneTolerates : (PodInfo → Bool) → List Pod → Type 0
  NoneTolerates tolerates =
      All (λ pod. (info : PodInfo) → fw.new_pod_info pod ≡ ok info → tolerates info ≡ false)

module _ {Info Pod PodInfo Cycle Kept : Type 0}
    (plugins : List (Plugin Info Pod PodInfo Cycle Kept)) (closed : Info → Bool)
    (tolerates : PodInfo → Bool) where
  -- The NodeUnschedulable plugin is among the plugins. It has no PreFilter, no plugin that has one
  -- shares its name, and it refuses a closed node to a pod that does not tolerate it.
  pub record IsGuarded : Type 0 where
    pub guard : Plugin Info Pod PodInfo Cycle Kept
    pub others :
        List (Plugin Info Pod PodInfo Cycle Kept) × List (Plugin Info Pod PodInfo Cycle Kept)
    pub among : plugins ≡ others.0 ++ guard ∷ others.1
    pub named : All (λ p. (p.name == guard.name) ≡ true → p.prefilter ≡ none) plugins
    pub refuses :
        (cycle : Cycle) (pod : PodInfo) (node : Info)
        → tolerates pod ≡ false
        → closed node ≡ true
        → is_success (status_code (guard.filter cycle pod node)) ≡ false

module _ {Info Pod PodInfo Cycle Kept : Type 0} (fw : Framework Info Pod PodInfo Cycle Kept)
    (closed : Info → Bool) (tolerates : PodInfo → Bool) where
  passes_filters-guard :
      (guard : Plugin Info Pod PodInfo Cycle Kept)
      (before after : List (Plugin Info Pod PodInfo Cycle Kept)) (pod : PodInfo)
      (p : Prepared Cycle Kept) (node : Info)
      → is_skipped guard.name p ≡ false
      → is_success (status_code (guard.filter p.cycle pod node)) ≡ false
      → passes_filters fw (before ++ guard ∷ after) pod p node ≡ false
  unfolding passes_filters
  passes_filters-guard guard [] after pod p node s r = ground (arith, s, r)
  passes_filters-guard guard (b ∷ before) after pod p node s r =
      ground (arith, passes_filters-guard guard before after pod p node s r)

  place-open_nodes :
      (plugins : List (Plugin Info Pod PodInfo Cycle Kept)) (pod : Pod) (info : PodInfo)
      (p : Prepared Cycle Kept) (nodes after : List Info)
      → SetsFlag fw closed
      → ((node : Info) → closed node ≡ true → passes_filters fw plugins info p node ≡ false)
      → place fw plugins pod info p nodes ≡ some after
      → suc (open_nodes closed after) ≡ open_nodes closed nodes
  unfolding place open_nodes
  place-open_nodes plugins pod info p [] after f g h = ground arith
  place-open_nodes plugins pod info p (node ∷ nodes) after f g h =
      elim (taken_or_passed (is_kept fw p.kept node && passes_filters fw plugins info p node)
        (place fw plugins pod info p nodes) node (fw.set_unschedulable (fw.add_pod pod node)) nodes
        after h) [
          | inl (taken, e) ↦
              ap (λ ns. suc (open_nodes closed ns)) (sym e)
              ∙ ground (arith, f (fw.add_pod pod node), g node, taken)
          | inr (r, q, e) ↦
              ap (λ ns. suc (open_nodes closed ns)) (sym e)
              ∙ ground (arith, place-open_nodes plugins pod info p nodes r f g q)
        ]

  schedule_pod-open_nodes :
      (plugins : List (Plugin Info Pod PodInfo Cycle Kept)) (nodes after : List Info) (pod : Pod)
      (info : PodInfo)
      → SetsFlag fw closed
      → IsGuarded plugins closed tolerates
      → tolerates info ≡ false
      → schedule_pod fw plugins nodes pod info ≡ some after
      → suc (open_nodes closed after) ≡ open_nodes closed nodes
  unfolding schedule_pod
  schedule_pod-open_nodes plugins nodes after pod info f g t h =
      let start : Prepared Cycle Kept = record {
        cycle = fw.new_cycle;
        skipped = [];
        kept = none;
      } in
      let (p, prepared, placed) =
        option_bind-eq-some (run_prefilters fw plugins info nodes (some start))
          (λ p. place fw plugins pod info p nodes) h in
      let free =
        run_prefilters-skipped fw g.guard.name plugins info nodes (some start) p g.named prepared
          (λ q e. ap (is_skipped g.guard.name) (sym (some_injective e))) in
      place-open_nodes plugins pod info p nodes after f
        (λ node c.
          ap (λ ps. passes_filters fw ps info p node) g.among
          ∙ passes_filters-guard g.guard g.others.0 g.others.1 info p node free
              (g.refuses p.cycle info node t c))
        placed

  -- Under the same conditions on the flag, the plugin and the pods, where the pods are scheduled
  -- each of them has closed an open node of its own: the nodes open before are as many as the pods
  -- and the nodes still open.
  pub open_nodes-schedule_pods :
      (plugins : List (Plugin Info Pod PodInfo Cycle Kept)) (requested succeeded : ℕ)
      (pods : List Pod) (nodes after : List Info)
      → SetsFlag fw closed
      → IsGuarded plugins closed tolerates
      → NoneTolerates fw closed tolerates pods
      → schedule_pods fw plugins requested succeeded pods nodes ≡ ok after
      → length pods + open_nodes closed after ≡ open_nodes closed nodes
  open_nodes-schedule_pods plugins requested succeeded [] nodes after f g t h =
      let same = ok_injective (sym h ∙ schedule_pods_nil fw plugins requested succeeded nodes) in
      omega (arith, ap (open_nodes closed) same)
  open_nodes-schedule_pods plugins requested succeeded (pod ∷ pods) nodes after f g (t, ts) h =
      let (info, next, made, placed, rest) =
        schedule_pods-eq-ok fw plugins requested succeeded pod pods nodes after h in
      omega (
        arith,
        schedule_pod-open_nodes plugins nodes next pod info f g (t info made) placed,
        open_nodes-schedule_pods plugins requested (suc succeeded) pods next after f g ts rest,
      )

module _ {Node Info Pod PodInfo Cycle Kept : Type 0} (fw : Framework Info Pod PodInfo Cycle Kept)
    (closed : Info → Bool) (tolerates : PodInfo → Bool) (list_pods : String → Result (List Pod))
    (new_node_info : Node → Info) where
  -- Given that set_unschedulable sets the flag of a node, that the NodeUnschedulable plugin, which
  -- no PreFilter can skip, refuses a node whose flag is set to a pod that does not tolerate it,
  -- and that none of the proposed pods does, TryScheduling succeeds only where the nodes and their
  -- pods can be read and at least as many nodes are open as pods are proposed.
  pub try_scheduling-open_nodes :
      (list_nodes : Result (List Node))
      (schedulable resources affinity taints : Plugin Info Pod PodInfo Cycle Kept) (pods : List Pod)
      → SetsFlag fw closed
      → IsGuarded (resources ∷ schedulable ∷ affinity ∷ taints ∷ []) closed tolerates
      → NoneTolerates fw closed tolerates pods
      → try_scheduling fw list_pods new_node_info list_nodes
          (ok schedulable)
          (ok resources)
          (ok affinity)
          (ok taints)
          pods
        ≡ ok tt
      → (nodes : List Node) × (infos : List Info) × (list_nodes ≡ ok nodes)
        × (create_node_infos fw list_pods new_node_info nodes ≡ ok infos)
        × (length pods ≤ open_nodes closed infos)
  unfolding try_scheduling
  try_scheduling-open_nodes list_nodes schedulable resources affinity taints pods f g t h =
      let plugins = resources ∷ schedulable ∷ affinity ∷ taints ∷ [] in
      let (nodes, listed, h2) = bind-eq-ok list_nodes _ h in
      let (infos, created, h3) =
        bind-eq-ok (create_node_infos fw list_pods new_node_info nodes) _ h2 in
      let (after, scheduled, _) =
        bind-eq-ok (schedule_pods fw plugins (length pods) 0 pods infos) _ h3 in
      (
        nodes,
        infos,
        listed,
        created,
        omega (
          arith,
          open_nodes-schedule_pods fw closed tolerates plugins (length pods) 0 pods infos after f g
              t scheduled,
        ),
      )
