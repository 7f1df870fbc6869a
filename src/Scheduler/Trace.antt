-- ===== src/Scheduler/Trace.antt =====
-- Where an attempt to schedule pods stops, and the numbers it reports.
use k8ssandra_client.Common.{
  ℕ, suc, ◌+◌, Option, none, some, List, [], ◌∷◌, ◌++◌, length, ok, err, Error, ◌≡◌, refl, sym, ap,
  ◌∙◌, ◌⊎◌, inl, inr, arith, bind, bind-eq-err, bind-eq-ok,
}
use k8ssandra_client.Scheduler.Fit.{
  Plugin, Framework, schedule_pod, schedule_pods, or_unable, unable_to_schedule,
}

module _ {Info Pod PodInfo Cycle Kept : Type 0} (fw : Framework Info Pod PodInfo Cycle Kept)
    (plugins : List (Plugin Info Pod PodInfo Cycle Kept)) where
  -- An attempt that stops at `pod`: the pods before it found their nodes.
  pub record StopsAt (requested succeeded : ℕ) (nodes : List Info) (e : Error) (placed : List Pod)
      (pod : Pod) (after : List Info) : Type 0 where
    -- the pods before it are scheduled, and leave the nodes `after`
    pub before : schedule_pods fw plugins requested succeeded placed nodes ≡ ok after
    -- its pod info is refused, or no node takes it
    pub reason :
        (fw.new_pod_info pod ≡ err e)
        ⊎ ((info : PodInfo) × (fw.new_pod_info pod ≡ ok info)
            × (schedule_pod fw plugins after pod info ≡ none)
            × (e ≡ unable_to_schedule requested (succeeded + length placed)))

  or_unable-eq-err :
      (requested succeeded : ℕ) (o : Option (List Info)) (e : Error)
      → or_unable requested succeeded o ≡ err e
      → (o ≡ none) × (e ≡ unable_to_schedule requested succeeded)
  unfolding or_unable
  or_unable-eq-err requested succeeded (some a) e h = cc
  or_unable-eq-err requested succeeded none e h = (refl, cc)

  or_unable-eq-ok :
      (requested succeeded : ℕ) (o : Option (List Info)) (a : List Info)
      → or_unable requested succeeded o ≡ ok a
      → o ≡ some a
  unfolding or_unable
  or_unable-eq-ok requested succeeded (some b) a h = cc
  or_unable-eq-ok requested succeeded none a h = cc

  pub schedule_pods_cons :
      (requested succeeded : ℕ) (pod : Pod) (pods : List Pod) (nodes : List Info)
      → schedule_pods fw plugins requested succeeded (pod ∷ pods) nodes
        ≡ bind (fw.new_pod_info pod) (λ info.
          bind
            (or_unable requested succeeded (schedule_pod fw plugins nodes pod info))
            (schedule_pods fw plugins requested (suc succeeded) pods))
  unfolding schedule_pods
  schedule_pods_cons requested succeeded pod pods nodes = refl

  -- A pod that found its node, and the pods after it.
  schedule_pods_placed :
      (requested succeeded : ℕ) (pod : Pod) (pods : List Pod) (nodes after : List Info)
      (info : PodInfo)
      → fw.new_pod_info pod ≡ ok info
      → schedule_pod fw plugins nodes pod info ≡ some after
      → schedule_pods fw plugins requested succeeded (pod ∷ pods) nodes
        ≡ schedule_pods fw plugins requested (suc succeeded) pods after
  unfolding or_unable
  schedule_pods_placed requested succeeded pod pods nodes after info p q =
      rw (schedule_pods_cons requested succeeded pod pods nodes) rw p rw q refl

  pub schedule_pods_nil :
      (requested succeeded : ℕ) (nodes : List Info)
      → schedule_pods fw plugins requested succeeded [] nodes ≡ ok nodes
  unfolding schedule_pods
  schedule_pods_nil requested succeeded nodes = refl

  pub schedule_pods-eq-ok :
      (requested succeeded : ℕ) (pod : Pod) (pods : List Pod) (nodes after : List Info)
      → schedule_pods fw plugins requested succeeded (pod ∷ pods) nodes ≡ ok after
      → (info : PodInfo) × (next : List Info) × (fw.new_pod_info pod ≡ ok info)
        × (schedule_pod fw plugins nodes pod info ≡ some next)
        × (schedule_pods fw plugins requested (suc succeeded) pods next ≡ ok after)
  schedule_pods-eq-ok requested succeeded pod pods nodes after h =
      let (info, made, h2) =
        bind-eq-ok (fw.new_pod_info pod) _
          (sym (schedule_pods_cons requested succeeded pod pods nodes) ∙ h) in
      let (next, placed, h3) =
        bind-eq-ok (or_unable requested succeeded (schedule_pod fw plugins nodes pod info)) _ h2 in
      (
        info,
        next,
        made,
        or_unable-eq-ok requested succeeded (schedule_pod fw plugins nodes pod info) next placed,
        h3,
      )

  StopsAt-cons :
      (requested succeeded : ℕ) (pod : Pod) (nodes next : List Info) (e : Error) (info : PodInfo)
      (placed : List Pod) (last : Pod) (after : List Info)
      → fw.new_pod_info pod ≡ ok info
      → schedule_pod fw plugins nodes pod info ≡ some next
      → StopsAt requested (suc succeeded) next e placed last after
      → StopsAt requested succeeded nodes e (pod ∷ placed) last after
  StopsAt-cons requested succeeded pod nodes next e info placed last after p q is = record {
    before = schedule_pods_placed requested succeeded pod placed nodes next info p q ∙ is.before;
    reason = elim is.reason [
      | inl refused ↦ inl refused
      | inr (i, r, full, e') ↦ inr (i, r, full, ground (arith, e'))
    ];
  }

  -- An attempt that fails has placed exactly the pods before the one it stops at, and its message
  -- gives their number, unless the framework refused the pod info.
  pub schedule_pods-StopsAt :
      (requested succeeded : ℕ) (pods : List Pod) (nodes : List Info) (e : Error)
      → schedule_pods fw plugins requested succeeded pods nodes ≡ err e
      → (placed : List Pod) × (pod : Pod) × (rest : List Pod) × (after : List Info) × (pods
          ≡ placed ++ pod ∷ rest)
        × StopsAt requested succeeded nodes e placed pod after
  schedule_pods-StopsAt requested succeeded [] nodes e h =
      ground (arith, schedule_pods_nil requested succeeded nodes, h)
  schedule_pods-StopsAt requested succeeded (pod ∷ pods) nodes e h =
      elim (bind-eq-err (fw.new_pod_info pod) _
        (sym (schedule_pods_cons requested succeeded pod pods nodes) ∙ h)) [
          | inl refused ↦ (
            [],
            pod,
            pods,
            nodes,
            refl,
            record { before = schedule_pods_nil requested succeeded nodes; reason = inl refused },
          )
          | inr (info, p, h2) ↦
              elim (bind-eq-err
                (or_unable requested succeeded (schedule_pod fw plugins nodes pod info)) _ h2) [
                  | inl full ↦
                      let (q, e') =
                        or_unable-eq-err requested succeeded
                          (schedule_pod fw plugins nodes pod info) e full in
                      (
                        [],
                        pod,
                        pods,
                        nodes,
                        refl,
                        record {
                          before = schedule_pods_nil requested succeeded nodes;
                          reason = inr (info, p, q, ground (arith, e'));
                        },
                      )
                  | inr (next, q, h3) ↦
                      let (placed, last, rest, after, split, is) =
                        schedule_pods-StopsAt requested (suc succeeded) pods next e h3 in
                      (
                        pod ∷ placed,
                        last,
                        rest,
                        after,
                        ap (λ ps. pod ∷ ps) split,
                        StopsAt-cons requested succeeded pod nodes next e info placed last after p
                            (or_unable-eq-ok requested succeeded
                              (schedule_pod fw plugins nodes pod info) next q)
                            is,
                      )
                ]
        ]
