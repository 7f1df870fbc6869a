-- ===== src/Envtest/Stopped.antt =====
-- Which API servers run after RunMulti and Run.
use k8ssandra_client.Common.{
  subst, some, ℕ, zero, suc, ◌+◌, ◌≤◌, ◌<◌, String, List, [], ◌∷◌, Result, ok, err, panic, ◌≡◌,
  refl, sym, ap, ◌∙◌, arith,
}
use k8ssandra_client.Common.Exec.{
  Exec, continue, ◌>>◌, then-ok, pure-eq-ok, err_not_ok, panic_not_ok,
}
use k8ssandra_client.Kube.{Library, get_client}
use k8ssandra_client.Envtest.Environment.{
  Environment, EnvLib, or_panic, checked, new_environment, start, stop, start_all, stop_all,
  run_started, run_multi, after_deferred,
}

module _ {W Rest C : Type 0} (lib : EnvLib W Rest C) (kube : Library W Rest C) (runs : W → Rest → ℕ)
    (is_of : Rest → Rest → ℕ) where
  -- A call that starts and stops nothing.
  abbrev pub Keeps : {A : Type 0} → Exec W A → Type 0
  Keeps m = (w : W) (c : Rest) → runs (m w).1 c ≡ runs w c

  -- Documented behaviour: `runs` counts the servers by their configuration, and `is_of` is 1 for the
  -- same one. A start that succeeds adds the server whose configuration it returns, the stop of an
  -- environment whose server runs succeeds and takes that one away, and the other calls change nothing.
  pub record IsCounted : Type 0 where
    pub one : (c : Rest) → is_of c c ≡ 1
    pub starts :
        (e : Environment Rest C) (w w' : W) (cfg : Rest)
        → lib.start e w ≡ (ok cfg, w')
        → (c : Rest) → runs w' c ≡ is_of c cfg + runs w c
    pub clients : (cfg : Rest) → Keeps (get_client kube cfg)
    pub schemes : (c : C) → Keeps (lib.add_cassdc c)
    pub global_cassdc : Keeps lib.add_global_cassdc
    pub global_control : Keeps lib.add_global_control
    pub global_tasks : Keeps lib.add_global_tasks
    pub global_extensions : Keeps lib.add_global_extensions
    pub stops :
        (e : Environment Rest C) (w : W) (cfg : Rest)
        → e.config ≡ some cfg
        → 0 < runs w cfg
        → ((lib.stop e w).0 ≡ ok tt)
          × ((c : Rest) → is_of c cfg + runs (lib.stop e w).1 c ≡ runs w c)
    pub cancels :
        (w : W) → ((lib.cancel w).0 ≡ ok tt) × ((c : Rest) → runs (lib.cancel w).1 c ≡ runs w c)

  -- The environments have these configurations.
  abbrev Configured : List (Environment Rest C) → List Rest → Type 0
  Configured [] [] = Unit
  Configured (e ∷ es) (g ∷ gs) = (e.config ≡ some g) × Configured es gs
  Configured _ _ = ⊥

  abbrev total : Rest → List Rest → ℕ
  total c [] = 0
  total c (g ∷ gs) = is_of c g + total c gs

  or_panic-eq-ok :
      {A : Type 0} (r : Result A × W) {a : A} {w : W} → or_panic r ≡ (ok a, w) → r ≡ (ok a, w)
  or_panic-eq-ok (ok b, v) h = h
  or_panic-eq-ok (err e, v) h = absurd (panic_not_ok (ap (λ r. r.0) h))
  or_panic-eq-ok (panic, v) h = absurd (panic_not_ok (ap (λ r. r.0) h))

  or_panic-ok :
      {A : Type 0} (r : Result A × W) {a : A}
      → r.0 ≡ ok a
      → ((or_panic r).0 ≡ ok a) × ((or_panic r).1 ≡ r.1)
  or_panic-ok (ok b, v) h = (h, refl)
  or_panic-ok (err e, v) h = absurd (err_not_ok h)
  or_panic-ok (panic, v) h = absurd (panic_not_ok h)

  kept :
      {A : Type 0} (m : Exec W A) (w w' : W) {a : A}
      → Keeps m
      → checked m w ≡ (ok a, w')
      → (c : Rest) → runs w' c ≡ runs w c
  unfolding checked
  kept m w w' keeps h c = sym (ap (λ r. runs r.1 c) (or_panic-eq-ok (m w) h)) ∙ keeps w c

  -- A started environment has its configuration, whose server was added.
  abbrev IsAdded : Environment Rest C → W → W → Type 0
  IsAdded e w last =
      (cfg : Rest) × (e.config ≡ some cfg) × ((c : Rest) → runs last c ≡ is_of c cfg + runs w c)

  start-IsAdded :
      (e e' : Environment Rest C) (w last : W)
      → IsCounted
      → start lib kube e w ≡ (ok e', last)
      → IsAdded e' w last
  unfolding start checked
  start-IsAdded e e' w last laws h = then-ok (checked (lib.start e)) _ w last h λ cfg w1 h1 k1.
      then-ok (checked (get_client kube cfg)) _ w1 last k1 λ client w2 h2 k2.
        then-ok (checked (lib.add_cassdc client)) _ w2 last k2 λ u3 w3 h3 k3.
          then-ok (checked lib.add_global_cassdc) _ w3 last k3 λ u4 w4 h4 k4.
            then-ok (checked lib.add_global_control) _ w4 last k4 λ u5 w5 h5 k5.
              then-ok (checked lib.add_global_tasks) _ w5 last k5 λ u6 w6 h6 k6.
                then-ok (checked lib.add_global_extensions) _ w6 last k6 λ u7 w7 h7 k7.
                  let (is, now) = pure-eq-ok k7 in
                  (
                    cfg,
                    sym (ap (λ (e : Environment Rest C). e.config) is),
                    λ c. omega (
                      arith,
                      ap (λ w. runs w c) now,
                      laws.starts e w w1 cfg (or_panic-eq-ok (lib.start e w) h1) c,
                      kept (get_client kube cfg) w1 w2 (laws.clients cfg) h2 c,
                      kept (lib.add_cassdc client) w2 w3 (laws.schemes client) h3 c,
                      kept lib.add_global_cassdc w3 w4 laws.global_cassdc h4 c,
                      kept lib.add_global_control w4 w5 laws.global_control h5 c,
                      kept lib.add_global_tasks w5 w6 laws.global_tasks h6 c,
                      kept lib.add_global_extensions w6 w7 laws.global_extensions h7 c,
                    ),
                  )

  start_all-adds :
      (n : ℕ) (root : String) (es : List (Environment Rest C)) (w last : W)
      → IsCounted
      → start_all lib kube n root w ≡ (ok es, last)
      → (gs : List Rest) × Configured es gs × ((c : Rest) → runs last c ≡ total c gs + runs w c)
  unfolding start_all
  start_all-adds zero root es w last laws h =
      let (is, now) = pure-eq-ok h in
      ([], subst (λ es. Configured es []) is tt, λ c. omega (arith, ap (λ w. runs w c) now))
  start_all-adds (suc n) root es w last laws h =
      then-ok (start lib kube (new_environment root)) _ w last h λ e w1 h1 k1.
        then-ok (start_all lib kube n root) _ w1 last k1 λ rest w2 h2 k2.
          let (gs, configured, added) = start_all-adds n root rest w1 w2 laws h2 in
          let (g, of_first, first) = start-IsAdded _ e w w1 laws h1 in
          let (is, now) = pure-eq-ok k2 in
          (
            g ∷ gs,
            subst (λ es. Configured es (g ∷ gs)) is (of_first, configured),
            λ c. omega (arith, ap (λ w. runs w c) now, added c, first c),
          )

  stop-removes :
      (e : Environment Rest C) (w : W) (g : Rest)
      → IsCounted
      → e.config ≡ some g
      → 0 < runs w g
      → ((stop lib kube e w).0 ≡ ok tt)
        × ((c : Rest) → is_of c g + runs (stop lib kube e w).1 c ≡ runs w c)
  unfolding stop checked
  stop-removes e w g laws of_e h =
      let (cancelled, same) = laws.cancels w in
      let v = (lib.cancel w).1 in
      let (stopped, fewer) = laws.stops e v g of_e (omega (arith, same g, h)) in
      let (fine, state) = or_panic-ok (lib.stop e v) stopped in
      let ran : stop lib kube e w ≡ or_panic (lib.stop e v) =
        ap (λ r. continue r (λ u. checked (lib.stop e)) v) cancelled in
      (
        ap (λ r. r.0) ran ∙ fine,
        λ c. omega (arith, ap (λ r. runs r.1 c) ran, ap (λ w. runs w c) state, fewer c, same c),
      )

  stop_all-removes :
      (es : List (Environment Rest C)) (gs : List Rest) (w : W)
      → IsCounted
      → Configured es gs
      → ((c : Rest) → total c gs ≤ runs w c)
      → ((stop_all lib kube es w).0 ≡ ok tt)
        × ((c : Rest) → total c gs + runs (stop_all lib kube es w).1 c ≡ runs w c)
  unfolding stop_all
  stop_all-removes [] [] w laws configured h = (refl, λ c. omega arith)
  stop_all-removes [] (g ∷ gs) w laws configured h = absurd configured
  stop_all-removes (e ∷ es) [] w laws configured h = absurd configured
  stop_all-removes (e ∷ es) (g ∷ gs) w laws (of_e, configured) h =
      let (fine, fewer) = stop-removes e w g laws of_e (omega (arith, h g, laws.one g)) in
      let v = (stop lib kube e w).1 in
      let (others, count) =
        stop_all-removes es gs v laws configured (λ c. omega (arith, h c, fewer c)) in
      let ran : stop_all lib kube (e ∷ es) w ≡ stop_all lib kube es v =
        ap (λ r. continue r (λ u. stop_all lib kube es) v) fine in
      (ap (λ r. r.0) ran ∙ others, λ c. omega (arith, ap (λ r. runs r.1 c) ran, count c, fewer c))

  after_deferred-ok :
      (r : Result ℕ) (q : Result (Unit {0}) × W)
      → q.0 ≡ ok tt
      → after_deferred lib kube r q ≡ (r, q.1)
  unfolding after_deferred
  after_deferred-ok r (ok u, v) h = refl
  after_deferred-ok r (err e, v) h = absurd (err_not_ok h)
  after_deferred-ok r (panic, v) h = absurd (panic_not_ok h)

  -- Over servers of which the stop of an environment ends that one alone, where RunMulti has
  -- started its environments and neither the set-up nor the tests start or stop one, the same
  -- servers run at its end as at its start, counted by their configurations, and its result is
  -- that of the set-up and the tests, whether these return, fail or panic.
  pub run_multi-balanced :
      (n : ℕ) (root : String) (setup : List (Environment Rest C) → Exec W (Unit {0}))
      (tests : Exec W ℕ) (es : List (Environment Rest C)) (w started : W)
      → IsCounted
      → start_all lib kube n root w ≡ (ok es, started)
      → Keeps (setup es >> tests)
      → ((c : Rest) → runs (run_multi lib kube n root setup tests w).1 c ≡ runs w c)
        × ((run_multi lib kube n root setup tests w).0 ≡ ((setup es >> tests) started).0)
  unfolding run_multi run_started
  run_multi-balanced n root setup tests es w started laws began keeps =
      let (gs, configured, added) = start_all-adds n root es w started laws began in
      let tried = (setup es >> tests) started in
      let (fine, count) =
        stop_all-removes es gs tried.1 laws configured
          (λ c. omega (arith, keeps started c, added c)) in
      let ran : run_multi lib kube n root setup tests w
          ≡ (tried.0, (stop_all lib kube es tried.1).1) =
        ap (λ r. continue r.0 (run_started lib kube setup tests) r.1) began
        ∙ after_deferred-ok tried.0 (stop_all lib kube es tried.1) fine in
      (
        λ c. omega (arith, ap (λ r. runs r.1 c) ran, count c, keeps started c, added c),
        ap (λ r. r.0) ran,
      )
