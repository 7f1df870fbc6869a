-- ===== src/Envtest/Multi.antt =====
-- RunMultiKind of internal/envtest/multi_envtest.go: environments of several kind clusters, which start
-- and stop in goroutines. A schedule is the list of the goroutines that move, one after the other.
use Prim.Native.String as Text
use mathlib.Core.Option
use k8ssandra_client.Common.{
  ℕ, zero, suc, ℤ, String, Option, none, some, List, [], ◌∷◌, map, decimal, panic,
}
use k8ssandra_client.Common.Exec.{Exec, pure, ◌>>=◌, ◌>>◌}
use k8ssandra_client.Kube.{Library}
use k8ssandra_client.Envtest.Kind.{KindLib, KindManager, tear_down_kind_cluster}
use k8ssandra_client.Envtest.Environment.{
  Environment, EnvLib, checked, new_kind_environment, start, stop,
}

unfoldable pub cluster_at : {Rest C : Type 0} → String → ℕ → ℤ → KindManager Rest C
cluster_at test_dir i nodes = record {
  cluster_name = Text.◌++◌ "cluster" (decimal i);
  nodes = nodes;
  kubeconfig_location = Text.◌++◌ test_dir (Text.◌++◌ "/cluster" (decimal i));
  client = none;
  rest_config = none;
}

-- A goroutine that starts an environment: before NewKindEnvironment, before Start, and after both,
-- where its deferred wg.Done has run.
pub data Starting (Rest C : Type 0) : Type 0 where
  waiting : KindManager Rest C → Starting Rest C
  made : Environment Rest C → Starting Rest C
  started : Environment Rest C → Starting Rest C

-- A goroutine that stops one: before the cluster is torn down, before Stop, and after both.
pub data Stopping (Rest C : Type 0) : Type 0 where
  left : Environment Rest C → Stopping Rest C
  torn_down : Environment Rest C → Stopping Rest C
  stopped : Stopping Rest C

-- `go func(i int)` for each of the topology, from the i-th on.
unfoldable pub start_goroutines : {Rest C : Type 0} → String → ℕ → List ℤ → List (Starting Rest C)
start_goroutines test_dir i [] = []
start_goroutines test_dir i (nodes ∷ topology) =
    waiting (cluster_at test_dir i nodes) ∷ start_goroutines test_dir (suc i) topology

-- The i-th goroutine moves. One that is out of range does not.
unfoldable pub move_at : {W G : Type 0} → (G → Exec W G) → ℕ → List G → Exec W (List G)
move_at move i [] = pure []
move_at move zero (g ∷ gs) = do g' ← move g; pure (g' ∷ gs)
move_at move (suc i) (g ∷ gs) = do gs' ← move_at move i gs; pure (g ∷ gs')

-- A panic in a goroutine ends the program.
unfoldable pub interleave : {W G : Type 0} → (G → Exec W G) → List ℕ → List G → Exec W (List G)
interleave move [] gs = pure gs
interleave move (i ∷ schedule) gs = do gs' ← move_at move i gs; interleave move schedule gs'

-- wg.Wait: `none` while a goroutine has not called wg.Done.
unfoldable pub all_started :
    {Rest C : Type 0} → List (Starting Rest C) → Option (List (Environment Rest C))
all_started [] = some []
all_started (started e ∷ gs) = Option.map (λ es. e ∷ es) (all_started gs)
all_started (waiting k ∷ gs) = none
all_started (made e ∷ gs) = none

unfoldable pub all_stopped : {Rest C : Type 0} → List (Stopping Rest C) → Option (Unit {0})
all_stopped [] = some tt
all_stopped (stopped ∷ gs) = all_stopped gs
all_stopped (left e ∷ gs) = none
all_stopped (torn_down e ∷ gs) = none

-- What follows wg.Wait, which does not come where it never returns.
unfoldable pub after_wait : {W A B : Type 0} → Option A → (A → Exec W B) → Exec W (Option B)
after_wait none f = pure none
after_wait (some a) f = do b ← f a; pure (some b)

module _ {W Other Rest C : Type 0} (kind : KindLib W Other Rest C) (lib : EnvLib W Rest C)
    (kube : Library W Rest C) (root : String) where
  unfoldable pub move_start : Starting Rest C → Exec W (Starting Rest C)
  move_start (waiting k) = do e ← new_kind_environment kind root k; pure (made e)
  move_start (made e) = do e' ← start lib kube e; pure (started e')
  move_start (started e) = pure (started e)

  -- KindCluster.TearDownKindCluster: the zero value has no file, whose name is asked for.
  unfoldable pub tear_down_of : Option (KindManager Rest C) → Exec W (Unit {0})
  tear_down_of none w = (panic, w)
  tear_down_of (some k) w = checked (tear_down_kind_cluster kind k) w

  unfoldable pub move_stop : Stopping Rest C → Exec W (Stopping Rest C)
  move_stop (left e) = do tear_down_of e.kind_cluster; pure (torn_down e)
  move_stop (torn_down e) = do stop lib kube e; pure stopped
  move_stop stopped = pure stopped

  -- The environments, in the order of the topology, once the goroutines are done.
  unfoldable pub run_multi_kind :
      List ℕ
      → (List (Environment Rest C) → Exec W (Unit {0}))
      → List ℤ
      → String
      → Exec W (Option (List (Environment Rest C)))
  run_multi_kind schedule setup topology test_dir = do
    gs ← interleave move_start schedule (start_goroutines test_dir 0 topology)
    after_wait (all_started gs) (λ es. setup es >> pure es)

  -- The function that RunMultiKind returns.
  unfoldable pub defer_func : List ℕ → List (Environment Rest C) → Exec W (Option (Unit {0}))
  defer_func schedule es = do
    gs ← interleave move_stop schedule (map left es)
    pure (all_stopped gs)
