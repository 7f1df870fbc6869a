-- ===== src/Kube/Lock.antt =====
-- pkg/kubernetes/leaderelection.go: a lock is taken by winning a leader election. WaitForLock and the
-- elector run side by side, and share a WaitGroup and a context.
pub mod Waits
pub mod Lease
mod Tests
use Prim.Native.String
use k8ssandra_client.Common.{
  ℕ, zero, suc, ◌*◌, String, Bool, true, false, List, [], ◌∷◌, Option, none, some, Result, ok,
  panic, ◌≡◌,
}
use k8ssandra_client.Common.Exec.{Exec, pure, ◌>>=◌, ◌>>◌}
use k8ssandra_client.Common.Poll.{second}
use k8ssandra_client.Kube.{NamespacedClient}

-- os.Hostname, uuid.NewUUID, rest.AddUserAgent, the two clients, and resourcelock.New of the kind, the
-- namespace, the name, the clients and the identity.
pub record Host (W Rest Core Coordination Lock : Type 0) : Type 0 where
  pub hostname : Exec W String
  pub new_uuid : Exec W String
  pub add_user_agent : Rest → String → Exec W (Unit {0})
  pub core_client : Rest → Exec W Core
  pub coordination_client : Rest → Exec W Coordination
  pub new_lock : String → String → String → Core → Coordination → String → Exec W Lock

module _ {W Rest Core Coordination Lock : Type 0} (host : Host W Rest Core Coordination Lock) where
  unfoldable pub new_resource_lock : String → String → Rest → Exec W Lock
  new_resource_lock namespace lock_name rest_config = do
    name ← host.hostname
    padder ← host.new_uuid
    let id = String.◌++◌ name (String.◌++◌ "_" padder)
    host.add_user_agent rest_config "leader-election"
    core ← host.core_client rest_config
    coordination ← host.coordination_client rest_config
    host.new_lock "leases" namespace lock_name core coordination id

-- The callbacks of the elector: OnStartedLeading and OnStoppedLeading.
pub data Callback : Type 0 where
  started_leading stopped_leading : Callback

-- leaderelection.LeaderElectionConfig, its callbacks apart; durations are in nanoseconds.
pub record ElectionConfig (Lock : Type 0) : Type 0 where
  pub lock : Lock
  pub release_on_cancel : Bool
  pub lease_duration : ℕ
  pub renew_deadline : ℕ
  pub retry_period : ℕ

-- leaderelection.RunOrDie: the state in which a run starts, and its moves under a configuration and a
-- context, which is cancelled or not. A move may call one of the callbacks.
pub record Elector (Lock L : Type 0) : Type 1 where
  pub begin : ElectionConfig Lock → L
  pub Moves : ElectionConfig Lock → Bool → L → Option Callback → L → Type 0

unfoldable pub election_config : {Lock : Type 0} → Lock → ElectionConfig Lock
election_config lock = record {
  lock = lock;
  release_on_cancel = true;
  lease_duration = 10 * second;
  renew_deadline = 5 * second;
  retry_period = 2 * second;
}

-- A call of WaitForLock from where the elector was started: the counter of the WaitGroup, whether the
-- context is cancelled, whether the call has returned, the elector, and the callbacks that it has
-- called, the last one first.
pub record Waiting (L : Type 0) : Type 0 where
  pub counter : ℕ
  pub cancelled : Bool
  pub returned : Bool
  pub elector : L
  pub calls : List Callback

module _ {L : Type 0} where
  -- wg.Done() panics where the counter is 0.
  unfoldable pub done : Waiting L → Result (Waiting L)
  done s = elim s.counter [ zero ↦ panic | suc n ↦ ok (record s { counter = n }) ]

  -- The callbacks that RunLeaderElection gives to the elector.
  unfoldable pub run_callback : Option Callback → Waiting L → Result (Waiting L)
  run_callback none s = ok s
  run_callback (some started_leading) s = done (record s { calls = started_leading ∷ s.calls })
  run_callback (some stopped_leading) s = ok (record s { calls = stopped_leading ∷ s.calls })

  -- What follows wg.Wait(): the function returns, and its deferred call cancels the context.
  unfoldable pub return_from_wait : Waiting L → Waiting L
  return_from_wait s = record s { returned = true; cancelled = true }

-- WaitForLock where it waits: wg.Add(1), and the elector was started.
unfoldable pub begin_wait : {Lock L : Type 0} → Elector Lock L → Lock → Waiting L
begin_wait lib lock = record {
  counter = 1;
  cancelled = false;
  returned = false;
  elector = lib.begin (election_config lock);
  calls = [];
}

-- WaitForLock until it waits.
module _ {W Rest Core Coordination Lock L C : Type 0} (host : Host W Rest Core Coordination Lock)
    (lib : Elector Lock L) where
  unfoldable pub wait_for_lock : String → String → NamespacedClient Rest C → Exec W (Waiting L)
  wait_for_lock namespace lock_name client = do
    lock ← new_resource_lock host namespace lock_name client.config
    pure (begin_wait lib lock)

-- A step: of the elector with its callback, of the caller that cancels its context, or of the call
-- that waits, which goes on once the counter is 0.
module _ {Lock L : Type 0} (lib : Elector Lock L) (lock : Lock) where
  pub data Step (s t : Waiting L) : Type 0 where
    elects :
        (call : Option Callback) (next : L)
        → lib.Moves (election_config lock) s.cancelled s.elector call next
        → run_callback call (record s { elector = next }) ≡ ok t
        → Step s t
    cancels : t ≡ record s { cancelled = true } → Step s t
    returns : s.returned ≡ false → s.counter ≡ 0 → t ≡ return_from_wait s → Step s t

  pub data Reach (s : Waiting L) : Waiting L → Type 0 where
    here : Reach s s
    after : {t u : Waiting L} → Reach s t → Step t u → Reach s u
