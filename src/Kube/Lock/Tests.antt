-- ===== src/Kube/Lock/Tests.antt =====
-- An elector that takes the lock at once, and one that is cancelled before.
use k8ssandra_client.Common.{
  Bool, true, false, String, Option, some, [], ◌∷◌, ok, ◌≡◌, ◌↔◌, refl, ap,
}
use k8ssandra_client.Kube.Lock.{
  Callback, started_leading, stopped_leading, Elector, ElectionConfig, Waiting, Step, elects,
  cancels, returns, Reach, here, after, begin_wait, election_config, run_callback, return_from_wait,
  done,
}
use k8ssandra_client.Kube.Lock.Waits.{
  starts, StartsOnce, wait_for_lock-calls, wait_for_lock-returned, wait_for_lock-returns,
}
use k8ssandra_client.Kube.Lock.Lease.{
  EndsForGood, ReleasesOnCancel, wait_for_lock-blocked, wait_for_lock-IsReleased,
}

data Phase : Type 0 where
  acquiring leading gone : Phase

data Moves (config : ElectionConfig String) (cancelled : Bool) (l : Phase) (call : Option Callback)
    (next : Phase) : Type 0 where
  win :
      l ≡ acquiring
      → call ≡ some started_leading
      → next ≡ leading
      → Moves config cancelled l call next
  quit :
      l ≡ acquiring
      → cancelled ≡ true
      → call ≡ some stopped_leading
      → next ≡ gone
      → Moves config cancelled l call next
  release :
      l ≡ leading
      → cancelled ≡ true
      → call ≡ some stopped_leading
      → next ≡ gone
      → Moves config cancelled l call next

abbrev lib : Elector String Phase
lib = record { begin = λ config. acquiring; Moves = Moves }

abbrev fresh : Phase → Bool
fresh acquiring = true
fresh leading = false
fresh gone = false

abbrev ended : Phase → Bool
ended acquiring = false
ended leading = false
ended gone = true

abbrev holds : Phase → Bool
holds acquiring = false
holds leading = true
holds gone = false

fresh_once :
    (cancelled : Bool) (l next : Phase)
    → Moves (election_config "lock") cancelled l (some started_leading) next
    → (fresh l ≡ true) × (fresh next ≡ false)
fresh_once c l next (win a b e) = (ap fresh a, ap fresh e)
fresh_once c l next (quit a b d e) = cc
fresh_once c l next (release a b d e) = cc

fresh_stays :
    (cancelled : Bool) (l next : Phase) (call : Option Callback)
    → Moves (election_config "lock") cancelled l call next
    → fresh l ≡ false
    → fresh next ≡ false
fresh_stays c l next call (win a b e) f = ap fresh e
fresh_stays c l next call (quit a b d e) f = ap fresh e
fresh_stays c l next call (release a b d e) f = ap fresh e

starts_once : StartsOnce lib "lock" fresh
starts_once = record { once = fresh_once; stays = fresh_stays }

ends_for_good : EndsForGood lib "lock" ended
ends_for_good c l next call o (win a b e) = let x = ap ended a in cc
ends_for_good c l next call o (quit a b d e) = let x = ap ended a in cc
ends_for_good c l next call o (release a b d e) = let x = ap ended a in cc

releases : ReleasesOnCancel lib ended holds
releases config l next call r (win a b e) o = let x = ap ended e in cc
releases config l next call r (quit a b d e) o = ap holds e
releases config l next call r (release a b d e) o = ap holds e

abbrev start : Waiting Phase
start = record { counter = 1; cancelled = false; returned = false; elector = acquiring; calls = [] }

abbrev won : Waiting Phase
won = record start { counter = 0; elector = leading; calls = started_leading ∷ [] }

abbrev back : Waiting Phase
back = record won { returned = true; cancelled = true }

abbrev let_go : Waiting Phase
let_go = record back { elector = gone; calls = stopped_leading ∷ started_leading ∷ [] }

abbrev given_up : Waiting Phase
given_up = record start { cancelled = true; elector = gone; calls = stopped_leading ∷ [] }

Reach-won : Reach lib "lock" (begin_wait lib "lock") won
unfolding begin_wait run_callback done
Reach-won = after here (elects (some started_leading) leading (win refl refl refl) refl)

Reach-back : Reach lib "lock" (begin_wait lib "lock") back
unfolding return_from_wait
Reach-back = after Reach-won (returns refl refl refl)

Reach-let_go : Reach lib "lock" back let_go
unfolding run_callback
Reach-let_go = after here (elects (some stopped_leading) gone (release refl refl refl refl) refl)

Reach-given_up : Reach lib "lock" (begin_wait lib "lock") given_up
unfolding begin_wait run_callback
Reach-given_up =
    after (after here (cancels refl))
      (elects (some stopped_leading) gone (quit refl refl refl refl) refl)

wait_for_lock-calls_test :
    (u : Waiting Phase) × (run_callback (some stopped_leading) (record back { elector = gone })
      ≡ ok u)
wait_for_lock-calls_test =
    wait_for_lock-calls lib "lock" fresh starts_once back Reach-back (some stopped_leading) gone
      (release refl refl refl refl)

wait_for_lock-returned_example : (starts back.calls ≡ 1) × (back.cancelled ≡ true)
wait_for_lock-returned_example =
    wait_for_lock-returned lib "lock" fresh starts_once back Reach-back refl

wait_for_lock-returns_example :
    ((u : Waiting Phase) × Step lib "lock" won u × (u.returned ≡ true)) ↔ (starts won.calls ≡ 1)
wait_for_lock-returns_example =
    wait_for_lock-returns lib "lock" fresh starts_once won Reach-won refl

wait_for_lock-blocked_example : given_up.returned ≡ false
wait_for_lock-blocked_example =
    wait_for_lock-blocked lib "lock" ended fresh starts_once ends_for_good given_up Reach-given_up
      refl refl given_up here

wait_for_lock-IsReleased_example : holds let_go.elector ≡ false
wait_for_lock-IsReleased_example =
    wait_for_lock-IsReleased lib ended holds "lock" fresh starts_once releases back Reach-back refl
      refl let_go Reach-let_go refl
