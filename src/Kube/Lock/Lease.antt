-- ===== src/Kube/Lock/Lease.antt =====
-- What becomes of the elector, and of the lock, after it has ended.
use k8ssandra_client.Common.{Bool, true, false, Option, ◌≡◌, refl, sym, ap, ◌∙◌, subst, arith}
use k8ssandra_client.Kube.Lock.{
  Callback, ElectionConfig, Elector, Waiting, election_config, begin_wait, return_from_wait, Step,
  elects, cancels, returns, Reach, here, after,
}
use k8ssandra_client.Kube.Lock.Waits.{starts, StartsOnce, Reach-IsSound, run_callback-Keeps}

module _ {Lock L : Type 0} (lib : Elector Lock L) (lock : Lock) (ended : L → Bool) where
  -- Documented behaviour: a run that has ended makes no move.
  abbrev pub EndsForGood : Type 0
  EndsForGood =
      (cancelled : Bool) (l next : L) (call : Option Callback)
      → ended l ≡ true
      → ¬ lib.Moves (election_config lock) cancelled l call next

  -- The elector has ended, and the counter is not 0.
  record IsStuck (s : Waiting L) : Type 0 where
    over : ended s.elector ≡ true
    counting : s.counter ≡ 1
    waits : s.returned ≡ false

  Step-IsStuck : {s t : Waiting L} → EndsForGood → Step lib lock s t → IsStuck s → IsStuck t
  Step-IsStuck {s} idle (elects call next m e) h =
      absurd (idle s.cancelled s.elector next call h.over m)
  Step-IsStuck idle (cancels e) h =
      subst IsStuck (sym e) (record { over = h.over; counting = h.counting; waits = h.waits })
  Step-IsStuck idle (returns n c e) h = absurd (omega (arith, c, h.counting))

  Reach-IsStuck : {s t : Waiting L} → EndsForGood → IsStuck s → Reach lib lock s t → IsStuck t
  Reach-IsStuck idle h here = h
  Reach-IsStuck idle h (after r st) = Step-IsStuck idle st (Reach-IsStuck idle h r)

  -- Over an elector that calls OnStartedLeading at most once and makes no move once it has ended,
  -- where the elector has ended before it called OnStartedLeading, WaitForLock never returns,
  -- whatever the caller does.
  pub wait_for_lock-blocked :
      (fresh : L → Bool)
      → StartsOnce lib lock fresh
      → EndsForGood
      → (t : Waiting L) → Reach lib lock (begin_wait lib lock) t
      → ended t.elector ≡ true
      → starts t.calls ≡ 0
      → (u : Waiting L) → Reach lib lock t u
      → u.returned ≡ false
  wait_for_lock-blocked fresh laws idle t r over none_yet u later =
      let h = Reach-IsSound lib lock fresh laws r in
      (Reach-IsStuck idle
        (record {
          over = over;
          counting = omega (arith, h.counted);
          waits = ground (arith, h.waited, h.counted);
        })
        later).waits

module _ {Lock L : Type 0} (lib : Elector Lock L) (ended holds : L → Bool) where
  -- Documented behaviour: a run of an elector that releases on cancel and whose context is cancelled
  -- has given the lock up when it ends.
  abbrev pub ReleasesOnCancel : Type 0
  ReleasesOnCancel =
      (config : ElectionConfig Lock) (l next : L) (call : Option Callback)
      → config.release_on_cancel ≡ true
      → lib.Moves config true l call next
      → ended next ≡ true
      → holds next ≡ false

  -- The context is cancelled, and an elector that has ended since does not hold the lock.
  record IsReleased (s : Waiting L) : Type 0 where
    cancelled : s.cancelled ≡ true
    free : ended s.elector ≡ true → holds s.elector ≡ false

  Step-IsReleased :
      (lock : Lock) {s t : Waiting L}
      → ReleasesOnCancel
      → Step lib lock s t
      → IsReleased s
      → IsReleased t
  unfolding return_from_wait election_config
  Step-IsReleased lock {s} {t} laws (elects call next m e) h =
      let kept = run_callback-Keeps call (record s { elector = next }) t e in
      let moved =
        subst (λ c. lib.Moves (election_config lock) c s.elector call next) h.cancelled m in
      record {
        cancelled = kept.cancelled ∙ h.cancelled;
        free = λ o.
            ap holds kept.elector
            ∙ laws (election_config lock) s.elector next call refl moved
                (sym (ap ended kept.elector) ∙ o);
      }
  Step-IsReleased lock laws (cancels e) h =
      subst IsReleased (sym e) (record { cancelled = refl; free = h.free })
  Step-IsReleased lock laws (returns n c e) h =
      subst IsReleased (sym e) (record { cancelled = refl; free = h.free })

  Reach-IsReleased :
      (lock : Lock) {s t : Waiting L}
      → ReleasesOnCancel
      → IsReleased s
      → Reach lib lock s t
      → IsReleased t
  Reach-IsReleased lock laws h here = h
  Reach-IsReleased lock laws h (after r st) =
      Step-IsReleased lock laws st (Reach-IsReleased lock laws h r)

  -- Over an elector that calls OnStartedLeading at most once and, where it releases on cancel and
  -- its context is cancelled, has given the lock up when it ends, the lock is not held once an
  -- elector has ended that was running when WaitForLock had returned.
  pub wait_for_lock-IsReleased :
      (lock : Lock) (fresh : L → Bool)
      → StartsOnce lib lock fresh
      → ReleasesOnCancel
      → (t : Waiting L) → Reach lib lock (begin_wait lib lock) t
      → t.returned ≡ true
      → ended t.elector ≡ false
      → (u : Waiting L) → Reach lib lock t u
      → ended u.elector ≡ true
      → holds u.elector ≡ false
  wait_for_lock-IsReleased lock fresh laws gives t r back running u later over =
      let h = Reach-IsSound lib lock fresh laws r in
      (Reach-IsReleased lock gives (record { cancelled = h.stopped back; free = λ o. cc })
          later).free
        over
