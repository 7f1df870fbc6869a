-- ===== src/Kube/Lock/Waits.antt =====
-- What WaitForLock waits for, in every order of the elector's moves and the caller's.
use k8ssandra_client.Common.{
  ℕ, suc, ◌+◌, ◌-◌, Bool, true, false, List, [], ◌∷◌, Option, none, some, ok, ◌≡◌, ◌↔◌, refl, sym,
  ap, ◌∙◌, subst, arith,
}
use k8ssandra_client.Kube.Lock.{
  begin_wait, Callback, started_leading, stopped_leading, Elector, Waiting, election_config, done,
  run_callback, return_from_wait, Step, elects, cancels, returns, Reach, here, after,
}

-- How often OnStartedLeading was called.
abbrev pub starts : List Callback → ℕ
starts [] = 0
starts (started_leading ∷ calls) = suc (starts calls)
starts (stopped_leading ∷ calls) = starts calls

module _ {L : Type 0} where
  -- What the callbacks leave alone.
  pub record Keeps (s t : Waiting L) : Type 0 where
    pub returned : t.returned ≡ s.returned
    pub cancelled : t.cancelled ≡ s.cancelled
    pub elector : t.elector ≡ s.elector

  pub run_callback-Keeps :
      (call : Option Callback) (s t : Waiting L) → run_callback call s ≡ ok t → Keeps s t
  unfolding run_callback done
  run_callback-Keeps none s t e = ground arith
  run_callback-Keeps (some started_leading) s t e = ground arith
  run_callback-Keeps (some stopped_leading) s t e = ground arith

module _ {Lock L : Type 0} (lib : Elector Lock L) (lock : Lock) (fresh : L → Bool) where
  -- Documented behaviour: a run calls OnStartedLeading at most once, while it is `fresh`.
  pub record StartsOnce : Type 0 where
    pub once :
        (cancelled : Bool) (l next : L)
        → lib.Moves (election_config lock) cancelled l (some started_leading) next
        → (fresh l ≡ true) × (fresh next ≡ false)
    pub stays :
        (cancelled : Bool) (l next : L) (call : Option Callback)
        → lib.Moves (election_config lock) cancelled l call next
        → fresh l ≡ false
        → fresh next ≡ false

  pub record IsSound (s : Waiting L) : Type 0 where
    pub counted : starts s.calls + s.counter ≡ 1
    pub still_fresh : s.counter ≡ 0 → fresh s.elector ≡ false
    pub waited : s.returned ≡ true → s.counter ≡ 0
    pub stopped : s.returned ≡ true → s.cancelled ≡ true

  begin_wait-IsSound : IsSound (begin_wait lib lock)
  unfolding begin_wait
  begin_wait-IsSound = record {
    counted = omega arith;
    still_fresh = λ z. absurd (omega arith);
    waited = λ w. cc;
    stopped = λ w. cc;
  }

  done-eq-ok :
      (s t : Waiting L)
      → done s ≡ ok t
      → (s.counter ≡ suc t.counter)
        × (t.cancelled ≡ s.cancelled)
        × (t.returned ≡ s.returned)
        × (t.elector ≡ s.elector)
        × (t.calls ≡ s.calls)
  unfolding done
  done-eq-ok s t e = ground arith

  elects-IsSound :
      StartsOnce
      → (call : Option Callback) (s t : Waiting L) (next : L)
      → lib.Moves (election_config lock) s.cancelled s.elector call next
      → run_callback call (record s { elector = next }) ≡ ok t
      → IsSound s
      → IsSound t
  unfolding run_callback
  elects-IsSound laws none s t next m e h =
      let same : t ≡ record s { elector = next } = cc in
      subst IsSound (sym same) (record {
        counted = h.counted;
        still_fresh = λ z. laws.stays s.cancelled s.elector next none m (h.still_fresh z);
        waited = h.waited;
        stopped = h.stopped;
      })
  elects-IsSound laws (some started_leading) s t next m e h =
      let (was_fresh, over) = laws.once s.cancelled s.elector next m in
      let (c, x, r, l, calls) =
        done-eq-ok (record s { elector = next; calls = started_leading ∷ s.calls }) t e in
      record {
        counted = omega (arith, ap starts calls);
        still_fresh = λ z. ap fresh l ∙ over;
        waited = λ w. ground (arith, h.waited);
        stopped = λ w. x ∙ h.stopped (sym r ∙ w);
      }
  elects-IsSound laws (some stopped_leading) s t next m e h =
      let same : t ≡ record s { elector = next; calls = stopped_leading ∷ s.calls } = cc in
      subst IsSound (sym same) (record {
        counted = h.counted;
        still_fresh =
            λ z. laws.stays s.cancelled s.elector next (some stopped_leading) m (h.still_fresh z);
        waited = h.waited;
        stopped = h.stopped;
      })

  Step-IsSound : {s t : Waiting L} → StartsOnce → Step lib lock s t → IsSound s → IsSound t
  unfolding return_from_wait
  Step-IsSound {s} {t} laws (elects call next m e) h = elects-IsSound laws call s t next m e h
  Step-IsSound laws (cancels e) h = subst IsSound (sym e) (record {
    counted = h.counted;
    still_fresh = h.still_fresh;
    waited = h.waited;
    stopped = λ w. refl;
  })
  Step-IsSound laws (returns r c e) h = subst IsSound (sym e) (record {
    counted = h.counted;
    still_fresh = h.still_fresh;
    waited = λ w. c;
    stopped = λ w. refl;
  })

  pub Reach-IsSound :
      {t : Waiting L} → StartsOnce → Reach lib lock (begin_wait lib lock) t → IsSound t
  Reach-IsSound laws here = begin_wait-IsSound
  Reach-IsSound laws (after r st) = Step-IsSound laws st (Reach-IsSound laws r)

  run_callback-ok :
      StartsOnce
      → (s : Waiting L) (call : Option Callback) (next : L) → IsSound s
      → lib.Moves (election_config lock) s.cancelled s.elector call next
      → (t : Waiting L) × (run_callback call (record s { elector = next }) ≡ ok t)
  unfolding run_callback done
  run_callback-ok laws s none next h m = (record s { elector = next }, refl)
  run_callback-ok laws s (some started_leading) next h m = (
    record s { elector = next; calls = started_leading ∷ s.calls; counter = s.counter - 1 },
    ground (arith, laws.once s.cancelled s.elector next m, h.still_fresh),
  )
  run_callback-ok laws s (some stopped_leading) next h m =
      (record s { elector = next; calls = stopped_leading ∷ s.calls }, refl)

  -- Over an elector that calls OnStartedLeading at most once, no callback panics, whatever happened
  -- while WaitForLock waits.
  pub wait_for_lock-calls :
      StartsOnce
      → (t : Waiting L) → Reach lib lock (begin_wait lib lock) t
      → (call : Option Callback) (next : L)
      → lib.Moves (election_config lock) t.cancelled t.elector call next
      → (u : Waiting L) × (run_callback call (record t { elector = next }) ≡ ok u)
  wait_for_lock-calls laws t r call next m =
      run_callback-ok laws t call next (Reach-IsSound laws r) m

  -- Over an elector that calls OnStartedLeading at most once, where WaitForLock has returned, that
  -- callback was called exactly once and the elector's context is cancelled.
  pub wait_for_lock-returned :
      StartsOnce
      → (t : Waiting L) → Reach lib lock (begin_wait lib lock) t
      → t.returned ≡ true
      → (starts t.calls ≡ 1) × (t.cancelled ≡ true)
  wait_for_lock-returned laws t r e =
      let h = Reach-IsSound laws r in (omega (arith, h.waited e, h.counted), h.stopped e)

  Step-returns :
      (s t : Waiting L) → Step lib lock s t → s.returned ≡ false → t.returned ≡ true → s.counter ≡ 0
  Step-returns s t (elects call next m e) n y =
      let kept = run_callback-Keeps call (record s { elector = next }) t e in
      ground (arith, kept.returned)
  Step-returns s t (cancels e) n y = let kept = ap (λ (u : Waiting L). u.returned) e in cc
  Step-returns s t (returns n' c e) n y = c

  -- Over an elector that calls OnStartedLeading at most once, as long as WaitForLock has not
  -- returned it can return by its next step if and only if that callback was called.
  pub wait_for_lock-returns :
      StartsOnce
      → (t : Waiting L) → Reach lib lock (begin_wait lib lock) t
      → t.returned ≡ false
      → ((u : Waiting L) × Step lib lock t u × (u.returned ≡ true)) ↔ (starts t.calls ≡ 1)
  unfolding return_from_wait
  wait_for_lock-returns laws t r n =
      let h = Reach-IsSound laws r in
      (
        λ (u, st, y). omega (arith, Step-returns t u st n y, h.counted),
        λ c. (return_from_wait t, returns n (omega (arith, h.counted)) refl, refl),
      )
