-- ===== src/Register/Retry/Laws.antt =====
-- How the retries of a registration end.
use k8ssandra_client.Common.{
  ℕ, zero, suc, ◌<◌, false, Result, ok, err, panic, Error, non_recoverable, ◌≡◌, ◌⊎◌, inl, inr,
  refl, sym, ap, ◌∙◌, arith, eq_refl, if◌then◌else◌, Bool-cases,
}
use k8ssandra_client.Common.Exec.{Exec}
use k8ssandra_client.Register.Kubeconfig.{Host}
use k8ssandra_client.Register.Cluster.{
  RegistrationExecutor, Api, same_cluster_text, is_same_cluster, register_cluster,
}
use k8ssandra_client.Register.Retry.{is_empty_non_recoverable, after_attempt, retry, entrypoint}

err_not_ok : {A : Type 0} {e : Error} {a : A} → err e ≡ ok a → ⊥
err_not_ok h = cc

panic_not_ok :
    {W : Type 0} {w last : W} → ◌≡◌ {A = Result (Unit {0}) × W} (panic, w) (ok tt, last) → ⊥
panic_not_ok h = panic_not (ap (λ r. r.0) h)
  where
    panic_not : ◌≡◌ {A = Result (Unit {0})} panic (ok tt) → ⊥
    panic_not e = cc

error_not_ok :
    {W : Type 0} {e : Error} {w last : W}
    → ◌≡◌ {A = Result (Unit {0}) × W} (err e, w) (ok tt, last)
    → ⊥
error_not_ok h = err_not_ok (ap (λ r. r.0) h)

module _ {W : Type 0} (attempt : Exec W (Unit {0})) where
  -- `k` attempts that failed one after the other, from a state to a state.
  pub data Fails : ℕ → W → W → Type 0 where
    stay : (w : W) → Fails 0 w w
    fail :
        (k : ℕ) (w next last : W) (e : Error)
        → attempt w ≡ (err e, next)
        → is_empty_non_recoverable e ≡ false
        → Fails k next last
        → Fails (suc k) w last

  -- A loop that ended without an error, after `k` failed attempts: with a success, or because no
  -- attempt was left.
  pub EndsWell : ℕ → W → W → Type 0
  EndsWell n w last =
      (k : ℕ) × (before : W) × Fails k w before
      × (((k < n) × (attempt before ≡ (ok tt, last))) ⊎ ((k ≡ n) × (before ≡ last)))

  after_attempt-EndsWell :
      (n : ℕ) (w last : W) (r : Result (Unit {0}) × W)
      → attempt w ≡ r
      → after_attempt r (retry n attempt) ≡ (ok tt, last)
      → ((w' : W) → retry n attempt w' ≡ (ok tt, last) → EndsWell n w' last)
      → EndsWell (suc n) w last
  unfolding after_attempt EndsWell
  after_attempt-EndsWell n w last (ok a, next) p h ih = (0, w, stay w, inl (omega arith, p ∙ h))
  after_attempt-EndsWell n w last (panic, next) p h ih = absurd (panic_not_ok h)
  after_attempt-EndsWell n w last (err e, next) p h ih =
      elim (Bool-cases (is_empty_non_recoverable e)) [
        | inl stops ↦ absurd (
            error_not_ok
              (sym (ap (λ b. if b then (err e, next) else retry n attempt next) stops) ∙ h))
        | inr goes_on ↦
            let (k, before, fails, ends) =
              ih next
                (sym (ap (λ b. if b then (err e, next) else retry n attempt next) goes_on) ∙ h) in
            (
              suc k,
              before,
              fail k w next before e p goes_on fails,
              elim ends [
                | inl (below, done) ↦ inl (omega (arith, below), done)
                | inr (same, stayed) ↦ inr (omega (arith, same), stayed)
              ],
            )
      ]

  retry-EndsWell : (n : ℕ) (w last : W) → retry n attempt w ≡ (ok tt, last) → EndsWell n w last
  unfolding retry EndsWell
  retry-EndsWell zero w last h = (0, w, stay w, inr (refl, cc))
  retry-EndsWell (suc n) w last h =
      after_attempt-EndsWell n w last (attempt w) refl h (λ w'. retry-EndsWell n w' last)

  -- A registration that ends without an error has either succeeded at one of 30 attempts, after
  -- attempts that all failed, or failed 30 times.
  pub entrypoint-EndsWell : (w last : W) → entrypoint attempt w ≡ (ok tt, last) → EndsWell 30 w last
  unfolding entrypoint
  entrypoint-EndsWell w last h = retry-EndsWell 30 w last h

  always_fails :
      (n : ℕ) (w : W) (e : Error)
      → is_empty_non_recoverable e ≡ false
      → ((w : W) → attempt w ≡ (err e, w))
      → retry n attempt w ≡ (ok tt, w)
  unfolding retry after_attempt
  always_fails zero w e n h = refl
  always_fails (suc k) w e n h = rw (h w) rw n (always_fails k w e n h)

register_cluster-is_same_cluster :
    {W Rest Client : Type 0} (host : Host Rest Client) (api : Api W Client)
    (e : RegistrationExecutor) (w : W)
    → e.source_context ≡ e.dest_context
    → e.source_kubeconfig ≡ e.dest_kubeconfig
    → register_cluster host api e w ≡ (err (non_recoverable same_cluster_text), w)
unfolding register_cluster is_same_cluster
register_cluster-is_same_cluster host api e w c k =
    rw c rw k rw (eq_refl e.dest_context) rw (eq_refl e.dest_kubeconfig) refl

-- Registering a cluster with itself, the same context and kubeconfig for source and destination,
-- changes nothing, and the command ends without an error.
pub entrypoint-is_same_cluster :
    {W Rest Client : Type 0} (host : Host Rest Client) (api : Api W Client)
    (e : RegistrationExecutor) (w : W)
    → e.source_context ≡ e.dest_context
    → e.source_kubeconfig ≡ e.dest_kubeconfig
    → entrypoint (register_cluster host api e) w ≡ (ok tt, w)
unfolding entrypoint is_empty_non_recoverable
entrypoint-is_same_cluster host api e w c k =
    always_fails (register_cluster host api e) 30 w (non_recoverable same_cluster_text) refl
      (λ w'. register_cluster-is_same_cluster host api e w' c k)
