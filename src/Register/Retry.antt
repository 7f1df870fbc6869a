-- ===== src/Register/Retry.antt =====
-- entrypoint of cmd/kubectl-k8ssandra/register/command.go: at most 30 attempts.
pub mod Laws
use k8ssandra_client.Common.{
  ℕ, zero, suc, Bool, false, Result, ok, err, panic, Error, non_recoverable, ◌==◌, if◌then◌else◌,
}
use k8ssandra_client.Common.Exec.{Exec}

-- errors.Is(err, NonRecoverableError{}): a comparison of values, and the target's message is empty.
unfoldable pub is_empty_non_recoverable : Error → Bool
is_empty_non_recoverable (non_recoverable text) = text == ""
is_empty_non_recoverable _ = false

module _ {W : Type 0} where
  -- What one attempt makes of the loop; `again` is the rest of it.
  unfoldable pub after_attempt : Result (Unit {0}) × W → Exec W (Unit {0}) → Result (Unit {0}) × W
  after_attempt (ok a, w) again = (ok tt, w)
  after_attempt (err e, w) again = if is_empty_non_recoverable e then (err e, w) else again w
  after_attempt (panic, w) again = (panic, w)

  -- The loop with a number of attempts left. It ends without an error when none is left.
  unfoldable pub retry : ℕ → Exec W (Unit {0}) → Exec W (Unit {0})
  retry zero attempt w = (ok tt, w)
  retry (suc n) attempt w = after_attempt (attempt w) (λ w'. retry n attempt w')

  unfoldable pub entrypoint : Exec W (Unit {0}) → Exec W (Unit {0})
  entrypoint attempt = retry 30 attempt
