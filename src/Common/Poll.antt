-- ===== src/Common/Poll.antt =====
-- waitutil.PollUntilContextTimeout of the Kubernetes library, with durations in nanoseconds: it
-- asks at once, and then after each interval, until the condition holds, fails, or the time is over.
use Prim.Native.Nat.{ℕ}
use mathlib.Core.Path.{◌≡◌}
use mathlib.Core.Bool.{Bool, true}
use k8ssandra_client.Common.Results.{ok}
use k8ssandra_client.Common.Exec.{Exec}

abbrev pub second : ℕ
second = 1000000000

abbrev pub minute : ℕ
minute = 60000000000

abbrev pub Poll : Type 0 → Type 0
Poll W = ℕ → ℕ → Exec W Bool → Exec W (Unit {0})

module _ {W : Type 0} where
  -- Documented behaviour: where it ends without an error, the condition held when it was asked last.
  abbrev pub IsPoll : Poll W → Type 0
  IsPoll poll =
      (interval timeout : ℕ) (condition : Exec W Bool) (w last : W)
      → poll interval timeout condition w ≡ (ok tt, last)
      → (before : W) × (condition before ≡ (ok true, last))
