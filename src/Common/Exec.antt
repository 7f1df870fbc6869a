-- ===== src/Common/Exec.antt =====
-- Go functions that change a world `W` (files, the Kubernetes API) and may fail. What was written
-- before a failure stays written, so the world comes back beside an error too.
use mathlib.Core.Path.{◌≡◌, refl, sym, ap, ◌∙◌}
use mathlib.Core.Logic.{◌⊎◌, inl, inr}
use k8ssandra_client.Common.Errors.{Error}
use k8ssandra_client.Common.Results.{Result, ok, err, panic}

abbrev pub Exec {ℓ} : Type ℓ → Type ℓ → Type ℓ
Exec W A = W → Result A × W

module _ {ℓ} {W A : Type ℓ} where
  abbrev pub pure : A → Exec W A
  pure a w = (ok a, w)

  abbrev pub raise : Error → Exec W A
  raise e w = (err e, w)

  abbrev pub lift : Result A → Exec W A
  lift r w = (r, w)

module _ {ℓ} {W A B : Type ℓ} where
  abbrev pub continue : Result A → (A → Exec W B) → Exec W B
  continue (ok a) f w = f a w
  continue (err e) f w = (err e, w)
  continue panic f w = (panic, w)

  infixl 5 ◌>>=◌ ◌>>◌
  abbrev pub ◌>>=◌ : Exec W A → (A → Exec W B) → Exec W B
  ◌>>=◌ m f w = continue (m w).0 f (m w).1

  abbrev pub ◌>>◌ : Exec W A → Exec W B → Exec W B
  m >> k = m >>= λ _. k

module _ {ℓ} {B : Type ℓ} where
  pub err_not_ok : {e : Error} {b : B} → err e ≡ ok b → ⊥
  err_not_ok h = cc

  err_inj : {d e : Error} → ◌≡◌ {A = Result B} (err d) (err e) → d ≡ e
  err_inj h = cc

  panic_not_err : {e : Error} → ◌≡◌ {A = Result B} panic (err e) → ⊥
  panic_not_err h = cc

  pub panic_not_ok : {b : B} → panic ≡ ok b → ⊥
  panic_not_ok h = cc

module _ {ℓ} {W A B : Type ℓ} where
  -- A sequence that returns has returned from both parts.
  pub then-eq-ok :
      (m : Exec W A) (f : A → Exec W B) (w last : W) {b : B}
      → (m >>= f) w ≡ (ok b, last)
      → (a : A) × (between : W) × (m w ≡ (ok a, between)) × (f a between ≡ (ok b, last))
  then-eq-ok m f w last {b} h = split (m w) refl
    where
      split :
          (r : Result A × W)
          → m w ≡ r
          → (a : A) × (between : W) × (m w ≡ (ok a, between)) × (f a between ≡ (ok b, last))
      split (ok a, between) e =
          (a, between, e, sym (ap (λ (r : Result A × W). continue r.0 f r.1) e) ∙ h)
      split (err x, between) e =
          absurd
            (err_not_ok (ap (λ r. r.0) (sym (ap (λ (r : Result A × W). continue r.0 f r.1) e) ∙ h)))
      split (panic, between) e =
          absurd (
            panic_not_ok
              (ap (λ r. r.0) (sym (ap (λ (r : Result A × W). continue r.0 f r.1) e) ∙ h)))

  -- The same, for what follows from the two parts.
  pub then-ok {κ} :
      {R : Type κ} (m : Exec W A) (f : A → Exec W B) (w last : W) {b : B}
      → (m >>= f) w ≡ (ok b, last)
      → ((a : A) (between : W) → m w ≡ (ok a, between) → f a between ≡ (ok b, last) → R)
      → R
  then-ok m f w last h k =
      let (a, between, first, second) = then-eq-ok m f w last h in k a between first second

  -- A sequence that fails has failed in its first part or in its second.
  pub then-eq-err :
      (m : Exec W A) (f : A → Exec W B) (w last : W) {e : Error}
      → (m >>= f) w ≡ (err e, last)
      → (m w ≡ (err e, last))
        ⊎ ((a : A) × (between : W) × (m w ≡ (ok a, between)) × (f a between ≡ (err e, last)))
  then-eq-err m f w last {e} h = split (m w) refl
    where
      split :
          (r : Result A × W)
          → m w ≡ r
          → (m w ≡ (err e, last))
            ⊎ ((a : A) × (between : W) × (m w ≡ (ok a, between)) × (f a between ≡ (err e, last)))
      split (ok a, between) p =
          inr (a, between, p, sym (ap (λ (r : Result A × W). continue r.0 f r.1) p) ∙ h)
      split (err x, between) p =
          let same = sym (ap (λ (r : Result A × W). continue r.0 f r.1) p) ∙ h in
          inl (
            p
            ∙ ap (λ x. (err x, between)) (err_inj (ap (λ r. r.0) same))
            ∙ ap (λ u. (err e, u)) (ap (λ r. r.1) same))
      split (panic, between) p = absurd (
          panic_not_err (ap (λ r. r.0) (sym (ap (λ (r : Result A × W). continue r.0 f r.1) p) ∙ h)))

pub pure-eq-ok {ℓ} :
    {W A : Type ℓ} {a b : A} {w last : W}
    → ◌≡◌ {A = Result A × W} (ok a, w) (ok b, last)
    → (a ≡ b) × (w ≡ last)
pure-eq-ok {A = A} {a} {b} h = (ok_inj (ap (λ r. r.0) h), ap (λ r. r.1) h)
  where
    ok_inj : ◌≡◌ {A = Result A} (ok a) (ok b) → a ≡ b
    ok_inj p = cc
