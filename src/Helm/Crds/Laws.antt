-- ===== src/Helm/Crds/Laws.antt =====
-- The stored versions of a custom resource definition that is upgraded.
use k8ssandra_client.Common.{
  String, true, false, not, ◌&&◌, List, [], ◌∷◌, All, All-map, Result, ok, err, panic, Error, ◌≡◌,
  refl, sym, ap, ◌∙◌, ◌⊎◌, inl, inr, arith, eq_iff, Bool-cases, if◌then◌else◌,
}
use k8ssandra_client.Common.Exec.{continue}
use k8ssandra_client.Helm.Charts.{Object, is_listed}
use k8ssandra_client.Helm.Crds.{
  Definition, CrdClient, equal_lists, is_removed, wrap_error, with_resource_version,
  with_stored_versions, write_status, sync_status,
}

-- All of these versions are among the others.
abbrev pub Served : List String → List String → Type 0
Served stored updated = All (λ v. is_listed updated v ≡ true) stored

is_removed-Served :
    (stored updated : List String) → is_removed stored updated ≡ false → Served stored updated
unfolding is_removed
is_removed-Served [] updated h = tt
is_removed-Served (v ∷ vs) updated h = (ground arith, is_removed-Served vs updated (ground arith))

is_listed_cons :
    (v w : String) (vs : List String) → is_listed vs v ≡ true → is_listed (w ∷ vs) v ≡ true
unfolding is_listed
is_listed_cons v w vs h = ground arith

equal_lists-Served :
    (stored updated : List String) → equal_lists stored updated ≡ true → Served stored updated
unfolding equal_lists is_listed
equal_lists-Served [] updated h = tt
equal_lists-Served (v ∷ vs) [] h = ground arith
equal_lists-Served (v ∷ vs) (w ∷ ws) h = (
  ground (arith, eq_iff v w, eq_iff w v),
  All-map (λ u. is_listed ws u ≡ true) (λ u. is_listed_cons u w ws) vs
      (equal_lists-Served vs ws (ground arith)),
)

still-Served :
    (stored updated : List String)
    → (not (equal_lists stored updated) && is_removed stored updated) ≡ false
    → Served stored updated
still-Served stored updated h = elim (Bool-cases (is_removed stored updated)) [
  | inl removed ↦ equal_lists-Served stored updated (ground arith)
  | inr kept ↦ is_removed-Served stored updated kept
]

ok_injective {ℓ} : {A : Type ℓ} {a b : A} → ok a ≡ ok b → a ≡ b
ok_injective h = cc

err_not_ok {ℓ} : {A : Type ℓ} {e : Error} {a : A} → err e ≡ ok a → ⊥
err_not_ok h = cc

panic_not_ok {ℓ} : {A : Type ℓ} {a : A} → panic ≡ ok a → ⊥
panic_not_ok h = cc

module _ {W C D : Type 0} (client : CrdClient W C D) where
  -- What is known of an object and a state before the definition is updated.
  pub IsSynced : Definition D → List String → Object C → W → Object C → W → Type 0
  IsSynced existing updated obj w synced after =
      (Served existing.stored_versions updated × (synced ≡ obj) × (after ≡ w))
      ⊎ ((written : Definition D) × (client.update_status
              (with_stored_versions client updated existing) w
            ≡ (ok written, after))
          × (synced ≡ with_resource_version client written.resource_version obj))

  write_status-eq-ok :
      (existing : Definition D) (updated : List String) (obj synced : Object C) (w after : W)
      (r : Result (Definition D) × W)
      → client.update_status (with_stored_versions client updated existing) w ≡ r
      → continue
          (wrap_error "failed to update CRD storedVersions " obj.name r.0)
          (λ d w'. (ok (with_resource_version client d.resource_version obj), w'))
          r.1
        ≡ (ok synced, after)
      → IsSynced existing updated obj w synced after
  unfolding wrap_error IsSynced
  write_status-eq-ok existing updated obj synced w after (ok d, w') p h =
      inr (d, p ∙ ap (λ x. (ok d, x)) (ap (λ r. r.1) h), sym (ok_injective (ap (λ r. r.0) h)))
  write_status-eq-ok existing updated obj synced w after (err e, w') p h =
      absurd (err_not_ok (ap (λ r. r.0) h))
  write_status-eq-ok existing updated obj synced w after (panic, w') p h =
      absurd (panic_not_ok (ap (λ r. r.0) h))

  -- Where the step before the update of a definition succeeds, either each stored version is among
  -- the versions of the chart and nothing was written, or the versions of the chart were written
  -- to its status and the update carries the resource version of that write.
  pub sync_status-IsSynced :
      (existing : Definition D) (updated : List String) (obj synced : Object C) (w after : W)
      → sync_status client existing updated obj w ≡ (ok synced, after)
      → IsSynced existing updated obj w synced after
  unfolding sync_status write_status IsSynced
  sync_status-IsSynced existing updated obj synced w after h =
      let test =
        not (equal_lists existing.stored_versions updated)
        && is_removed existing.stored_versions updated in
      elim (Bool-cases test) [
        | inl removed ↦
            write_status-eq-ok existing updated obj synced w after
              (client.update_status (with_stored_versions client updated existing) w) refl
              (sym (
                  ap
                    (λ b.
                      (if b then write_status client existing updated obj else (λ w. (ok obj, w)))
                        w)
                    removed)
                ∙ h)
        | inr kept ↦
            let same =
              sym (
                ap
                  (λ b.
                    (if b then write_status client existing updated obj else (λ w. (ok obj, w))) w)
                  kept)
              ∙ h in
            inl (
              still-Served existing.stored_versions updated kept,
              sym (ok_injective (ap (λ r. r.0) same)),
              sym (ap (λ r. r.1) same),
            )
      ]
