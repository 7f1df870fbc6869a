-- ===== src/Helm/Crds/Tests.antt =====
-- The theorem on stored versions for a definition that loses the version v1alpha1.
use k8ssandra_client.Common.{ℕ, suc, String, ◌≡◌, refl, List, [], ◌∷◌, ok, err, not_found}
use k8ssandra_client.Helm.Charts.{Object, is_listed}
use k8ssandra_client.Helm.Crds.{
  Definition, CrdClient, sync_status, write_status, equal_lists, is_removed, wrap_error,
}
use k8ssandra_client.Helm.Crds.Laws.{IsSynced, sync_status-IsSynced}

-- The content of an object is its versions; the state counts the writes.
abbrev server : CrdClient ℕ (List String) (Unit {0})
server = record {
  get = λ name w. (err (not_found name), w);
  create = λ o w. (ok o, suc w);
  update = λ o w. (ok o, suc w);
  update_status = λ d w. (
    ok (record {
      resource_version = "12";
      versions = d.versions;
      stored_versions = d.stored_versions;
      rest = d.rest;
    }),
    suc w,
  );
  from_unstructured = λ o. ok (record {
    resource_version = o.resource_version;
    versions = o.content;
    stored_versions = o.content;
    rest = tt;
  });
}

abbrev existing : Definition (Unit {0})
existing = record {
  resource_version = "11";
  versions = "v1alpha1" ∷ "v1" ∷ [];
  stored_versions = "v1alpha1" ∷ "v1" ∷ [];
  rest = tt;
}

abbrev crd : String → Object (List String)
crd version = record { name = "tasks"; resource_version = version; content = "v1" ∷ [] }

synced_lem : sync_status server existing ("v1" ∷ []) (crd "11") 0 ≡ (ok (crd "12"), 1)
unfolding sync_status write_status equal_lists is_removed is_listed wrap_error
synced_lem = refl

sync_status-IsSynced_example : IsSynced server existing ("v1" ∷ []) (crd "11") 0 (crd "12") 1
sync_status-IsSynced_example =
    sync_status-IsSynced server existing ("v1" ∷ []) (crd "11") (crd "12") 0 1 synced_lem
