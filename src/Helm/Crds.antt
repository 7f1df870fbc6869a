-- ===== src/Helm/Crds.antt =====
-- Upgrade of pkg/helmutil/crds.go.
pub mod Laws
mod Tests
use k8ssandra_client.Common.{
  String, Bool, true, false, not, ◌||◌, ◌&&◌, Option, none, some, List, [], ◌∷◌, any, Result, ok,
  err, panic, Error, wrapped, concat, is_not_found, ◌==◌, if◌then◌else◌,
}
use k8ssandra_client.Common.Exec.{Exec, pure, raise, lift, ◌>>=◌}
use k8ssandra_client.Helm.Charts.{Object, is_listed}

-- apiextensionsv1.CustomResourceDefinition, the fields that are read and written, and the rest.
pub record Definition (D : Type 0) : Type 0 where
  pub resource_version : String
  pub versions : List String
  pub stored_versions : List String
  pub rest : D

-- The calls of the API server, which give an object back as the server holds it, and
-- DefaultUnstructuredConverter.FromUnstructured.
pub record CrdClient (W C D : Type 0) : Type 0 where
  pub get : String → Exec W (Object C)
  pub create : Object C → Exec W (Object C)
  pub update : Object C → Exec W (Object C)
  pub update_status : Definition D → Exec W (Definition D)
  pub from_unstructured : Object C → Result (Definition D)

-- slices.Equal
unfoldable pub equal_lists : List String → List String → Bool
equal_lists [] [] = true
equal_lists (x ∷ xs) (y ∷ ys) = x == y && equal_lists xs ys
equal_lists _ _ = false

-- Some stored version is none of the updated ones.
unfoldable pub is_removed : List String → List String → Bool
is_removed [] updated = false
is_removed (v ∷ vs) updated = not (is_listed updated v) || is_removed vs updated

-- errors.Wrapf(err, text, name)
unfoldable pub wrap_error : {A : Type 0} → String → String → Result A → Result A
wrap_error text name (ok a) = ok a
wrap_error text name (err e) = err (wrapped (concat (text ∷ name ∷ [])) e)
wrap_error text name panic = panic

abbrev pub wrap : {W A : Type 0} → String → String → Exec W A → Exec W A
wrap text name call w = let (r, w') = call w in (wrap_error text name r, w')

module _ {W C D : Type 0} (client : CrdClient W C D) where
  abbrev pub with_resource_version : String → Object C → Object C
  with_resource_version v obj = record {
    name = obj.name;
    resource_version = v;
    content = obj.content;
  }

  abbrev pub with_stored_versions : List String → Definition D → Definition D
  with_stored_versions vs d = record {
    resource_version = d.resource_version;
    versions = d.versions;
    stored_versions = vs;
    rest = d.rest;
  }

  -- Removed versions leave the status, and the object then carries the version of that write.
  unfoldable pub write_status : Definition D → List String → Object C → Exec W (Object C)
  write_status existing updated obj = do
    written ←
        wrap "failed to update CRD storedVersions " obj.name
          (client.update_status (with_stored_versions updated existing))
    pure (with_resource_version written.resource_version obj)

  unfoldable pub sync_status : Definition D → List String → Object C → Exec W (Object C)
  sync_status existing updated obj =
      if not (equal_lists existing.stored_versions updated)
        && is_removed existing.stored_versions updated
      then write_status existing updated obj
      else pure obj

  unfoldable pub convert : String → Object C → Result (Definition D)
  convert name obj =
      wrap_error "failed to convert unstructured to CustomResourceDefinition " name
        (client.from_unstructured obj)

  -- The list of the caller keeps the objects as they were sent.
  unfoldable pub update_crd : Object C → Object C → Exec W (Object C)
  update_crd existing chart_obj = do
    let obj = with_resource_version existing.resource_version chart_obj
    definition ← lift (convert obj.name obj)
    existing_definition ← lift (convert obj.name existing)
    synced ← sync_status existing_definition definition.versions obj
    _ ← wrap "failed to update CRD " obj.name (client.update synced)
    pure synced

  unfoldable pub create_crd : Object C → Exec W (Object C)
  create_crd obj = do _ ← wrap "failed to create CRD " obj.name (client.create obj); pure obj

  unfoldable pub after_get : Object C → Result (Object C) × W → Result (Object C) × W
  after_get obj (ok existing, w) = update_crd existing obj w
  after_get obj (err e, w) =
      if is_not_found e
      then create_crd obj w
      else (err (wrapped (concat ("failed to fetch state of " ∷ obj.name ∷ [])) e), w)
  after_get obj (panic, w) = (panic, w)

  unfoldable pub upgrade_crd : Object C → Exec W (Object C)
  upgrade_crd obj w = after_get obj (client.get obj.name w)

  unfoldable pub upgrade_crds : List (Object C) → Exec W (List (Object C))
  upgrade_crds [] = pure []
  upgrade_crds (obj ∷ objs) = do
    upgraded ← upgrade_crd obj
    others ← upgrade_crds objs
    pure (upgraded ∷ others)
