-- ===== src/Users/Created.antt =====
-- Which roles were created, by the order of the users.
use k8ssandra_client.Common.{
  String, Bool, Option, none, some, List, [], ◌∷◌, ◌++◌, map, All, Dict, lookup, HasUniqueKeys,
  Error, Result, ok, err, ◌≡◌, inl, inr, refl, sym, ap, subst, ◌∙◌,
}
use k8ssandra_client.Common.Exec.{◌>>=◌, then-eq-ok, then-eq-err, err_not_ok}
use k8ssandra_client.Common.Disk.{Disk, file}
use k8ssandra_client.Datacenter.Fetch.{Pod}
use k8ssandra_client.Users.Secrets.{Visit}
use k8ssandra_client.Users.Roles.{
  Session, target_pod, create_roles, users_or_error, add_new_users_from_secret,
}
use k8ssandra_client.Users.Lines.{IsUser, user_line, print_lines}
use k8ssandra_client.Users.RoundTrip.{read_target_path-print}

module _ {W : Type 0} (c : Session W) (pod : Pod) (superusers : Bool) where
  -- The roles of the users were created one after the other, from a state to a state.
  pub data Created : Dict String → W → W → Type 0 where
    all_created : (w : W) → Created [] w w
    role_created :
        (user pass : String) (users : Dict String) (w next last : W)
        → c.create_role pod user pass superusers w ≡ (ok tt, next)
        → Created users next last
        → Created ((user, pass) ∷ users) w last

  create_roles-Created :
      (users : Dict String) (w last : W)
      → create_roles c pod superusers users w ≡ (ok tt, last)
      → Created users w last
  unfolding create_roles
  create_roles-Created [] w last h = subst (λ u. Created [] w u) (ap (λ r. r.1) h) (all_created w)
  create_roles-Created ((user, pass) ∷ users) w last h =
      let (u, next, created, rest) =
        then-eq-ok (c.create_role pod user pass superusers)
          (λ u. create_roles c pod superusers users) w last h in
      role_created user pass users w next last created (create_roles-Created users next last rest)

  -- Where the creation of the roles fails, it has created those of the users before one whose call
  -- failed with that error, and none after it.
  pub create_roles-stops :
      (users : Dict String) (w last : W) (e : Error)
      → create_roles c pod superusers users w ≡ (err e, last)
      → (before : Dict String) × (user : String) × (pass : String) × (after : Dict String)
        × (between : W) × (users ≡ before ++ (user, pass) ∷ after)
        × Created before w between
        × (c.create_role pod user pass superusers between ≡ (err e, last))
  unfolding create_roles
  create_roles-stops [] w last e h = absurd (err_not_ok (sym (ap (λ r. r.0) h)))
  create_roles-stops ((user, pass) ∷ users) w last e h =
      elim (then-eq-err (c.create_role pod user pass superusers)
        (λ u. create_roles c pod superusers users) w last h) [
          | inl failed ↦ ([], user, pass, users, w, refl, all_created w, failed)
          | inr (u, next, created, rest) ↦
              let (before, user', pass', after, between, parts, done, failed) =
                create_roles-stops users next last e rest in
              (
                (user, pass) ∷ before,
                user',
                pass',
                after,
                between,
                ap (λ t. (user, pass) ∷ t) parts,
                role_created user pass before w next between created done,
                failed,
              )
        ]

module _ {W : Type 0} (c : Session W) where
  -- For such a file, where AddNewUsersFromSecret ends without an error, the role of each of the
  -- users was created in the pod that was found, one after the other.
  pub add_new_users_from_secret-Created :
      (walk_dir : String → List Visit) (disk : Disk) (datacenter path : String) (superusers : Bool)
      (users : Dict String) (w last : W)
      → All IsUser users
      → HasUniqueKeys users
      → disk.stat_fault path ≡ none
      → disk.read_fault path ≡ none
      → lookup path disk.entries ≡ some (file (print_lines (map user_line users)))
      → add_new_users_from_secret c walk_dir disk datacenter path superusers w ≡ (ok tt, last)
      → (pod : Pod) × (connected : W) × (start : W) × (target_pod c datacenter connected
          ≡ (ok pod, start))
        × Created c pod superusers users start last
  unfolding add_new_users_from_secret
  add_new_users_from_secret-Created walk_dir disk datacenter path superusers users w last h u s r e
        run =
      let (done, connected, connection, more) =
        then-eq-ok (c.new_management_client c.namespace datacenter) _ w last run in
      let (pod, start, found, rest) = then-eq-ok (target_pod c datacenter) _ connected last more in
      (
        pod,
        connected,
        start,
        found,
        create_roles-Created c pod superusers users start last (
            ap
              (λ (read : Result (Dict String × Option Error)).
                (users_or_error c read >>= λ us. create_roles c pod superusers us) start)
              (sym (read_target_path-print walk_dir path disk users h u s r e))
            ∙ rest),
      )
