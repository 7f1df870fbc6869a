-- ===== src/Users/Roles.antt =====
-- pkg/users/users.go: roles are created through the management API of a pod of the datacenter.
use k8ssandra_client.Common.{
  String, Bool, Option, none, some, List, [], ◌∷◌, Dict, Error, Result, panic,
}
use k8ssandra_client.Common.Exec.{Exec, pure, raise, lift, ◌>>=◌, ◌>>◌}
use k8ssandra_client.Common.Disk.{Disk}
use k8ssandra_client.Datacenter.Fetch.{Pod, Client, cassandra_datacenter, cassandra_datacenter_pods}
use k8ssandra_client.Users.Secrets.{Visit, read_target_path}

-- The client of a namespace, and the management client: its construction for a datacenter of a
-- namespace, and CallCreateRoleEndpoint.
pub record Session (W : Type 0) : Type 0 where
  pub client : Client W
  pub namespace : String
  pub datacenter_label : String
  pub new_management_client : String → String → Exec W (Unit {0})
  pub create_role : Pod → String → String → Bool → Exec W (Unit {0})

module _ {W : Type 0} (c : Session W) where
  -- &podList.Items[0]
  abbrev pub first_pod : List Pod → Exec W Pod
  first_pod [] = lift panic
  first_pod (pod ∷ pods) = pure pod

  unfoldable pub target_pod : String → Exec W Pod
  target_pod datacenter = do
    dc ← cassandra_datacenter c.client datacenter c.namespace
    pods ← cassandra_datacenter_pods c.client c.datacenter_label dc
    first_pod pods

  -- The loop over the users, in the order in which it meets them.
  unfoldable pub create_roles : Pod → Bool → Dict String → Exec W (Unit {0})
  create_roles pod superusers [] = pure tt
  create_roles pod superusers ((user, pass) ∷ users) = do
    c.create_role pod user pass superusers
    create_roles pod superusers users

  abbrev pub users_or_error : Result (Dict String × Option Error) → Exec W (Dict String)
  users_or_error (Result.ok (users, none)) = pure users
  users_or_error (Result.ok (users, some e)) = raise e
  users_or_error (Result.err e) = raise e
  users_or_error Result.panic = lift panic

  unfoldable pub add_new_users_from_secret :
      (String → List Visit) → Disk → String → String → Bool → Exec W (Unit {0})
  add_new_users_from_secret walk_dir disk datacenter secret_path superusers = do
    c.new_management_client c.namespace datacenter
    pod ← target_pod datacenter
    users ← users_or_error (read_target_path walk_dir secret_path disk)
    create_roles pod superusers users

  unfoldable pub add_new_user : String → String → String → Bool → Exec W (Unit {0})
  add_new_user datacenter username password superuser = do
    c.new_management_client c.namespace datacenter
    pod ← target_pod datacenter
    c.create_role pod username password superuser
