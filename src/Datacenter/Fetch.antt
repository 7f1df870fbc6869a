-- ===== src/Datacenter/Fetch.antt =====
-- pkg/cassdcutil/fetcher.go: a datacenter, the datacenter of a pod, and the pods of a datacenter.
use k8ssandra_client.Common.{String, Bool, List, [], ◌∷◌, Dict, Result, ok, err, message}
use k8ssandra_client.Common.Exec.{Exec, lift, ◌>>=◌}

pub data ConditionType : Type 0 where
  datacenter_stopped datacenter_ready : ConditionType

-- corev1.ConditionStatus
pub data ConditionStatus : Type 0 where
  condition_true condition_false condition_unknown : ConditionStatus

-- cassdcapi.CassandraDatacenter: the fields that the program reads or sets, the conditions as
-- Status.GetConditionStatus reads them, and the rest of the specification.
pub record CassandraDatacenter : Type 0 where
  pub name : String
  pub namespace : String
  pub resource_version : String
  pub stopped : Bool
  pub config : String
  pub other_spec : String
  pub condition : ConditionType → ConditionStatus

-- What is read of a pod: its name, and the names of its owners.
pub record Pod : Type 0 where
  pub name : String
  pub owners : List String

-- The client of controller-runtime. A Get takes a namespace and a name.
pub record Client (W : Type 0) : Type 0 where
  pub get_datacenter : String → String → Exec W CassandraDatacenter
  -- client.Update, with the object that the server gives back
  pub update_datacenter : CassandraDatacenter → Exec W CassandraDatacenter
  pub get_pod : String → String → Exec W Pod
  -- the owners of a StatefulSet
  pub get_owners : String → String → Exec W (List String)
  -- the pods of a namespace that have a label
  pub list_pods : String → String → String → Exec W (List Pod)
  -- the data of a secret
  pub get_secret : String → String → Exec W (Dict String)

-- OwnerReferences[0], behind the test that there is one.
unfoldable pub first_owner : String → List String → Result String
first_owner missing [] = err (message missing)
first_owner missing (owner ∷ owners) = ok owner

module _ {W : Type 0} (client : Client W) where
  unfoldable pub cassandra_datacenter : String → String → Exec W CassandraDatacenter
  cassandra_datacenter name namespace = client.get_datacenter namespace name

  unfoldable pub pod_datacenter : String → String → Exec W CassandraDatacenter
  pod_datacenter pod_name namespace = do
    pod ← client.get_pod namespace pod_name
    set_name ←
        lift (first_owner "target pod not managed by cass-operator, no owner reference" pod.owners)
    owners ← client.get_owners namespace set_name
    dc_name ←
        lift
          (first_owner "target statefulset not managed by cass-operator, no owner reference" owners)
    client.get_datacenter namespace dc_name

  -- The label is cassdcapi.DatacenterLabel.
  unfoldable pub cassandra_datacenter_pods : String → CassandraDatacenter → Exec W (List Pod)
  cassandra_datacenter_pods datacenter_label dc =
      client.list_pods dc.namespace datacenter_label dc.name
