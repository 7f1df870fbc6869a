-- ===== src/Kube.antt =====
-- pkg/kubernetes (client.go, nodes.go) and pkg/mgmtapi: clients, namespaces and the addresses of
-- nodes.
pub mod Laws
pub mod Lock
mod Tests
use k8ssandra_client.Common.{
  String, Bool, true, false, List, [], ◌∷◌, Dict, insert, Result, ok, err, panic, Error,
  is_already_exists, not, ◌&&◌, if◌then◌else◌,
}
use k8ssandra_client.Common.Exec.{Exec, pure, lift, ◌>>=◌, ◌>>◌}
use k8ssandra_client.Datacenter.Fetch.{CassandraDatacenter, Client, cassandra_datacenter}

-- corev1.NodeAddress by whether its type is InternalIP, and the name of a node with its addresses.
pub record NodeAddress : Type 0 where
  pub is_internal_ip : Bool
  pub address : String

pub record Node : Type 0 where
  pub name : String
  pub addresses : List NodeAddress

abbrev pub add_addresses : String → List NodeAddress → Dict String → Dict String
add_addresses name [] found = found
add_addresses name (a ∷ others) found =
    add_addresses name others (if a.is_internal_ip then insert a.address name found else found)

unfoldable pub add_nodes : List Node → Dict String → Dict String
add_nodes [] found = found
add_nodes (node ∷ nodes) found = add_nodes nodes (add_addresses node.name node.addresses found)

-- `list` is cli.List of the nodes.
unfoldable pub get_all_kubernetes_node_ip_addresses :
    {W : Type 0} → Exec W (List Node) → Exec W (Dict String)
get_all_kubernetes_node_ip_addresses list = do nodes ← list; pure (add_nodes nodes [])

-- An error that the namespace is there already is none.
unfoldable pub accept_existing : {W : Type 0} → Result (Unit {0}) × W → Result (Unit {0}) × W
accept_existing (ok u, w) = (ok tt, w)
accept_existing (err e, w) = if not (is_already_exists e) then (err e, w) else (ok tt, w)
accept_existing (panic, w) = (panic, w)

-- `create` is client.Create of a namespace.
unfoldable pub create_namespace_if_not_exists :
    {W : Type 0} → (String → Exec W (Unit {0})) → String → Exec W (Unit {0})
create_namespace_if_not_exists create namespace w = accept_existing (create namespace w)

-- NamespacedClient: `bound` is the namespace of the client inside it.
pub record NamespacedClient (Config C : Type 0) : Type 0 where
  pub client : C
  pub config : Config
  pub namespace : String

-- client.New, AddToScheme and client.NewNamespacedClient
pub record Library (W Config C : Type 0) : Type 0 where
  pub new : Config → Exec W C
  pub add_to_scheme : C → Exec W (Unit {0})
  pub new_namespaced_client : C → String → C

module _ {W Config C : Type 0} (lib : Library W Config C) where
  unfoldable pub get_client : Config → Exec W C
  get_client rest_config = do c ← lib.new rest_config; lib.add_to_scheme c; pure c

  -- The field of the namespace keeps its zero value.
  unfoldable pub get_client_in_namespace : Config → String → Exec W (NamespacedClient Config C)
  get_client_in_namespace rest_config namespace = do
    c ← get_client rest_config
    pure (record {
      client = lib.new_namespaced_client c namespace;
      config = rest_config;
      namespace = "";
    })

-- NewManagementClient of pkg/mgmtapi; `new_mgmt_client` is httphelper.NewMgmtClient.
unfoldable pub new_management_client :
    {W M : Type 0} → Client W → (CassandraDatacenter → Exec W M) → String → String → Exec W M
new_management_client client new_mgmt_client namespace datacenter = do
  dc ← cassandra_datacenter client datacenter namespace
  new_mgmt_client dc
