-- ===== src/Datacenter/Nodetool.antt =====
-- cmd/kubectl-k8ssandra/nodetool/nodetool.go: nodetool is run in a pod, with the credentials of its
-- datacenter.
use Prim.Native.String
use mathlib.Core.Bool.{not}
use k8ssandra_client.Common.{String, List, [], ◌∷◌, ◌++◌, message, ◌==◌, if◌then◌else◌}
use k8ssandra_client.Common.Exec.{Exec, raise, pure, ◌>>=◌}
use k8ssandra_client.Kube.{Library, get_client_in_namespace}
use k8ssandra_client.Datacenter.ExecOptions.{
  RestConfig, ExecOptions, ConfigFlags, RestLib, get_exec_options,
}
use k8ssandra_client.Datacenter.Fetch.{CassandraDatacenter, Client, pod_datacenter}
use k8ssandra_client.Datacenter.Auth.{Gabs, CassandraAuth, cassandra_auth_details}

unfoldable pub tls_parameters : CassandraAuth → List String
tls_parameters auth =
    "-Dcom.sun.management.jmxremote.ssl.need.client.auth=true"
    ∷ "-Dcom.sun.management.jmxremote.registry.ssl=true"
    ∷ String.◌++◌ "-Djavax.net.ssl.keyStore=" auth.keystore_path
    ∷ String.◌++◌ "-Djavax.net.ssl.keyStorePassword=" auth.keystore_password
    ∷ String.◌++◌ "-Djavax.net.ssl.trustStore=" auth.truststore_path
    ∷ String.◌++◌ "-Djavax.net.ssl.trustStorePassword=" auth.truststore_password
    ∷ []

unfoldable pub nodetool_auth_parameters : CassandraAuth → List String
nodetool_auth_parameters auth =
    ("--username" ∷ auth.username ∷ "--password" ∷ auth.password ∷ [])
    ++ (if not (auth.keystore_path == "") then tls_parameters auth else [])

-- What Complete leaves: the options of the execution, the client of the manager, and the command of
-- nodetool with its parameters.
pub record Options (Streams Rest PodClient C : Type 0) : Type 0 where
  pub exec_options : ExecOptions Streams Rest PodClient
  pub cass_manager : C
  pub params : List String

module _ {W Streams Serializer Other PodClient C : Type 0}
    (lib : RestLib Serializer Other PodClient) (kube : Library W (RestConfig Serializer Other) C)
    (flags : ConfigFlags W (RestConfig Serializer Other)) (streams : Streams) where
  unfoldable pub complete :
      List String → Exec W (Options Streams (RestConfig Serializer Other) PodClient C)
  complete [] = raise (message "not enough parameters to run nodetool")
  complete (pod ∷ []) = raise (message "not enough parameters to run nodetool")
  complete (pod ∷ param ∷ params) = do
    options ← get_exec_options lib streams flags
    rest_config ← flags.to_rest_config
    kube_client ← get_client_in_namespace kube rest_config options.namespace
    pure (record {
      exec_options = record options { pod_name = pod };
      cass_manager = kube_client.client;
      params = param ∷ params;
    })

-- `manager` is the client that the manager reads with, and `execute` is ExecOptions.Run of kubectl.
module _ {J W Streams Rest PodClient C : Type 0} (gabs : Gabs J) (manager : C → Client W)
    (secret_key : CassandraDatacenter → String × String)
    (execute : ExecOptions Streams Rest PodClient → Exec W (Unit {0})) where
  unfoldable pub run : Options Streams Rest PodClient C → Exec W (Unit {0})
  run o = do
    dc ← pod_datacenter (manager o.cass_manager) o.exec_options.pod_name o.exec_options.namespace
    auth ← cassandra_auth_details gabs (manager o.cass_manager) secret_key dc
    execute (record o.exec_options {
      command = ("nodetool" ∷ []) ++ nodetool_auth_parameters auth ++ o.params;
    })

module _ {J W Streams Serializer Other PodClient C : Type 0} (gabs : Gabs J)
    (lib : RestLib Serializer Other PodClient) (kube : Library W (RestConfig Serializer Other) C)
    (flags : ConfigFlags W (RestConfig Serializer Other)) (streams : Streams)
    (manager : C → Client W) (secret_key : CassandraDatacenter → String × String)
    (execute : ExecOptions Streams (RestConfig Serializer Other) PodClient
      → Exec W (Unit {0})) where
  -- The command; Validate has nothing to say.
  unfoldable pub nodetool_command : List String → Exec W (Unit {0})
  nodetool_command args = do
    o ← complete lib kube flags streams args
    run gabs manager secret_key execute o
