-- ===== src/Datacenter/ExecOptions.antt =====
-- pkg/util/exec.go: the options of kubectl exec for the container of Cassandra.
use k8ssandra_client.Common.{
  String, Bool, List, [], Option, none, some, Result, ◌==◌, if◌then◌else◌,
}
use k8ssandra_client.Common.Exec.{Exec, pure, lift, ◌>>=◌}

-- The fields of rest.Config that the program sets, and the others.
pub record RestConfig (Serializer Other : Type 0) : Type 0 where
  pub group_version : Option (String × String)
  pub api_path : String
  pub negotiated_serializer : Option Serializer
  pub other : Other

-- exec.ExecOptions: the streams, the target, the connection and the command.
pub record ExecOptions (Streams Rest PodClient : Type 0) : Type 0 where
  pub streams : Streams
  pub namespace : String
  pub enforce_namespace : Bool
  pub container_name : String
  pub pod_name : String
  pub config : Rest
  pub pod_client : PodClient
  pub command : List String

-- genericclioptions.ConfigFlags: the namespace, whether it was asked for, and the configuration, a
-- new one at each call.
pub record ConfigFlags (W Rest : Type 0) : Type 0 where
  pub namespace : Exec W (String × Bool)
  pub to_rest_config : Exec W Rest

-- scheme.Codecs.WithoutConversion, rest.SetKubernetesDefaults, and the pods of a clientset.
pub record RestLib (Serializer Other PodClient : Type 0) : Type 0 where
  pub without_conversion : Serializer
  pub set_defaults : RestConfig Serializer Other → Result (RestConfig Serializer Other)
  pub pod_client : RestConfig Serializer Other → Result PodClient

module _ {Serializer Other PodClient : Type 0} (lib : RestLib Serializer Other PodClient) where
  unfoldable pub set_kubernetes_defaults :
      RestConfig Serializer Other → Result (RestConfig Serializer Other)
  set_kubernetes_defaults config = lib.set_defaults (record config {
    group_version = some ("", "v1");
    api_path = if config.api_path == "" then "/api" else config.api_path;
    negotiated_serializer = elim config.negotiated_serializer [
      | none ↦ some lib.without_conversion
      | some s ↦ some s
    ];
  })

  unfoldable pub get_exec_options :
      {W Streams : Type 0}
      → Streams
      → ConfigFlags W (RestConfig Serializer Other)
      → Exec W (ExecOptions Streams (RestConfig Serializer Other) PodClient)
  get_exec_options streams flags = do
    (namespace, enforce) ← flags.namespace
    config ← flags.to_rest_config
    config' ← lift (set_kubernetes_defaults config)
    pods ← lift (lib.pod_client config')
    pure (record {
      streams = streams;
      namespace = namespace;
      enforce_namespace = enforce;
      container_name = "cassandra";
      pod_name = "";
      config = config';
      pod_client = pods;
      command = [];
    })
