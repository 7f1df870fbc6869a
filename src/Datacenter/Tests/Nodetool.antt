-- ===== src/Datacenter/Tests/Nodetool.antt =====
-- nodetool status in a pod of a datacenter without encryption. The world is what was executed.
use k8ssandra_client.Common.{String, false, none, List, [], ◌∷◌, lookup, ok, err, message, refl}
use k8ssandra_client.Common.Exec.{Exec}
use k8ssandra_client.Kube.{Library, get_client, get_client_in_namespace}
use k8ssandra_client.Datacenter.Fetch.{
  condition_true, CassandraDatacenter, Client, pod_datacenter, first_owner,
}
use k8ssandra_client.Datacenter.Auth.{
  other_data, Gabs, cassandra_auth_details, auth_details, client_encryption_enabled, no_tls,
}
use k8ssandra_client.Datacenter.ExecOptions.{
  RestConfig, ExecOptions, ConfigFlags, RestLib, set_kubernetes_defaults, get_exec_options,
}
use k8ssandra_client.Datacenter.Nodetool.{complete, run, nodetool_auth_parameters, nodetool_command}
use k8ssandra_client.Datacenter.Executed.{IsExecuted, nodetool_command-IsExecuted}

abbrev World : Type 0
World = List (List String)

abbrev Rest : Type 0
Rest = RestConfig String String

abbrev config : Rest
config = record {
  group_version = none;
  api_path = "";
  negotiated_serializer = none;
  other = "https://1.2.3.4";
}

abbrev rest_lib : RestLib String String String
rest_lib = record {
  without_conversion = "codecs";
  set_defaults = λ c. ok c;
  pod_client = λ c. ok c.api_path;
}

abbrev kube : Library World Rest String
kube = record {
  new = λ c w. (ok c.other, w);
  add_to_scheme = λ c w. (ok tt, w);
  new_namespaced_client = λ c namespace. namespace;
}

abbrev flags : ConfigFlags World Rest
flags = record { namespace = λ w. (ok ("ns", false), w); to_rest_config = λ w. (ok config, w) }

abbrev dc1 : CassandraDatacenter
dc1 = record {
  name = "dc1";
  namespace = "ns";
  resource_version = "7";
  stopped = false;
  config = "";
  other_spec = "";
  condition = λ c. condition_true;
}

abbrev manager : String → Client World
manager bound = record {
  get_datacenter = λ namespace name w. (ok dc1, w);
  update_datacenter = λ dc w. (ok dc, w);
  get_pod = λ namespace name w. (ok (record { name = name; owners = "sts" ∷ [] }), w);
  get_owners = λ namespace name w. (ok ("dc1" ∷ []), w);
  list_pods = λ namespace label value w. (ok [], w);
  get_secret =
      λ namespace name w. (ok (("username", "cassandra") ∷ ("password", "secret") ∷ []), w);
}

abbrev gabs : Gabs String
gabs = record {
  parse_json = λ s. err (message "no config");
  exists = λ path j. false;
  path = λ p j. j;
  data_of = λ j. other_data;
  children_map = λ j. [];
  nil = "";
}

abbrev secret_key : CassandraDatacenter → String × String
secret_key dc = (dc.namespace, "superuser")

abbrev execute : ExecOptions String Rest String → Exec World (Unit {0})
execute o w = (ok tt, o.command ∷ w)

abbrev status : List String
status = "nodetool" ∷ "--username" ∷ "cassandra" ∷ "--password" ∷ "secret" ∷ "status" ∷ []

nodetool_command-IsExecuted_example :
    IsExecuted gabs rest_lib kube flags "streams" manager secret_key execute
      ("pod-0" ∷ "status" ∷ [])
      []
      (status ∷ [])
unfolding nodetool_command complete run get_exec_options set_kubernetes_defaults get_client
    get_client_in_namespace pod_datacenter first_owner cassandra_auth_details auth_details
    client_encryption_enabled no_tls nodetool_auth_parameters lookup
nodetool_command-IsExecuted_example =
    nodetool_command-IsExecuted gabs rest_lib kube flags "streams" manager secret_key execute
      ("pod-0" ∷ "status" ∷ []) [] (status ∷ []) refl
