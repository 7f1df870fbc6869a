-- ===== src/Datacenter/Executed.antt =====
-- What a nodetool command that succeeds has executed.
use Prim.Native.String as Text
use k8ssandra_client.Common.{
  String, List, [], ◌∷◌, ◌++◌, ok, ◌≡◌, ◌≢◌, refl, ap, subst, Bool-cases, inl, inr, arith, eq_iff,
  ◌==◌,
}
use k8ssandra_client.Common.Exec.{Exec, lift, then-ok, err_not_ok, pure-eq-ok}
use k8ssandra_client.Kube.{Library, get_client_in_namespace}
use k8ssandra_client.Datacenter.Fetch.{CassandraDatacenter, Client, pod_datacenter}
use k8ssandra_client.Datacenter.Auth.{Gabs, CassandraAuth, cassandra_auth_details}
use k8ssandra_client.Datacenter.ExecOptions.{
  RestConfig, ExecOptions, ConfigFlags, RestLib, set_kubernetes_defaults, get_exec_options,
}
use k8ssandra_client.Datacenter.Nodetool.{
  Options, complete, run, nodetool_auth_parameters, tls_parameters, nodetool_command,
}

module _ {W Streams Serializer Other PodClient : Type 0} (lib : RestLib Serializer Other PodClient)
    (flags : ConfigFlags W (RestConfig Serializer Other)) where
  -- Options for the container of Cassandra, in the namespace of the kubeconfig.
  pub record IsForCassandra (w : W)
      (o : ExecOptions Streams (RestConfig Serializer Other) PodClient) : Type 0 where
    pub after_namespace : W
    pub in_namespace : flags.namespace w ≡ (ok (o.namespace, o.enforce_namespace), after_namespace)
    pub in_container : o.container_name ≡ "cassandra"
    pub connection : RestConfig Serializer Other
    pub connected : set_kubernetes_defaults lib connection ≡ ok o.config

  get_exec_options-IsForCassandra :
      (streams : Streams) (w last : W)
      (o : ExecOptions Streams (RestConfig Serializer Other) PodClient)
      → get_exec_options lib streams flags w ≡ (ok o, last)
      → IsForCassandra w o
  unfolding get_exec_options
  get_exec_options-IsForCassandra streams w last o h =
      then-ok flags.namespace _ w last h λ space w1 read h1.
        then-ok flags.to_rest_config _ w1 last h1 λ config w2 made h2.
          then-ok (lift (set_kubernetes_defaults lib config)) _ w2 last h2 λ config' w3 set h3.
            then-ok (lift (lib.pod_client config')) _ w3 last h3 λ pods w4 listed h4.
              subst (IsForCassandra w) (pure-eq-ok h4).0 (record {
                after_namespace = w1;
                in_namespace = read;
                in_container = refl;
                connection = config;
                connected = ap (λ r. r.0) set;
              })

module _ {W Streams Serializer Other PodClient C : Type 0}
    (lib : RestLib Serializer Other PodClient) (kube : Library W (RestConfig Serializer Other) C)
    (flags : ConfigFlags W (RestConfig Serializer Other)) (streams : Streams) where
  -- What Complete leaves of its arguments.
  record IsTargeted (args : List String) (w : W)
      (o : Options Streams (RestConfig Serializer Other) PodClient C) : Type 0 where
    param : String
    params : List String
    asked : args ≡ o.exec_options.pod_name ∷ param ∷ params
    kept : o.params ≡ param ∷ params
    for_cassandra : IsForCassandra lib flags w o.exec_options

  complete-IsTargeted :
      (args : List String) (w last : W)
      (o : Options Streams (RestConfig Serializer Other) PodClient C)
      → complete lib kube flags streams args w ≡ (ok o, last)
      → IsTargeted args w o
  unfolding complete
  complete-IsTargeted [] w last o h = absurd (err_not_ok (ap (λ r. r.0) h))
  complete-IsTargeted (pod ∷ []) w last o h = absurd (err_not_ok (ap (λ r. r.0) h))
  complete-IsTargeted (pod ∷ param ∷ params) w last o h =
      then-ok (get_exec_options lib streams flags) _ w last h λ options w1 made h1.
        then-ok flags.to_rest_config _ w1 last h1 λ rest w2 configured h2.
          then-ok (get_client_in_namespace kube rest options.namespace) _ w2 last h2
            λ client w3 connected h3.
              let c = get_exec_options-IsForCassandra lib flags streams w w1 options made in
              subst (IsTargeted (pod ∷ param ∷ params) w) (pure-eq-ok h3).0 (record {
                param = param;
                params = params;
                asked = refl;
                kept = refl;
                for_cassandra = record {
                  after_namespace = c.after_namespace;
                  in_namespace = c.in_namespace;
                  in_container = c.in_container;
                  connection = c.connection;
                  connected = c.connected;
                };
              })

-- The arguments that log in: the name and the password, and where there is a keystore the settings of
-- both stores with their passwords.
pub data LogsIn (auth : CassandraAuth) : List String → Type 0 where
  by_password :
      auth.keystore_path ≡ ""
      → LogsIn auth ("--username" ∷ auth.username ∷ "--password" ∷ auth.password ∷ [])
  with_stores :
      auth.keystore_path ≢ ""
      → LogsIn auth (
          "--username"
          ∷ auth.username
          ∷ "--password"
          ∷ auth.password
          ∷ "-Dcom.sun.management.jmxremote.ssl.need.client.auth=true"
          ∷ "-Dcom.sun.management.jmxremote.registry.ssl=true"
          ∷ Text.◌++◌ "-Djavax.net.ssl.keyStore=" auth.keystore_path
          ∷ Text.◌++◌ "-Djavax.net.ssl.keyStorePassword=" auth.keystore_password
          ∷ Text.◌++◌ "-Djavax.net.ssl.trustStore=" auth.truststore_path
          ∷ Text.◌++◌ "-Djavax.net.ssl.trustStorePassword=" auth.truststore_password
          ∷ [])

nodetool_auth_parameters-LogsIn :
    (auth : CassandraAuth) → LogsIn auth (nodetool_auth_parameters auth)
unfolding nodetool_auth_parameters tls_parameters
nodetool_auth_parameters-LogsIn auth = elim (Bool-cases (auth.keystore_path == "")) [
  | inl none_given ↦
      rw none_given (by_password (ground (arith, none_given, eq_iff auth.keystore_path "")))
  | inr given ↦ rw given (with_stores (λ e. ground (arith, given, eq_iff auth.keystore_path "")))
]

module _ {J W Streams Serializer Other PodClient C : Type 0} (gabs : Gabs J)
    (lib : RestLib Serializer Other PodClient) (kube : Library W (RestConfig Serializer Other) C)
    (flags : ConfigFlags W (RestConfig Serializer Other)) (streams : Streams)
    (manager : C → Client W) (secret_key : CassandraDatacenter → String × String)
    (execute : ExecOptions Streams (RestConfig Serializer Other) PodClient
      → Exec W (Unit {0})) where
  -- The execution of a command with its arguments, from the state `w` to the state `last`.
  pub record IsExecuted (args : List String) (w last : W) : Type 0 where
    pub pod : String
    pub param : String
    pub params : List String
    pub asked : args ≡ pod ∷ param ∷ params
    pub options : ExecOptions Streams (RestConfig Serializer Other) PodClient
    pub for_cassandra : IsForCassandra lib flags w options
    pub in_pod : options.pod_name ≡ pod
    pub client : C
    pub dc : CassandraDatacenter
    pub auth : CassandraAuth
    pub prepared : W
    pub found : W
    pub authorised : W
    pub of_pod : pod_datacenter (manager client) pod options.namespace prepared ≡ (ok dc, found)
    pub by_secret :
        cassandra_auth_details gabs (manager client) secret_key dc found ≡ (ok auth, authorised)
    pub login : List String
    pub logs_in : LogsIn auth login
    pub command : options.command ≡ "nodetool" ∷ (login ++ param ∷ params)
    pub executed : execute options authorised ≡ (ok tt, last)

  -- Where the nodetool command ends without an error, it has executed, in the container cassandra
  -- of the pod that is its first argument and in the namespace of the kubeconfig, nodetool with
  -- --username and --password and the name and password that were read for the pod's datacenter,
  -- where there is a keystore with the paths and passwords of both stores, and then with the other
  -- arguments, of which there is at least one.
  pub nodetool_command-IsExecuted :
      (args : List String) (w last : W)
      → nodetool_command gabs lib kube flags streams manager secret_key execute args w
        ≡ (ok tt, last)
      → IsExecuted args w last
  unfolding nodetool_command run
  nodetool_command-IsExecuted args w last h =
      then-ok (complete lib kube flags streams args) _ w last h λ o w1 completed h1.
        then-ok
          (pod_datacenter (manager o.cass_manager) o.exec_options.pod_name o.exec_options.namespace)
          _ w1 last h1
          λ dc w2 of_pod h2.
            then-ok (cassandra_auth_details gabs (manager o.cass_manager) secret_key dc) _ w2 last
              h2
              λ auth w3 by_secret executed.
                let t = complete-IsTargeted lib kube flags streams args w w1 o completed in
                record {
                  pod = o.exec_options.pod_name;
                  param = t.param;
                  params = t.params;
                  asked = t.asked;
                  options = record o.exec_options {
                    command = ("nodetool" ∷ []) ++ nodetool_auth_parameters auth ++ o.params;
                  };
                  for_cassandra = record {
                    after_namespace = t.for_cassandra.after_namespace;
                    in_namespace = t.for_cassandra.in_namespace;
                    in_container = t.for_cassandra.in_container;
                    connection = t.for_cassandra.connection;
                    connected = t.for_cassandra.connected;
                  };
                  in_pod = refl;
                  client = o.cass_manager;
                  dc = dc;
                  auth = auth;
                  prepared = w1;
                  found = w2;
                  authorised = w3;
                  of_pod = of_pod;
                  by_secret = by_secret;
                  login = nodetool_auth_parameters auth;
                  logs_in = nodetool_auth_parameters-LogsIn auth;
                  command =
                      ap (λ ps. ("nodetool" ∷ []) ++ nodetool_auth_parameters auth ++ ps) t.kept;
                  executed = executed;
                }
