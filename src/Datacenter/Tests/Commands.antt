-- ===== src/Datacenter/Tests/Commands.antt =====
-- The theorems on the restart and on the credentials, with one datacenter that is up.
use k8ssandra_client.Common.{
  ℕ, String, Bool, true, Option, some, List, [], ◌∷◌, Dict, ok, ◌≡◌, ◌↔◌, refl, ◌==◌, if◌then◌else◌,
}
use k8ssandra_client.Common.Exec.{Exec}
use k8ssandra_client.Tasks.Create.{TaskClient, CassandraTask, create_restart_task, create_task}
use k8ssandra_client.Tasks.Names.{create_name, random_kube_compatible_text, char_at}
use k8ssandra_client.Tasks.Wait.{wait_for_completion, wait_for_completion_key}
use k8ssandra_client.Datacenter.Fetch.{CassandraDatacenter, cassandra_datacenter}
use k8ssandra_client.Datacenter.Manage.{restart_dc}
use k8ssandra_client.Datacenter.Auth.{
  Data, bool, text, other_data, Gabs, CassandraAuth, auth_details, encryption_flag,
  client_encryption_enabled, sub_section_of_cass_yaml, as_bool,
}
use k8ssandra_client.Datacenter.Tls.{IsTls, auth_details-IsTls}
use k8ssandra_client.Datacenter.Operate.{complete, validate_restart, restart, restart_command}
use k8ssandra_client.Datacenter.Commands.{IsRestarted, restart_command-IsRestarted}
use k8ssandra_client.Datacenter.Tests.{server, dc1, poll_once, poll_once-IsPoll}

abbrev creator : TaskClient CassandraDatacenter CassandraTask
creator = record {
  now = λ w. (ok 17, w);
  intn = λ n w. (ok 3, w);
  command_text = λ c. "restart";
  create = λ t w. (ok t, w);
}

abbrev done_at : String → String → Exec CassandraDatacenter (Option ℕ)
done_at name namespace w = (ok (some 5), w)

restart_command-IsRestarted_example :
    (dc_name : String) × (rest : List String) × (◌≡◌ {A = List String}
      ("dc1" ∷ [])
      (dc_name ∷ rest))
    × IsRestarted server poll_once creator done_at dc_name true dc1
unfolding restart_command complete validate_restart restart restart_dc cassandra_datacenter
    create_restart_task create_task create_name random_kube_compatible_text wait_for_completion
    wait_for_completion_key char_at
restart_command-IsRestarted_example =
    restart_command-IsRestarted server poll_once creator done_at poll_once-IsPoll
      (λ w. (ok "ns", w)) true ("dc1" ∷ []) dc1 dc1 refl

data Container : Type 0 where
  whole section nothing : Container
  flag : Bool → Container
  leaf : String → Container

abbrev content_of : Container → Data
content_of (flag b) = bool b
content_of (leaf s) = text s
content_of _ = other_data

abbrev tls : Dict Container
tls =
    ("keystore", leaf "/etc/ks ")
    ∷ ("keystore_password", leaf "a")
    ∷ ("truststore", leaf "/etc/ts")
    ∷ ("truststore_password", leaf "b")
    ∷ []

abbrev json : Gabs Container
json = record {
  parse_json = λ s. ok whole;
  exists = λ keys j. true;
  path =
      λ p j. if p == "cassandra-yaml.client_encryption_options.enabled" then flag true else section;
  data_of = content_of;
  children_map = λ j. tls;
  nil = nothing;
}

abbrev superuser : Dict String
superuser = ("username", "cassandra") ∷ ("password", "secret") ∷ []

abbrev superuser_auth : CassandraAuth
superuser_auth = record {
  username = "cassandra";
  password = "secret";
  keystore_path = "/etc/ks";
  keystore_password = "a";
  truststore_path = "/etc/ts";
  truststore_password = "b";
}

auth_details-IsTls_example :
    (auth_details json dc1 superuser ≡ ok superuser_auth) ↔ IsTls json superuser tls superuser_auth
unfolding client_encryption_enabled encryption_flag sub_section_of_cass_yaml as_bool
auth_details-IsTls_example = auth_details-IsTls json refl dc1 superuser tls superuser_auth refl refl
