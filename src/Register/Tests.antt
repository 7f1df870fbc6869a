-- ===== src/Register/Tests.antt =====
-- The theorems on registration for a cluster "east" that one host reaches.
use k8ssandra_client.Common.{
  ℕ, suc, ltb, if◌then◌else◌, String, Bool, true, false, ◌⊎◌, ◌≡◌, refl, none, some, [], ◌∷◌,
  lookup, ok, err, message, bind, arith, eq_iff,
}
use k8ssandra_client.Common.Exec.{Exec}
use k8ssandra_client.Register.Kubeconfig.{
  Host, Kubeconfig, Secret, service_account_token, kubeconfig_of, token_to_kubeconfig, of_found,
  get_kubeconfig_file_location, get_client, kubeconfig_to_host,
}
use k8ssandra_client.Register.Cluster.{RegistrationExecutor, Api, register_cluster}
use k8ssandra_client.Register.Retry.{entrypoint, retry, after_attempt, is_empty_non_recoverable}
use k8ssandra_client.Register.Names.{cleanup_for_kubernetes, find_all, longest_tail}
use k8ssandra_client.Register.Cleaned.{IsName, IsCleaned, cleanup_for_kubernetes-IsClean}
use k8ssandra_client.Register.Kubeconfig.Laws.{kubeconfig_to_host-token_to_kubeconfig}
use k8ssandra_client.Register.Retry.Laws.{EndsWell, entrypoint-EndsWell, entrypoint-is_same_cluster}

abbrev east : Kubeconfig
east = record {
  clusters = ("east", record { server = "https://1.2.3.4"; ca_data = "CA" }) ∷ [];
  auth_infos = ("east", "TOKEN") ∷ [];
  contexts = ("east", record { cluster = "east"; auth_info = "east" }) ∷ [];
  current_context = "east";
}

abbrev token_of_east : Secret
token_of_east = record {
  name = "sa-secret";
  namespace = "ns";
  annotations = [];
  kind = service_account_token;
  contents = ("ca.crt", "CA") ∷ ("token", "TOKEN") ∷ [];
}

-- A host with one kubeconfig; a client is the text of its server.
abbrev host : Host String String
host = record {
  lookup_env = λ v. none;
  home_dir = ok "/root";
  load_from_file = λ path. ok east;
  default_config = λ c. err (message "no default");
  rest_host = λ r. r;
  context_config = λ c name context server token. ok server.server;
  new_client = λ r. ok r;
}

makes_east : token_to_kubeconfig token_of_east "https://1.2.3.4" "east" ≡ ok east
unfolding token_to_kubeconfig of_found kubeconfig_of lookup
makes_east = refl

finds_file : get_kubeconfig_file_location host "/east.yaml" ≡ ok "/east.yaml"
unfolding get_kubeconfig_file_location
finds_file = refl

kubeconfig_to_host-token_to_kubeconfig_example :
    (kubeconfig_to_host host "/east.yaml" "east" "" "" ≡ ok "https://1.2.3.4")
    × ((ca : String) × (token : String) × (lookup "ca.crt" token_of_east.contents ≡ some ca)
        × (lookup "token" token_of_east.contents ≡ some token)
        × (get_client host "/east.yaml" "east"
            ≡ bind
                (host.context_config east "east"
                  (record { cluster = "east"; auth_info = "east" })
                  (record { server = "https://1.2.3.4"; ca_data = ca })
                  token)
                host.new_client))
kubeconfig_to_host-token_to_kubeconfig_example =
    kubeconfig_to_host-token_to_kubeconfig host "/east.yaml" "/east.yaml" "east" "https://1.2.3.4"
      token_of_east east (λ e. ground (arith, eq_iff "east" "")) finds_file makes_east refl

-- An attempt that fails as long as the state is below 2, and counts the attempts.
abbrev third_time : Exec ℕ (Unit {0})
third_time n = if ltb n 2 then (err (message "not ready"), suc n) else (ok tt, n)

third_time_lem : entrypoint third_time 0 ≡ (ok tt, 2)
unfolding entrypoint retry after_attempt is_empty_non_recoverable
third_time_lem = refl

entrypoint-EndsWell_example : EndsWell third_time 30 0 2
entrypoint-EndsWell_example = entrypoint-EndsWell third_time 0 2 third_time_lem

abbrev silent_api : Api ℕ String
silent_api = record {
  get_service_account = λ c name ns w. (err (message "unreachable"), w);
  create_service_account = λ c a w. (ok tt, w);
  list_secrets = λ c ns w. (ok [], w);
  create_secret = λ c s w. (ok tt, w);
  create_client_config = λ c s w. (ok tt, w);
  add_to_scheme = λ c. ok tt;
  write_kubeconfig = λ c. ok "";
  show_secret = λ s. s.name;
}

abbrev to_itself : RegistrationExecutor
to_itself = record {
  destination_name = "east";
  source_kubeconfig = "";
  dest_kubeconfig = "";
  source_context = "east";
  dest_context = "east";
  source_namespace = "ns";
  dest_namespace = "ns";
  service_account = "sa";
  override_source_ip = "";
  override_source_port = "";
}

entrypoint-is_same_cluster_example :
    entrypoint (register_cluster host silent_api to_itself) 7 ≡ (ok tt, 7)
entrypoint-is_same_cluster_example =
    entrypoint-is_same_cluster host silent_api to_itself 7 refl refl

-- Names that are rejected, so that they are cleaned up.
abbrev rejects : String → Bool
rejects s = false

context_name : cleanup_for_kubernetes rejects (λ c. c) "1_prod_east-" ≡ "prod-east"
unfolding cleanup_for_kubernetes find_all longest_tail
context_name = refl

cleanup_for_kubernetes-IsClean_example :
    ((cleanup_for_kubernetes rejects (λ c. c) "1_prod_east-" ≡ "1_prod_east-")
      × (rejects "1_prod_east-" ≡ true))
    ⊎ (IsCleaned (λ c. c) "1_prod_east-" (cleanup_for_kubernetes rejects (λ c. c) "1_prod_east-")
        × ((cleanup_for_kubernetes rejects (λ c. c) "1_prod_east-" ≡ "")
            ⊎ IsName (cleanup_for_kubernetes rejects (λ c. c) "1_prod_east-")))
cleanup_for_kubernetes-IsClean_example =
    cleanup_for_kubernetes-IsClean rejects (λ c. c) "1_prod_east-"
