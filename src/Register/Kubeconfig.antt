-- ===== src/Register/Kubeconfig.antt =====
-- pkg/registration/kubeconfig.go and token_to_kubeconfig.go.
pub mod Laws
use k8ssandra_client.Common.{
  String, not, ◌&&◌, Option, none, some, [], ◌∷◌, Dict, lookup, Result, ok, err, panic, message,
  concat, ◌==◌, ◌>>=◌, if◌then◌else◌,
}
use k8ssandra_client.Common.Paths.{join_path}

-- clientcmdapi.Config, the fields that the program reads and writes.
pub record ServerInfo : Type 0 where
  pub server : String
  pub ca_data : String

pub record ContextInfo : Type 0 where
  pub cluster : String
  pub auth_info : String

pub record Kubeconfig : Type 0 where
  pub clusters : Dict ServerInfo
  -- clientcmdapi.AuthInfo: its token
  pub auth_infos : Dict String
  pub contexts : Dict ContextInfo
  pub current_context : String

-- corev1.Secret
pub data SecretType : Type 0 where
  opaque : SecretType
  service_account_token : SecretType
  other_type : String → SecretType

pub record Secret : Type 0 where
  pub name : String
  pub namespace : String
  pub annotations : Dict String
  pub kind : SecretType
  pub contents : Dict String

unfoldable pub kubeconfig_of : String → String → String → String → Kubeconfig
kubeconfig_of server name ca token = record {
  clusters = (name, record { server = server; ca_data = ca }) ∷ [];
  auth_infos = (name, token) ∷ [];
  contexts = (name, record { cluster = name; auth_info = name }) ∷ [];
  current_context = name;
}

unfoldable pub of_found : Option String → Option String → String → String → Result Kubeconfig
of_found (some ca) (some token) server destination = ok (kubeconfig_of server destination ca token)
of_found _ _ server destination = err (message "missing required data in secret")

unfoldable pub token_to_kubeconfig : Secret → String → String → Result Kubeconfig
token_to_kubeconfig s server destination =
    of_found (lookup "ca.crt" s.contents) (lookup "token" s.contents) server destination

-- What the functions read from outside: os.LookupEnv, os.UserHomeDir, clientcmd.LoadFromFile, and
-- the REST configurations that clientcmd makes of a kubeconfig.
pub record Host (Rest Client : Type 0) : Type 0 where
  pub lookup_env : String → Option String
  pub home_dir : Result String
  pub load_from_file : String → Result Kubeconfig
  -- NewDefaultClientConfig(config).ClientConfig(), and the Host of its result
  pub default_config : Kubeconfig → Result Rest
  pub rest_host : Rest → String
  -- NewNonInteractiveClientConfig with the overrides, and ClientConfig()
  pub context_config : Kubeconfig → String → ContextInfo → ServerInfo → String → Result Rest
  -- client.New
  pub new_client : Rest → Result Client

module _ {Rest Client : Type 0} (host : Host Rest Client) where
  unfoldable pub get_kubeconfig_file_location : String → Result String
  get_kubeconfig_file_location location =
      if not (location == "") then ok location else from_environment (host.lookup_env "KUBECONFIG")
    where
      from_environment : Option String → Result String
      from_environment (some path) = ok path
      from_environment none = do
        home ← host.home_dir
        ok (join_path (join_path home ".kube") "config")

  -- `m[k]` of a map of pointers, then dereferenced: nil panics.
  abbrev pub deref : {A : Type 0} → Option A → Result A
  deref none = panic
  deref (some a) = ok a

  unfoldable pub context_not_found : String → String → Result ContextInfo
  context_not_found context path = err (
      message (
        concat (
          "context not found in supplied kubeconfig contextName: " ∷ context
          ∷ " configFileLocation: " ∷ path ∷ [])))

  -- clientConfig.Contexts[contextName]
  unfoldable pub find_context : Kubeconfig → String → String → Result ContextInfo
  find_context config context path = found (lookup context config.contexts)
    where
      found : Option ContextInfo → Result ContextInfo
      found (some c) = ok c
      found none = context_not_found context path

  unfoldable pub get_client : String → String → Result Client
  get_client location context = do
    path ← get_kubeconfig_file_location location
    config ← host.load_from_file path
    rest ←
        (if context == "" then host.default_config config else (do
          c ← find_context config context path
          cluster ← deref (lookup c.cluster config.clusters)
          auth ← deref (lookup c.auth_info config.auth_infos)
          host.context_config config context c cluster auth))
    host.new_client rest

  unfoldable pub read_host : String → String → Result String
  read_host location context = do
    path ← get_kubeconfig_file_location location
    config ← host.load_from_file path
    if context == "" then (do rest ← host.default_config config; ok (host.rest_host rest)) else (do
      c ← find_context config context path
      cluster ← deref (lookup c.cluster config.clusters)
      ok cluster.server)

  unfoldable pub kubeconfig_to_host : String → String → String → String → Result String
  kubeconfig_to_host location context override_ip override_port =
      if not (override_ip == "") && not (override_port == "")
      then ok (concat ("https://" ∷ override_ip ∷ ":" ∷ override_port ∷ []))
      else read_host location context
