-- ===== src/Register/Cluster.antt =====
-- RegisterCluster of cmd/kubectl-k8ssandra/register/registration.go.
use k8ssandra_client.Common.{
  String, Bool, true, false, ◌&&◌, Option, none, some, List, [], ◌∷◌, lookup, Result, ok, err,
  panic, Error, message, non_recoverable, error_text, is_not_found, is_already_exists, concat, bind,
  ◌==◌, if◌then◌else◌,
}
use k8ssandra_client.Common.Exec.{Exec, pure, raise, lift, ◌>>=◌, ◌>>◌}
use k8ssandra_client.Register.Kubeconfig.{
  Host, Kubeconfig, Secret, SecretType, opaque, service_account_token, token_to_kubeconfig,
  get_client, kubeconfig_to_host,
}

pub record RegistrationExecutor : Type 0 where
  pub destination_name : String
  pub source_kubeconfig : String
  pub dest_kubeconfig : String
  pub source_context : String
  pub dest_context : String
  pub source_namespace : String
  pub dest_namespace : String
  pub service_account : String
  pub override_source_ip : String
  pub override_source_port : String

-- corev1.ServiceAccount, by its name and namespace
pub record ServiceAccount : Type 0 where
  pub name : String
  pub namespace : String

-- configapi.ClientConfig
pub record ClientConfig : Type 0 where
  pub name : String
  pub namespace : String
  pub kubeconfig_secret : String
  pub context_name : String

-- The calls of the API servers. `W` is the state of both clusters.
pub record Api (W Client : Type 0) : Type 0 where
  pub get_service_account : Client → String → String → Exec W ServiceAccount
  pub create_service_account : Client → ServiceAccount → Exec W (Unit {0})
  pub list_secrets : Client → String → Exec W (List Secret)
  pub create_secret : Client → Secret → Exec W (Unit {0})
  pub create_client_config : Client → ClientConfig → Exec W (Unit {0})
  -- configapi.AddToScheme
  pub add_to_scheme : Client → Result (Unit {0})
  -- clientcmd.Write, and %#v of a secret
  pub write_kubeconfig : Kubeconfig → Result String
  pub show_secret : Secret → String

unfoldable pub get_default_secret : String → String → Secret
get_default_secret namespace account = record {
  name = concat (account ∷ "-secret" ∷ []);
  namespace = namespace;
  annotations = ("kubernetes.io/service-account.name", account) ∷ [];
  kind = service_account_token;
  contents = [];
}

unfoldable pub get_default_service_account : String → String → ServiceAccount
get_default_service_account account namespace = record { name = account; namespace = namespace }

abbrev pub same_cluster_text : String
same_cluster_text =
    "source and destination context and kubeconfig are the same, you should not register the same cluster to itself. Reference it by leaving the k8sContext field blank instead"

abbrev pub text_or_empty : Option String → String
text_or_empty none = ""
text_or_empty (some t) = t

abbrev pub is_account_token : SecretType → Bool
is_account_token service_account_token = true
is_account_token _ = false

unfoldable pub is_token_of : String → Secret → Bool
is_token_of account s =
    text_or_empty (lookup "kubernetes.io/service-account.name" s.annotations) == account
    && is_account_token s.kind

-- The first secret of the list that holds a token of the account.
unfoldable pub token_secret : String → List Secret → Option Secret
token_secret account [] = none
token_secret account (s ∷ ss) = if is_token_of account s then some s else token_secret account ss

-- `err != nil && !apierrors.IsAlreadyExists(err)`, with what the error becomes.
unfoldable pub accept_existing :
    {W : Type 0} → (Error → Error) → Result (Unit {0}) × W → Result (Unit {0}) × W
accept_existing report (ok a, w) = (ok a, w)
accept_existing report (err x, w) = if is_already_exists x then (ok tt, w) else (err (report x), w)
accept_existing report (panic, w) = (panic, w)

module _ {W Rest Client : Type 0} (host : Host Rest Client) (api : Api W Client)
    (e : RegistrationExecutor) where
  -- A missing service account is created, and the error is returned all the same.
  unfoldable pub after_get_account : Client → Result ServiceAccount × W → Result ServiceAccount × W
  after_get_account source (err x, w) =
      if is_not_found x
      then (api.create_service_account source
              (get_default_service_account e.service_account e.source_namespace)
            >> raise x)
          w
      else (err x, w)
  after_get_account source (ok a, w) = (ok a, w)
  after_get_account source (panic, w) = (panic, w)

  unfoldable pub require_account : Client → Exec W ServiceAccount
  require_account source w =
      after_get_account source
        (api.get_service_account source e.service_account e.source_namespace w)

  -- A missing secret is created, for the token controller to fill, and the attempt fails.
  unfoldable pub require_secret : Client → Option Secret → Exec W Secret
  require_secret source (some s) = pure s
  require_secret source none =
      api.create_secret source (get_default_secret e.source_namespace e.service_account)
      >> raise (message (concat ("no secret found for service account " ∷ e.service_account ∷ [])))

  -- The error of a secret that is no token.
  unfoldable pub conversion_failed : Secret → Result Kubeconfig → Result Kubeconfig
  conversion_failed secret (ok c) = ok c
  conversion_failed secret (err x) = err (
      message (
        concat (
          "error converting token to kubeconfig: "
          ∷ error_text x
          ∷ ", secret: "
          ∷ api.show_secret secret
          ∷ [])))
  conversion_failed secret panic = panic

  -- The kubeconfig that the destination is to use.
  unfoldable pub destination_data : Secret → Result String
  destination_data secret =
      bind
        (kubeconfig_to_host host e.source_kubeconfig e.source_context e.override_source_ip
          e.override_source_port)
        (λ server.
          bind (conversion_failed secret (token_to_kubeconfig secret server e.destination_name))
            api.write_kubeconfig)

  unfoldable pub dest_secret : String → Secret
  dest_secret contents = record {
    name = e.destination_name;
    namespace = e.dest_namespace;
    annotations = [];
    kind = opaque;
    contents = ("kubeconfig", contents) ∷ [];
  }

  unfoldable pub dest_client_config : ClientConfig
  dest_client_config = record {
    name = e.destination_name;
    namespace = e.dest_namespace;
    kubeconfig_secret = e.destination_name;
    context_name = e.destination_name;
  }

  unfoldable pub secret_failed : Error → Error
  secret_failed x =
      message
        (concat ("error creating secret. err: " ∷ error_text x ∷ " sa " ∷ e.service_account ∷ []))

  -- What is created in the destination.
  unfoldable pub write_destination : Client → String → Exec W (Unit {0})
  write_destination dest contents = do
    _ ← (λ w. accept_existing secret_failed (api.create_secret dest (dest_secret contents) w))
    _ ← lift (api.add_to_scheme dest)
    (λ w. accept_existing (λ x. x) (api.create_client_config dest dest_client_config w))

  unfoldable pub register_with : Client → Client → Exec W (Unit {0})
  register_with source dest = do
    account ← require_account source
    secrets ← api.list_secrets source e.source_namespace
    secret ← require_secret source (token_secret e.service_account secrets)
    contents ← lift (destination_data secret)
    write_destination dest contents

  unfoldable pub is_same_cluster : Bool
  is_same_cluster = e.source_context == e.dest_context && e.source_kubeconfig == e.dest_kubeconfig

  unfoldable pub register_cluster : Exec W (Unit {0})
  register_cluster = if is_same_cluster then raise (non_recoverable same_cluster_text) else (do
    source ← lift (get_client host e.source_kubeconfig e.source_context)
    dest ← lift (get_client host e.dest_kubeconfig e.dest_context)
    register_with source dest)
