-- ===== src/Datacenter/Auth.antt =====
-- pkg/cassdcutil/config.go and secrets.go: what a client needs to log in to a datacenter.
use k8ssandra_client.Common.{
  String, Bool, false, none, some, List, [], ◌∷◌, Dict, lookup, Result, ok, err, panic, trim_space,
  if◌then◌else◌, ◌>>=◌,
}
use k8ssandra_client.Common.Exec.{Exec}
use k8ssandra_client.Common.Exec as Exec
use k8ssandra_client.Datacenter.Fetch.{CassandraDatacenter, Client}

-- What lies in a JSON container, as far as a type assertion tells it apart.
pub data Data : Type 0 where
  bool : Bool → Data
  text : String → Data
  other_data : Data

-- gabs.Container of the gabs library with the operations that are called; `nil` is the container
-- that a map of Go gives for a missing key.
pub record Gabs (J : Type 0) : Type 0 where
  pub parse_json : String → Result J
  pub exists : List String → J → Bool
  pub path : String → J → J
  pub data_of : J → Data
  pub children_map : J → Dict J
  pub nil : J

-- .(bool) and .(string)
unfoldable pub as_bool : Data → Result Bool
as_bool (bool b) = ok b
as_bool _ = panic

unfoldable pub as_text : Data → Result String
as_text (text s) = ok s
as_text _ = panic

pub record CassandraAuth : Type 0 where
  pub username : String
  pub password : String
  pub keystore_path : String
  pub keystore_password : String
  pub truststore_path : String
  pub truststore_password : String

unfoldable pub no_tls : String → String → CassandraAuth
no_tls username password = record {
  username = username;
  password = password;
  keystore_path = "";
  keystore_password = "";
  truststore_path = "";
  truststore_password = "";
}

-- string(secret.Data[key]), which is empty where the key is missing
abbrev pub text_at : String → Dict String → String
text_at k m = elim (lookup k m) [ none ↦ "" | some v ↦ v ]

module _ {J : Type 0} (gabs : Gabs J) where
  unfoldable pub encryption_flag : J → Result Bool
  encryption_flag config =
      if gabs.exists ("cassandra-yaml" ∷ "client_encryption_options" ∷ []) config
      then as_bool
          (gabs.data_of (gabs.path "cassandra-yaml.client_encryption_options.enabled" config))
      else ok false

  unfoldable pub client_encryption_enabled : CassandraDatacenter → Result Bool
  client_encryption_enabled dc = elim (gabs.parse_json dc.config) [
    | ok config ↦ encryption_flag config
    | err e ↦ ok false
    | panic ↦ panic
  ]

  unfoldable pub sub_section_of_cass_yaml : CassandraDatacenter → String → Result (Dict J)
  sub_section_of_cass_yaml dc section = elim (gabs.parse_json dc.config) [
    | ok config ↦ ok (
        if gabs.exists ("cassandra-yaml" ∷ []) config
        then gabs.children_map (gabs.path section (gabs.path "cassandra-yaml" config))
        else [])
    | err e ↦ ok []
    | panic ↦ panic
  ]

  -- options[key].Data().(string), without the spaces around it
  unfoldable pub option_text : String → Dict J → Result String
  option_text key options = do
    value ← as_text (gabs.data_of (elim (lookup key options) [ none ↦ gabs.nil | some v ↦ v ]))
    ok (trim_space value)

  unfoldable pub tls_auth : CassandraAuth → Dict J → Result CassandraAuth
  tls_auth auth options = do
    keystore ← option_text "keystore" options
    keystore_password ← option_text "keystore_password" options
    truststore ← option_text "truststore" options
    truststore_password ← option_text "truststore_password" options
    ok (record auth {
      keystore_path = keystore;
      keystore_password = keystore_password;
      truststore_path = truststore;
      truststore_password = truststore_password;
    })

  unfoldable pub with_tls : CassandraDatacenter → CassandraAuth → Result CassandraAuth
  with_tls dc auth = do
    options ← sub_section_of_cass_yaml dc "client_encryption_options"
    tls_auth auth options

  unfoldable pub auth_details : CassandraDatacenter → Dict String → Result CassandraAuth
  auth_details dc secret = do
    let auth = no_tls (text_at "username" secret) (text_at "password" secret)
    enabled ← client_encryption_enabled dc
    if enabled then with_tls dc auth else ok auth

  module _ {W : Type 0} (client : Client W) where
    -- The key of the secret is cassdc.GetSuperuserSecretNamespacedName().
    unfoldable pub cassandra_auth_details :
        (CassandraDatacenter → String × String) → CassandraDatacenter → Exec W CassandraAuth
    cassandra_auth_details secret_key dc =
        Exec.◌>>=◌ (client.get_secret (secret_key dc).0 (secret_key dc).1)
          (λ secret. Exec.lift (auth_details dc secret))
