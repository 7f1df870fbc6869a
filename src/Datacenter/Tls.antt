-- ===== src/Datacenter/Tls.antt =====
-- The credentials for a datacenter that encrypts its client connections.
use k8ssandra_client.Common.{
  String, true, Option, none, some, Dict, lookup, ok, trim_space, bind, bind-eq-ok, ◌>>=◌, ◌≡◌, ◌↔◌,
  refl, sym, ap, ◌∙◌,
}
use k8ssandra_client.Datacenter.Fetch.{CassandraDatacenter}
use k8ssandra_client.Datacenter.Auth.{
  Data, bool, text, other_data, Gabs, CassandraAuth, as_text, no_tls, text_at,
  client_encryption_enabled, sub_section_of_cass_yaml, option_text, tls_auth, with_tls,
  auth_details,
}

ok_inj : {a b : String} → ok a ≡ ok b → a ≡ b
ok_inj h = cc

auth_inj : {a b : CassandraAuth} → ok a ≡ ok b → a ≡ b
auth_inj h = cc

other_not_text : {s : String} → other_data ≡ text s → ⊥
other_not_text h = cc

module _ {J : Type 0} (gabs : Gabs J) where
  -- An option that is there, is a text, and has this value between its spaces.
  pub HasText : String → Dict J → String → Type 0
  HasText key options value =
      (option : J) × (raw : String) × (lookup key options ≡ some option)
      × (gabs.data_of option ≡ text raw)
      × (value ≡ trim_space raw)

  pub record IsTls (secret : Dict String) (options : Dict J) (auth : CassandraAuth) : Type 0 where
    pub username : auth.username ≡ text_at "username" secret
    pub password : auth.password ≡ text_at "password" secret
    pub keystore : HasText "keystore" options auth.keystore_path
    pub keystore_password : HasText "keystore_password" options auth.keystore_password
    pub truststore : HasText "truststore" options auth.truststore_path
    pub truststore_password : HasText "truststore_password" options auth.truststore_password

  as_text→text : (d : Data) (s : String) → as_text d ≡ ok s → d ≡ text s
  unfolding as_text
  as_text→text (bool b) s h = cc
  as_text→text (text t) s h = ap text (ok_inj h)
  as_text→text other_data s h = cc

  HasText→option_text :
      (key : String) (options : Dict J) (value : String)
      → HasText key options value
      → option_text gabs key options ≡ ok value
  unfolding option_text HasText as_text
  HasText→option_text key options value (option, raw, found, is, trimmed) =
      ap
        (λ (o : Option J). do
          v ← as_text (gabs.data_of (elim o [ none ↦ gabs.nil | some v ↦ v ]))
          ok (trim_space v))
        found
      ∙ ap (λ d. bind (as_text d) (λ v. ok (trim_space v))) is
      ∙ ap ok (sym trimmed)

  IsTls→tls_auth :
      (secret : Dict String) (options : Dict J) (auth : CassandraAuth)
      → IsTls secret options auth
      → tls_auth gabs (no_tls (text_at "username" secret) (text_at "password" secret)) options
        ≡ ok auth
  unfolding tls_auth no_tls
  IsTls→tls_auth secret options auth is =
      rw (HasText→option_text "keystore" options auth.keystore_path is.keystore) (
        rw
          (HasText→option_text "keystore_password" options auth.keystore_password
            is.keystore_password)
          (rw (HasText→option_text "truststore" options auth.truststore_path is.truststore) (
            rw
              (HasText→option_text "truststore_password" options auth.truststore_password
                is.truststore_password)
              (ap (λ u. ok (record auth { username = u; password = text_at "password" secret }))
                  (sym is.username)
                ∙ ap (λ u. ok (record auth { password = u })) (sym is.password)))))

  auth_details-tls :
      (dc : CassandraDatacenter) (secret : Dict String) (options : Dict J)
      → client_encryption_enabled gabs dc ≡ ok true
      → sub_section_of_cass_yaml gabs dc "client_encryption_options" ≡ ok options
      → auth_details gabs dc secret
        ≡ tls_auth gabs (no_tls (text_at "username" secret) (text_at "password" secret)) options
  unfolding auth_details with_tls
  auth_details-tls dc secret options enabled section = rw enabled rw section refl

  -- Documented behaviour: a container that is nil has no data.
  module _ (nil_data : gabs.data_of gabs.nil ≡ other_data) where
    found_option :
        (o : Option J) (raw : String)
        → as_text (gabs.data_of (elim o [ none ↦ gabs.nil | some v ↦ v ])) ≡ ok raw
        → (option : J) × (o ≡ some option) × (gabs.data_of option ≡ text raw)
    found_option none raw h = absurd (other_not_text (sym nil_data ∙ as_text→text _ raw h))
    found_option (some option) raw h = (option, refl, as_text→text _ raw h)

    option_text→HasText :
        (key : String) (options : Dict J) (value : String)
        → option_text gabs key options ≡ ok value
        → HasText key options value
    unfolding option_text HasText
    option_text→HasText key options value h =
        let (raw, read, trimmed) =
          bind-eq-ok
            (as_text (gabs.data_of (elim (lookup key options) [ none ↦ gabs.nil | some v ↦ v ])))
            (λ raw. ok (trim_space raw)) h in
        let (option, there, is) = found_option (lookup key options) raw read in
        (option, raw, there, is, sym (ok_inj trimmed))

    tls_auth-IsTls :
        (secret : Dict String) (options : Dict J) (auth : CassandraAuth)
        → tls_auth gabs (no_tls (text_at "username" secret) (text_at "password" secret)) options
          ≡ ok auth
        → IsTls secret options auth
    unfolding tls_auth no_tls
    tls_auth-IsTls secret options auth h =
        let (k, k_read, more) = bind-eq-ok (option_text gabs "keystore" options) _ h in
        let (kp, kp_read, more2) =
          bind-eq-ok (option_text gabs "keystore_password" options) _ more in
        let (t, t_read, more3) = bind-eq-ok (option_text gabs "truststore" options) _ more2 in
        let (tp, tp_read, done) =
          bind-eq-ok (option_text gabs "truststore_password" options) _ more3 in
        let same = sym (auth_inj done) in
        record {
          username = ap (λ (a : CassandraAuth). a.username) same;
          password = ap (λ (a : CassandraAuth). a.password) same;
          keystore =
              option_text→HasText "keystore" options auth.keystore_path
                (k_read ∙ ap (λ (a : CassandraAuth). ok a.keystore_path) (sym same));
          keystore_password =
              option_text→HasText "keystore_password" options auth.keystore_password
                (kp_read ∙ ap (λ (a : CassandraAuth). ok a.keystore_password) (sym same));
          truststore =
              option_text→HasText "truststore" options auth.truststore_path
                (t_read ∙ ap (λ (a : CassandraAuth). ok a.truststore_path) (sym same));
          truststore_password =
              option_text→HasText "truststore_password" options auth.truststore_password
                (tp_read ∙ ap (λ (a : CassandraAuth). ok a.truststore_password) (sym same));
        }

    -- Where a nil container has no data, for a datacenter whose client encryption is on and whose
    -- client_encryption_options can be read, CassandraAuthDetails makes certain credentials of the
    -- secret if and only if they have the user name and password of the secret and each of the
    -- four stores and passwords is a text of the options, without the spaces around it.
    pub auth_details-IsTls :
        (dc : CassandraDatacenter) (secret : Dict String) (options : Dict J) (auth : CassandraAuth)
        → client_encryption_enabled gabs dc ≡ ok true
        → sub_section_of_cass_yaml gabs dc "client_encryption_options" ≡ ok options
        → (auth_details gabs dc secret ≡ ok auth) ↔ IsTls secret options auth
    auth_details-IsTls dc secret options auth enabled section = (
      λ h.
          tls_auth-IsTls secret options auth
            (sym (auth_details-tls dc secret options enabled section) ∙ h),
      λ is.
          auth_details-tls dc secret options enabled section
          ∙ IsTls→tls_auth secret options auth is,
    )
