-- ===== src/Register/Kubeconfig/Laws.antt =====
-- Where a kubeconfig made of a token leads its reader.
use k8ssandra_client.Common.{
  String, false, Option, none, some, lookup, ok, err, Error, ◌≡◌, ◌≢◌, refl, sym, ap, subst, ◌∙◌,
  arith, ◌==◌, eq_iff, eq_refl, bind,
}
use k8ssandra_client.Register.Kubeconfig.{
  Host, Kubeconfig, Secret, kubeconfig_of, of_found, token_to_kubeconfig,
  get_kubeconfig_file_location, find_context, get_client, read_host, kubeconfig_to_host,
}

not_empty : (s : String) → s ≢ "" → (s == "") ≡ false
not_empty s n = ground (arith, eq_iff s "", n)

err_not_ok : {A : Type 0} {e : Error} {a : A} → err e ≡ ok a → ⊥
err_not_ok h = cc

module _ {Rest Client : Type 0} (host : Host Rest Client) where
  of_found-eq-ok :
      (o p : Option String) (server name : String) (config : Kubeconfig)
      → of_found o p server name ≡ ok config
      → (ca : String) × (token : String) × (o ≡ some ca)
        × (p ≡ some token)
        × (config ≡ kubeconfig_of server name ca token)
  unfolding of_found
  of_found-eq-ok (some ca) (some token) server name config h = (ca, token, refl, refl, cc)
  of_found-eq-ok (some ca) none server name config h = absurd (err_not_ok h)
  of_found-eq-ok none (some token) server name config h = absurd (err_not_ok h)
  of_found-eq-ok none none server name config h = absurd (err_not_ok h)

  token_to_kubeconfig-eq-ok :
      (secret : Secret) (server name : String) (config : Kubeconfig)
      → token_to_kubeconfig secret server name ≡ ok config
      → (ca : String) × (token : String) × (lookup "ca.crt" secret.contents ≡ some ca)
        × (lookup "token" secret.contents ≡ some token)
        × (config ≡ kubeconfig_of server name ca token)
  unfolding token_to_kubeconfig
  token_to_kubeconfig-eq-ok secret server name config h =
      of_found-eq-ok (lookup "ca.crt" secret.contents) (lookup "token" secret.contents) server name
        config h

  read_host-kubeconfig_of :
      (location path name server ca token : String)
      → name ≢ ""
      → get_kubeconfig_file_location host location ≡ ok path
      → host.load_from_file path ≡ ok (kubeconfig_of server name ca token)
      → read_host host location name ≡ ok server
  unfolding read_host find_context kubeconfig_of lookup
  read_host-kubeconfig_of location path name server ca token n p l =
      rw p rw l rw (not_empty name n) rw (eq_refl name) rw (eq_refl name) refl

  get_client-kubeconfig_of :
      (location path name server ca token : String)
      → name ≢ ""
      → get_kubeconfig_file_location host location ≡ ok path
      → host.load_from_file path ≡ ok (kubeconfig_of server name ca token)
      → get_client host location name
        ≡ bind
            (host.context_config
              (kubeconfig_of server name ca token)
              name
              (record { cluster = name; auth_info = name })
              (record { server = server; ca_data = ca })
              token)
            host.new_client
  unfolding get_client find_context kubeconfig_of lookup
  get_client-kubeconfig_of location path name server ca token n p l =
      rw p rw l rw (not_empty name n) rw (eq_refl name) rw (eq_refl name) refl

  -- A kubeconfig that TokenToKubeconfig made under a name that is not empty, and that lies in the
  -- file that is read, leads back to what it was made of: KubeconfigToHost without overrides finds
  -- the server under its name, and GetClient connects to that server with the certificate and the
  -- token of the secret.
  pub kubeconfig_to_host-token_to_kubeconfig :
      (location path name server : String) (secret : Secret) (config : Kubeconfig)
      → name ≢ ""
      → get_kubeconfig_file_location host location ≡ ok path
      → token_to_kubeconfig secret server name ≡ ok config
      → host.load_from_file path ≡ ok config
      → (kubeconfig_to_host host location name "" "" ≡ ok server)
        × ((ca : String) × (token : String) × (lookup "ca.crt" secret.contents ≡ some ca)
            × (lookup "token" secret.contents ≡ some token)
            × (get_client host location name
                ≡ bind
                    (host.context_config config name
                      (record { cluster = name; auth_info = name })
                      (record { server = server; ca_data = ca })
                      token)
                    host.new_client))
  unfolding kubeconfig_to_host
  kubeconfig_to_host-token_to_kubeconfig location path name server secret config n p t l =
      let (ca, token, c, k, same) = token_to_kubeconfig-eq-ok secret server name config t in
      let l' = l ∙ ap ok same in
      (
        read_host-kubeconfig_of location path name server ca token n p l',
        (
          ca,
          token,
          c,
          k,
          subst
              (λ c.
                get_client host location name
                ≡ bind
                    (host.context_config c name (record { cluster = name; auth_info = name })
                      (record { server = server; ca_data = ca }) token)
                    host.new_client)
              (sym same) (get_client-kubeconfig_of location path name server ca token n p l'),
        ),
      )
