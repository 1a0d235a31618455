-- ===== src/Connector/Laws.antt =====
-- What the opening of an Exoscale client takes from the cluster.
use provider_exoscale.Prelude.{String, ◌≡◌, refl, sym, ap, ◌∙◌, List, [], ◌∷◌, none, some, ok, err}
use provider_exoscale.Pipeline.{Step, new_step, Runner, RunsInOrder, run-new_step, run-fail}
use provider_exoscale.Connector.{
  ProviderConfig, Kube, ConnectContext, credentials_of, fetch_provider_config, fetch_secret,
  validate_secret, missing_credentials, create_exoscale_client, config_fetched, secret_fetched,
  credentials_read, client_created, client_steps, credential_steps, start, connected,
  open_exoscale_client, key_pair, fetch_credentials,
}

module _ {C : Type 0} (kube : Kube C) (r : Runner (ConnectContext C)) (laws : RunsInOrder r)
    (name endpoint : String) (p : ProviderConfig) (m : List (String × String)) where
  -- The context after the first two steps.
  abbrev pub fetched : ConnectContext C
  fetched = record (start kube name endpoint) {
    provider_config = some p;
    credential_secret = some m;
  }

  pub run_to_fetched :
      (rest : List (Step (ConnectContext C)))
      → kube.get_provider_config name ≡ ok p
      → kube.get_secret p.secret_name p.secret_namespace ≡ ok m
      → r.run (credential_steps kube rest) (start kube name endpoint)
        ≡ r.run (new_step "validate secret" (validate_secret kube) ∷ rest) fetched
  unfolding fetch_provider_config fetch_secret
  run_to_fetched rest found read =
      let c = record (start kube name endpoint) { provider_config = some p } in
      run-new_step r laws "fetch provider config" (fetch_provider_config kube) _ _ c
        (ap (config_fetched kube (start kube name endpoint)) found)
      ∙ run-new_step r laws "fetch secret" (fetch_secret kube) _ c fetched
          (ap (secret_fetched kube c) read)

  -- OpenExoscaleClient succeeds if the cluster has the ProviderConfig and the secret that it names,
  -- the secret has a key and an API secret that are not empty, and the SDK makes a client of them
  -- for the given endpoint. It answers with that key, that secret and that client.
  pub open_exoscale_client_opens :
      (key secret : String) (client : C)
      → kube.get_provider_config name ≡ ok p
      → kube.get_secret p.secret_name p.secret_namespace ≡ ok m
      → credentials_of m ≡ some (key, secret)
      → kube.new_client key secret endpoint ≡ ok client
      → open_exoscale_client kube r name endpoint
        ≡ ok (record { api_key = key; api_secret = secret; exoscale = some client })
  unfolding open_exoscale_client validate_secret create_exoscale_client
  open_exoscale_client_opens key secret client found read valid made =
      let c = record fetched { api_key = key; api_secret = secret } in
      let d = record c { exoscale_client = some client } in
      ap (connected kube) (
        run_to_fetched (client_steps kube) found read
        ∙ run-new_step r laws "validate secret" (validate_secret kube) (client_steps kube) fetched c
            (ap (credentials_read kube fetched) valid)
        ∙ run-new_step r laws "create exoscale client" (create_exoscale_client kube) [] c d
            (ap (client_created kube c) made)
        ∙ laws.run-nil d)

  -- Without both credentials in the secret no client is made: OpenExoscaleClient returns an error.
  pub open_exoscale_client_refused :
      kube.get_provider_config name ≡ ok p
      → kube.get_secret p.secret_name p.secret_namespace ≡ ok m
      → credentials_of m ≡ none
      → open_exoscale_client kube r name endpoint
        ≡ err (r.step_error "validate secret" (missing_credentials kube (some p)))
  unfolding open_exoscale_client validate_secret
  open_exoscale_client_refused found read invalid = ap (connected kube) (
      run_to_fetched (client_steps kube) found read
      ∙ run-fail r laws (new_step "validate secret" (validate_secret kube)) (client_steps kube)
          fetched (missing_credentials kube (some p)) refl
          (ap (λ o. (credentials_read kube fetched o).1) invalid))

  -- FetchProviderConfig reads the same key and secret.
  pub fetch_credentials_reads :
      (key secret : String)
      → endpoint ≡ ""
      → kube.get_provider_config name ≡ ok p
      → kube.get_secret p.secret_name p.secret_namespace ≡ ok m
      → credentials_of m ≡ some (key, secret)
      → fetch_credentials kube r name ≡ ok (key, secret)
  unfolding fetch_credentials validate_secret
  fetch_credentials_reads key secret empty found read valid =
      let c = record fetched { api_key = key; api_secret = secret } in
      ap (λ e. key_pair kube (r.run (credential_steps kube []) (start kube name e))) (sym empty)
      ∙ ap (key_pair kube) (
          run_to_fetched [] found read
          ∙ run-new_step r laws "validate secret" (validate_secret kube) [] fetched c
              (ap (credentials_read kube fetched) valid)
          ∙ laws.run-nil c)
