-- ===== src/Iam/Connect.antt =====
-- operator/iamkeycontroller: connector.go and NewPipeline of pipeline.go.
use provider_exoscale.Prelude.{
  String, ◌≡◌, ◌↔◌, refl, sym, ap, ◌∙◌, Option, some, List, Result, ok, ◌>>=◌, >>=-eq-ok,
}
use provider_exoscale.Pipeline.{Runner, RunsInOrder}
use provider_exoscale.Connector.{
  Endpoints, zone_endpoint, ProviderConfig, Kube, ConnectContext, credentials_of,
  open_exoscale_client, fetch_credentials,
}
use provider_exoscale.Connector.Laws.{open_exoscale_client_opens, fetch_credentials_reads}
use provider_exoscale.Connector.Opening.{
  Holds, credentials_of_iff, EndpointOf, zone_endpoint-EndpointOf, Opened,
  open_exoscale_client-Opened,
}
use provider_exoscale.Dbaas.Laws.{ok-injective}
use provider_exoscale.Iam.{IamKey, get_provider_config_name}

-- IAMKeyPipeline: what it holds besides the client of the cluster and the recorder.
pub record IamKeyPipeline (C : Type 0) : Type 0 where
  pub exoscale_client : Option C
  pub api_key : String
  pub api_secret : String

abbrev pub new_pipeline : {C : Type 0} → Option C → String → String → IamKeyPipeline C
new_pipeline client key secret = record {
  exoscale_client = client;
  api_key = key;
  api_secret = secret;
}

module _ {C : Type 0} (kube : Kube C) (endpoints : Endpoints) (r : Runner (ConnectContext C)) where
  -- Connect: the credentials are read a second time, without a client.
  unfoldable pub connect : IamKey → Result (IamKeyPipeline C)
  connect k =
      open_exoscale_client kube r (get_provider_config_name k)
        (zone_endpoint endpoints k.for_provider.zone)
      >>= λ exo. fetch_credentials kube r (get_provider_config_name k) >>= λ pair.
          ok (new_pipeline exo.exoscale pair.0 pair.1)

  connect_opened :
      (laws : RunsInOrder r) (k : IamKey) (p : ProviderConfig) (m : List (String × String))
      (key secret : String) (client : C)
      → kube.get_provider_config (get_provider_config_name k) ≡ ok p
      → kube.get_secret p.secret_name p.secret_namespace ≡ ok m
      → credentials_of m ≡ some (key, secret)
      → kube.new_client key secret (zone_endpoint endpoints k.for_provider.zone) ≡ ok client
      → connect k ≡ ok (new_pipeline (some client) key secret)
  unfolding connect
  connect_opened laws k p m key secret client found read valid made =
      let name = get_provider_config_name k in
      let opened =
        open_exoscale_client_opens kube r laws name (zone_endpoint endpoints k.for_provider.zone) p
          m key secret client found read valid made in
      ap
        (λ x. x >>= λ exo.
          fetch_credentials kube r name >>= λ pair. ok (new_pipeline exo.exoscale pair.0 pair.1))
        opened
      ∙ ap (λ x. x >>= λ pair. ok (new_pipeline (some client) pair.0 pair.1))
          (fetch_credentials_reads kube r laws name "" p m key secret refl found read valid)

  connect-Opened :
      (laws : RunsInOrder r) (k : IamKey) (pipe : IamKeyPipeline C)
      → connect k ≡ ok pipe
      → Opened kube r laws
          (get_provider_config_name k)
          (zone_endpoint endpoints k.for_provider.zone)
  unfolding connect
  connect-Opened laws k pipe h =
      let name = get_provider_config_name k in
      let endpoint = zone_endpoint endpoints k.for_provider.zone in
      let (exo, opened, _) = >>=-eq-ok (open_exoscale_client kube r name endpoint) _ h in
      open_exoscale_client-Opened kube r laws name endpoint exo opened

  -- For an IAM key in one of the seven zones, written in capitals or in small letters, Connect gives a
  -- pipeline exactly if the cluster has the ProviderConfig of the key and the secret that it names, the
  -- secret has a key and an API secret, neither of which is empty, the SDK makes a client of them for
  -- the endpoint of that zone, and the pipeline holds that client, and the key and the secret that
  -- the client was made of.
  pub iam-connect_iff :
      (laws : RunsInOrder r) (k : IamKey) (url : String) (pipe : IamKeyPipeline C)
      → EndpointOf endpoints k.for_provider.zone url
      → (connect k ≡ ok pipe) ↔ (
          (p : ProviderConfig) × (m : List (String × String)) × (key : String) × (secret : String)
          × (client : C) × (kube.get_provider_config (get_provider_config_name k) ≡ ok p)
          × (kube.get_secret p.secret_name p.secret_namespace ≡ ok m)
          × Holds m key secret
          × (kube.new_client key secret url ≡ ok client)
          × (pipe ≡ new_pipeline (some client) key secret))
  iam-connect_iff laws k url pipe zone =
      let same = zone_endpoint-EndpointOf endpoints k.for_provider.zone url zone in
      (
        (λ h.
            let o = connect-Opened laws k pipe h in
            let gives =
              connect_opened laws k o.config o.entries o.key o.secret o.client o.found o.read
                o.valid o.made in
            (
              o.config,
              o.entries,
              o.key,
              o.secret,
              o.client,
              o.found,
              o.read,
              (credentials_of_iff o.entries o.key o.secret).0 o.valid,
              ap (kube.new_client o.key o.secret) (sym same) ∙ o.made,
              ok-injective (sym h ∙ gives),
            )),
        (λ (p, m, key, secret, client, found, read, holds, made, built).
            connect_opened laws k p m key secret client found read
              ((credentials_of_iff m key secret).1 holds)
              (ap (kube.new_client key secret) same ∙ made)
            ∙ ap ok (sym built)),
      )
