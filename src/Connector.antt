-- ===== src/Connector.antt =====
-- operator/pipelineutil/exoscale_connector.go: from the name of a ProviderConfig to an Exoscale
-- client, and operator/common/utils.go: the endpoint of a zone.
pub mod Laws
pub mod Opening
use provider_exoscale.Prelude.{
  String, Bool, true, false, not, ◌&&◌, List, [], ◌∷◌, Option, none, some, Error, msg, wrap, Result,
  ok, err, panic, nil_deref, ◌≡◌, refl, ap, ◌∙◌, arith, eq_iff, ◌↔◌, ◌≢◌, Option-cases, inl, inr,
  map_err, ◌>>=◌, ◌==◌, if◌then◌else◌,
}
use provider_exoscale.Pipeline.{Step, new_step, Runner, RunsInOrder, run-next, run-last, run-fail}

-- The endpoints that exoscalesdk declares.
pub record Endpoints : Type 0 where
  pub ch_dk2 : String
  pub ch_gva2 : String
  pub de_fra1 : String
  pub de_muc1 : String
  pub at_vie1 : String
  pub at_vie2 : String
  pub bg_sof1 : String

-- ZoneTranslation.
abbrev pub zone_entries : Endpoints → List (String × String)
zone_entries e =
    ("CH-DK-2", e.ch_dk2)
    ∷ ("CH-GVA-2", e.ch_gva2)
    ∷ ("DE-FRA-1", e.de_fra1)
    ∷ ("DE-MUC-1", e.de_muc1)
    ∷ ("AT-VIE-1", e.at_vie1)
    ∷ ("AT-VIE-2", e.at_vie2)
    ∷ ("BG-SOF-1", e.bg_sof1)
    ∷ ("ch-dk-2", e.ch_dk2)
    ∷ ("ch-gva-2", e.ch_gva2)
    ∷ ("de-fra-1", e.de_fra1)
    ∷ ("de-muc-1", e.de_muc1)
    ∷ ("at-vie-1", e.at_vie1)
    ∷ ("at-vie-2", e.at_vie2)
    ∷ ("bg-sof-1", e.bg_sof1)
    ∷ []

-- The value of a key of a map[string][]byte or of ZoneTranslation.
unfoldable pub value_of : String → List (String × String) → Option String
value_of k [] = none
value_of k ((j, v) ∷ m) = if j == k then some v else value_of k m

-- ZoneTranslation[zone], "" for a zone that it lacks.
unfoldable pub zone_endpoint : Endpoints → String → String
unfolding value_of
zone_endpoint e zone = elim (value_of zone (zone_entries e)) [ none ↦ "" | some v ↦ v ]

abbrev pub exoscale_api_key : String
exoscale_api_key = "EXOSCALE_API_KEY"

abbrev pub exoscale_api_secret : String
exoscale_api_secret = "EXOSCALE_API_SECRET"

-- ProviderConfig: its reference to the secret.
pub record ProviderConfig : Type 0 where
  pub secret_name : String
  pub secret_namespace : String

-- The reads of the cluster, and the SDK's constructor of a client from a key, a secret and an
-- endpoint.
pub record Kube (C : Type 0) : Type 0 where
  pub get_provider_config : String → Result ProviderConfig
  pub get_secret : String → String → Result (List (String × String))
  pub new_client : String → String → String → Result C

-- connectContext.
pub record ConnectContext (C : Type 0) : Type 0 where
  pub provider_config_name : String
  pub endpoint : String
  pub provider_config : Option ProviderConfig
  pub credential_secret : Option (List (String × String))
  pub api_key : String
  pub api_secret : String
  pub exoscale_client : Option C

-- ExoscaleConnector.
pub record ExoscaleConnector (C : Type 0) : Type 0 where
  pub api_key : String
  pub api_secret : String
  pub exoscale : Option C

-- The key and the secret, if both are there and not empty.
abbrev pub both_set : Option String → Option String → Option (String × String)
both_set (some key) (some secret) =
    if not (key == "") && not (secret == "") then some (key, secret) else none
both_set _ _ = none

abbrev pub credentials_of : List (String × String) → Option (String × String)
credentials_of m = both_set (value_of exoscale_api_key m) (value_of exoscale_api_secret m)

module _ {C : Type 0} (kube : Kube C) where
  abbrev pub config_fetched :
      ConnectContext C → Result ProviderConfig → ConnectContext C × Result (Unit {0})
  config_fetched c (ok p) = (record c { provider_config = some p }, ok tt)
  config_fetched c (err e) = (c, err (wrap "cannot get ProviderConfig" e))
  config_fetched c (panic p) = (c, panic p)

  unfoldable pub fetch_provider_config : ConnectContext C → ConnectContext C × Result (Unit {0})
  fetch_provider_config c = config_fetched c (kube.get_provider_config c.provider_config_name)

  abbrev pub secret_fetched :
      ConnectContext C → Result (List (String × String)) → ConnectContext C × Result (Unit {0})
  secret_fetched c (ok s) = (record c { credential_secret = some s }, ok tt)
  secret_fetched c (err e) = (c, err (wrap "cannot get secret with API token" e))
  secret_fetched c (panic p) = (c, panic p)

  unfoldable pub fetch_secret : ConnectContext C → ConnectContext C × Result (Unit {0})
  fetch_secret c = elim c.provider_config [
    | none ↦ (c, panic nil_deref)
    | some p ↦ secret_fetched c (kube.get_secret p.secret_name p.secret_namespace)
  ]

  -- The error of validateSecret. The secret was read under the name that the ProviderConfig has.
  abbrev pub missing_credentials : Option ProviderConfig → Error
  missing_credentials o =
      let where_it_is : List String = elim o [
        | none ↦ []
        | some p ↦ p.secret_namespace ∷ p.secret_name ∷ []
      ] in
      msg "%s or %s doesn't exist in secret %s/%s"
        (exoscale_api_key ∷ exoscale_api_secret ∷ where_it_is)

  abbrev pub credentials_read :
      ConnectContext C → Option (String × String) → ConnectContext C × Result (Unit {0})
  credentials_read c none = (c, err (missing_credentials c.provider_config))
  credentials_read c (some (key, secret)) = (record c { api_key = key; api_secret = secret }, ok tt)

  unfoldable pub validate_secret : ConnectContext C → ConnectContext C × Result (Unit {0})
  validate_secret c = elim c.credential_secret [
    | none ↦ (c, panic nil_deref)
    | some m ↦ credentials_read c (credentials_of m)
  ]

  abbrev pub client_created : ConnectContext C → Result C → ConnectContext C × Result (Unit {0})
  client_created c (ok ec) = (record c { exoscale_client = some ec }, ok tt)
  client_created c (err e) = (c, err e)
  client_created c (panic p) = (c, panic p)

  unfoldable pub create_exoscale_client : ConnectContext C → ConnectContext C × Result (Unit {0})
  create_exoscale_client c = client_created c (kube.new_client c.api_key c.api_secret c.endpoint)

  abbrev pub client_steps : List (Step (ConnectContext C))
  client_steps = new_step "create exoscale client" create_exoscale_client ∷ []

  -- The steps that both pipelines begin with.
  abbrev pub credential_steps : List (Step (ConnectContext C)) → List (Step (ConnectContext C))
  credential_steps rest =
      new_step "fetch provider config" fetch_provider_config
      ∷ new_step "fetch secret" fetch_secret
      ∷ new_step "validate secret" validate_secret
      ∷ rest

  abbrev pub start : String → String → ConnectContext C
  start name endpoint = record {
    provider_config_name = name;
    endpoint = endpoint;
    provider_config = none;
    credential_secret = none;
    api_key = "";
    api_secret = "";
    exoscale_client = none;
  }

  abbrev pub connected : ConnectContext C × Result (Unit {0}) → Result (ExoscaleConnector C)
  connected (c, r) = r >>= λ u.
      ok (record { api_key = c.api_key; api_secret = c.api_secret; exoscale = c.exoscale_client })

  -- OpenExoscaleClient, with the endpoint as its option.
  unfoldable pub open_exoscale_client :
      Runner (ConnectContext C) → String → String → Result (ExoscaleConnector C)
  open_exoscale_client r name endpoint =
      connected (r.run (credential_steps client_steps) (start name endpoint))

  abbrev pub key_pair : ConnectContext C × Result (Unit {0}) → Result (String × String)
  key_pair (c, r) = r >>= λ u. ok (c.api_key, c.api_secret)

  -- FetchProviderConfig.
  unfoldable pub fetch_credentials : Runner (ConnectContext C) → String → Result (String × String)
  fetch_credentials r name = key_pair (r.run (credential_steps []) (start name ""))
