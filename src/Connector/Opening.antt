-- ===== src/Connector/Opening.antt =====
-- When the opening of an Exoscale client succeeds.
use provider_exoscale.Prelude.{
  String, ◌≡◌, ◌≢◌, ◌↔◌, ◌⊎◌, inl, inr, refl, sym, ap, ◌∙◌, List, [], Option, none, some, Result,
  ok, err, panic, >>=-eq-ok, eq_iff, arith,
}
use provider_exoscale.Pipeline.{Step, new_step, Runner, RunsInOrder, run-new_step, run_succeeds}
use provider_exoscale.Connector.{
  Endpoints, zone_endpoint, value_of, both_set, exoscale_api_key, exoscale_api_secret,
  ProviderConfig, Kube, ConnectContext, ExoscaleConnector, credentials_of, fetch_provider_config,
  fetch_secret, validate_secret, create_exoscale_client, config_fetched, secret_fetched,
  credentials_read, client_created, client_steps, credential_steps, start, open_exoscale_client,
}
use provider_exoscale.Connector.Laws.{fetched, run_to_fetched}

-- The secret has both credentials, and neither is empty.
abbrev pub Holds : List (String × String) → String → String → Type 0
Holds m key secret =
    (value_of "EXOSCALE_API_KEY" m ≡ some key)
    × (key ≢ "")
    × (value_of "EXOSCALE_API_SECRET" m ≡ some secret)
    × (secret ≢ "")

both_set_iff :
    (a b : Option String) (key secret : String)
    → (both_set a b ≡ some (key, secret))
      ↔ ((a ≡ some key) × (key ≢ "") × (b ≡ some secret) × (secret ≢ ""))
both_set_iff (some x) (some y) key secret = ground (arith, eq_iff x "", eq_iff y "")
both_set_iff (some x) none key secret = ((λ h. cc), (λ (h, g, e, f). cc))
both_set_iff none b key secret = ((λ h. cc), (λ (h, g, e, f). cc))

pub credentials_of_iff :
    (m : List (String × String)) (key secret : String)
    → (credentials_of m ≡ some (key, secret)) ↔ Holds m key secret
credentials_of_iff m key secret =
    both_set_iff (value_of exoscale_api_key m) (value_of exoscale_api_secret m) key secret

-- The endpoint of each zone, which may be written in capitals or in small letters.
pub data EndpointOf (e : Endpoints) (zone : String) : String → Type 0 where
  dk2 : (zone ≡ "CH-DK-2") ⊎ (zone ≡ "ch-dk-2") → EndpointOf e zone e.ch_dk2
  gva2 : (zone ≡ "CH-GVA-2") ⊎ (zone ≡ "ch-gva-2") → EndpointOf e zone e.ch_gva2
  fra1 : (zone ≡ "DE-FRA-1") ⊎ (zone ≡ "de-fra-1") → EndpointOf e zone e.de_fra1
  muc1 : (zone ≡ "DE-MUC-1") ⊎ (zone ≡ "de-muc-1") → EndpointOf e zone e.de_muc1
  vie1 : (zone ≡ "AT-VIE-1") ⊎ (zone ≡ "at-vie-1") → EndpointOf e zone e.at_vie1
  vie2 : (zone ≡ "AT-VIE-2") ⊎ (zone ≡ "at-vie-2") → EndpointOf e zone e.at_vie2
  sof1 : (zone ≡ "BG-SOF-1") ⊎ (zone ≡ "bg-sof-1") → EndpointOf e zone e.bg_sof1

either_spelling :
    (e : Endpoints) (zone a b url : String)
    → zone_endpoint e a ≡ url
    → zone_endpoint e b ≡ url
    → (zone ≡ a) ⊎ (zone ≡ b)
    → zone_endpoint e zone ≡ url
either_spelling e zone a b url at_a at_b (inl h) = ap (zone_endpoint e) h ∙ at_a
either_spelling e zone a b url at_a at_b (inr h) = ap (zone_endpoint e) h ∙ at_b

pub zone_endpoint-EndpointOf :
    (e : Endpoints) (zone url : String) → EndpointOf e zone url → zone_endpoint e zone ≡ url
unfolding zone_endpoint value_of
zone_endpoint-EndpointOf e zone _ (dk2 h) = either_spelling e zone _ _ e.ch_dk2 refl refl h
zone_endpoint-EndpointOf e zone _ (gva2 h) = either_spelling e zone _ _ e.ch_gva2 refl refl h
zone_endpoint-EndpointOf e zone _ (fra1 h) = either_spelling e zone _ _ e.de_fra1 refl refl h
zone_endpoint-EndpointOf e zone _ (muc1 h) = either_spelling e zone _ _ e.de_muc1 refl refl h
zone_endpoint-EndpointOf e zone _ (vie1 h) = either_spelling e zone _ _ e.at_vie1 refl refl h
zone_endpoint-EndpointOf e zone _ (vie2 h) = either_spelling e zone _ _ e.at_vie2 refl refl h
zone_endpoint-EndpointOf e zone _ (sof1 h) = either_spelling e zone _ _ e.bg_sof1 refl refl h

module _ {C : Type 0} (kube : Kube C) where
  config_fetched-ok :
      (c : ConnectContext C) (o : Result ProviderConfig)
      → (config_fetched kube c o).1 ≡ ok tt
      → (p : ProviderConfig) × (o ≡ ok p)
  config_fetched-ok c (ok p) h = (p, refl)
  config_fetched-ok c (err e) h = absurd cc
  config_fetched-ok c (panic p) h = absurd cc

  secret_fetched-ok :
      (c : ConnectContext C) (o : Result (List (String × String)))
      → (secret_fetched kube c o).1 ≡ ok tt
      → (m : List (String × String)) × (o ≡ ok m)
  secret_fetched-ok c (ok m) h = (m, refl)
  secret_fetched-ok c (err e) h = absurd cc
  secret_fetched-ok c (panic p) h = absurd cc

  credentials_read-ok :
      (c : ConnectContext C) (o : Option (String × String))
      → (credentials_read kube c o).1 ≡ ok tt
      → (key : String) × (secret : String) × (o ≡ some (key, secret))
  credentials_read-ok c none h = absurd cc
  credentials_read-ok c (some (key, secret)) h = (key, secret, refl)

  client_created-ok :
      (c : ConnectContext C) (o : Result C)
      → (client_created kube c o).1 ≡ ok tt
      → (client : C) × (o ≡ ok client)
  client_created-ok c (ok client) h = (client, refl)
  client_created-ok c (err e) h = absurd cc
  client_created-ok c (panic p) h = absurd cc

module _ {C : Type 0} (kube : Kube C) (r : Runner (ConnectContext C)) (laws : RunsInOrder r)
    (name endpoint : String) where
  -- A run that returns no error returns none where it goes on.
  still_succeeds :
      (st rest : List (Step (ConnectContext C))) (c d : ConnectContext C)
      → r.run st c ≡ r.run rest d
      → (r.run st c).1 ≡ ok tt
      → (r.run rest d).1 ≡ ok tt
  still_succeeds st rest c d goes_on ran = sym (ap (λ x. x.1) goes_on) ∙ ran

  -- What the cluster and the SDK have answered where a client was opened.
  pub record Opened : Type 0 where
    pub config : ProviderConfig
    pub entries : List (String × String)
    pub key : String
    pub secret : String
    pub client : C
    pub found : kube.get_provider_config name ≡ ok config
    pub read : kube.get_secret config.secret_name config.secret_namespace ≡ ok entries
    pub valid : credentials_of entries ≡ some (key, secret)
    pub made : kube.new_client key secret endpoint ≡ ok client

  -- A client is opened only if each of the four steps has its answer.
  pub open_exoscale_client-Opened :
      (exo : ExoscaleConnector C) → open_exoscale_client kube r name endpoint ≡ ok exo → Opened
  unfolding open_exoscale_client fetch_provider_config fetch_secret validate_secret
      create_exoscale_client
  open_exoscale_client-Opened exo h =
      let c = start kube name endpoint in
      let rest = client_steps kube in
      let (u, ran, _) = >>=-eq-ok (r.run (credential_steps kube rest) c).1 _ h in
      let (first, _) =
        run_succeeds r laws (new_step "fetch provider config" (fetch_provider_config kube)) _ c refl
          ran in
      let (p, found) = config_fetched-ok kube c (kube.get_provider_config name) first in
      let d : ConnectContext C = record c { provider_config = some p } in
      let to_secret =
        run-new_step r laws "fetch provider config" (fetch_provider_config kube) _ c d
          (ap (config_fetched kube c) found) in
      let (second, _) =
        run_succeeds r laws (new_step "fetch secret" (fetch_secret kube)) _ d refl
          (still_succeeds (credential_steps kube rest) _ c d to_secret ran) in
      let (m, read) =
        secret_fetched-ok kube d (kube.get_secret p.secret_name p.secret_namespace) second in
      let at_validate = run_to_fetched kube r laws name endpoint p m rest found read in
      let f = fetched kube r laws name endpoint p m in
      let (third, validated) =
        run_succeeds r laws (new_step "validate secret" (validate_secret kube)) rest f refl
          (still_succeeds (credential_steps kube rest) _ c f at_validate ran) in
      let (key, secret, valid) = credentials_read-ok kube f (credentials_of m) third in
      let g : ConnectContext C = record f { api_key = key; api_secret = secret } in
      let to_client =
        run-new_step r laws "validate secret" (validate_secret kube) rest f g
          (ap (credentials_read kube f) valid) in
      let (fourth, _) =
        run_succeeds r laws (new_step "create exoscale client" (create_exoscale_client kube)) [] g
          refl
          (still_succeeds (credential_steps kube rest) (client_steps kube) c g
            (at_validate ∙ to_client) ran) in
      let (client, made) = client_created-ok kube g (kube.new_client key secret endpoint) fourth in
      record {
        config = p;
        entries = m;
        key = key;
        secret = secret;
        client = client;
        found = found;
        read = read;
        valid = valid;
        made = made;
      }
