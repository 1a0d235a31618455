-- ===== src/Dbaas.antt =====
-- What the controllers for databases (operator/mysqlcontroller, postgresqlcontroller, kafkacontroller,
-- opensearchcontroller and rediscontroller) have in common. Each of them repeats this code; the
-- comments name the functions of the MySQL controller.
pub mod Webhook
pub mod Laws
pub mod Lifecycle
pub mod Creation
use Prim.Native.Char.{code}
use provider_exoscale.Prelude.{
  ℕ, String, Bool, true, false, ◌&&◌, ◌||◌, List, [], ◌∷◌, Option, none, some, Error, Result, ok,
  err, panic, nil_deref, bad_assertion, map_err, ◌>>=◌, ◌==◌, if◌then◌else◌,
}
use provider_exoscale.Prelude.Tests
use provider_exoscale.Prelude.Text.{codes}
use provider_exoscale.Json.{Json, str, Fields, lookup, JsonCodec, RawExtension}
use provider_exoscale.Api.{
  ServiceState, running_state, rebuilding_state, poweroff_state, rebalancing_state, other_state,
  Condition, Crossplane, rebuilding, powered_off, rebalancing, running, DBaaSParameters, NodeState,
  Notification,
}
use provider_exoscale.Managed.{ConnectionDetails, ExternalObservation, no_observation}
use provider_exoscale.Mapper.Conversions.{ServiceMaintenance}
use provider_exoscale.Settings.{Schemas, set_defaults}

-- The fields of url.URL that are read.
pub record ConnectionUrl : Type 0 where
  pub username : String
  pub path : String
  pub hostname : String
  pub port : String

-- The SDK's client for one kind of database, over the state `W` of the remote side: `Svc` is what it
-- reports of a service, and `Cre` and `Upd` are the bodies of the requests. With it encoding/json on
-- the SDK's type `S` of the settings, ParseSchemas after the request for the schemas, and net/url.
pub record DbaasApi (Svc Cre Upd S W : Type 0) : Type 0 where
  pub get_service : String → W → Result Svc
  pub is_not_found : Error → Bool
  pub get_ca_certificate : W → Result String
  pub reveal_user_password : String → String → W → Result String
  pub create_service : String → Cre → W → W × Result (Unit {0})
  pub update_service : String → Upd → W → W × Result (Unit {0})
  pub delete_service : String → W → W × Result (Unit {0})
  pub get_settings : W → Result String
  pub parse_schemas : String → Result Schemas
  pub empty_settings : S
  pub unmarshal_settings : String → Result S
  pub marshal_settings : S → Result String
  pub parse_url : String → Result ConnectionUrl
  pub error_text : Error → String

-- strings.Contains.
abbrev pub starts_with : List ℕ → List ℕ → Bool
starts_with [] s = true
starts_with (c ∷ cs) [] = false
starts_with (c ∷ cs) (d ∷ ds) = Tests.◌==◌ c d && starts_with cs ds

abbrev pub contains_codes : List ℕ → List ℕ → Bool
contains_codes sub [] = starts_with sub []
contains_codes sub (d ∷ ds) = starts_with sub (d ∷ ds) || contains_codes sub ds

-- strings.TrimPrefix(s, "/").
abbrev pub trim_slash : String → String
trim_slash String.[] = ""
trim_slash (String.◌∷◌ c s) = if Tests.◌==◌ (code c) 47 then s else String.◌∷◌ c s

-- DBaaSParameters{}.
abbrev pub empty_parameters : DBaaSParameters
empty_parameters = record {
  termination_protection = false;
  size = record { plan = "" };
  ip_filter = [];
}

abbrev pub or_nil : {A : Type 0} → Option (List A) → List A
or_nil none = []
or_nil (some xs) = xs

-- The condition for a state of the service.
abbrev pub state_condition : Crossplane → ServiceState → Option Condition
state_condition xp running_state = some (running xp)
state_condition xp rebuilding_state = some (rebuilding xp)
state_condition xp poweroff_state = some (powered_off xp)
state_condition xp rebalancing_state = some (rebalancing xp)
state_condition xp (other_state name) = none

-- The switch over the state of the service, in Observe.
abbrev pub set_state : Crossplane → ServiceState → List Condition → List Condition
set_state xp state cs = elim (state_condition xp state) [
  | some c ↦ xp.set_conditions cs c
  | none ↦ cs
]

-- The verdict of CompareMajorVersion; a returned error is logged, and its Boolean is false.
abbrev pub major_matches : Result Bool → Result Bool
major_matches (ok b) = ok b
major_matches (err e) = ok false
major_matches (panic p) = panic p

-- in.Maintenance, dereferenced.
abbrev pub deref_maintenance : Option ServiceMaintenance → Result ServiceMaintenance
deref_maintenance none = panic nil_deref
deref_maintenance (some m) = ok m

-- in.ConnectionInfo.URI[0] where the service has no URI of its own.
abbrev pub first_uri : String → Option (List String) → Option String
first_uri uri info =
    let fallback : Option String = elim (or_nil info) [ [] ↦ none | u ∷ us ↦ some u ] in
    if uri == "" then fallback else some uri

-- m[k].(string).
abbrev pub text_of : Option Json → Option String
text_of (some (str s)) = some s
text_of _ = none

abbrev pub asserted_text : String → Fields → Result String
asserted_text k m = elim (text_of (lookup k m)) [ some s ↦ ok s | none ↦ panic bad_assertion ]

-- s, _ = m[k].(string).
abbrev pub text_or_empty : String → Fields → String
text_or_empty k m = elim (text_of (lookup k m)) [ some s ↦ s | none ↦ "" ]

-- An error of setSettingsDefaults is logged, and the parameters stand as they are.
abbrev pub or_given : {P : Type 0} → P → Result P → Result P
or_given given (ok p) = ok p
or_given given (err e) = ok given
or_given given (panic p) = panic p

-- What mapObservation has of the notifications; an error of them is logged only.
abbrev pub noted :
    {O : Type 0} → (List Notification → O) → O → Result (Option (List Notification)) → Result O
noted add o (ok ns) = ok (add (or_nil ns))
noted add o (err e) = ok o
noted add o (panic p) = panic p

-- A request with a body that may fail to be made.
abbrev pub submit :
    {B W : Type 0} → Result B → (B → W → W × Result (Unit {0})) → W → W × Result (Unit {0})
submit (ok body) send w = send body w
submit (err e) send w = (w, err e)
submit (panic p) send w = (w, panic p)

abbrev pub map_sent : {W : Type 0} → (Error → Error) → W × Result (Unit {0}) → W × Result (Unit {0})
map_sent f (w, r) = (w, map_err f r)

-- What Create makes of the answer: strings.Contains(err.Error(), "Service name is already taken").
abbrev pub is_taken : (Error → String) → Error → Bool
is_taken error_text e =
    contains_codes (codes "Service name is already taken") (codes (error_text e))

abbrev pub created :
    {W : Type 0}
    → (Error → String)
    → (Error → Error)
    → W × Result (Unit {0})
    → W × Result (Unit {0})
created error_text f (w, ok u) = (w, ok tt)
created error_text f (w, err e) = (w, if is_taken error_text e then ok tt else err (f e))
created error_text f (w, panic p) = (w, panic p)

-- Observe's answer to an error of the request for the service.
abbrev pub absent_or : (Error → Bool) → (Error → Error) → Error → Result ExternalObservation
absent_or is_not_found f e = if is_not_found e then ok no_observation else err (f e)

abbrev pub exists_as : Bool → ConnectionDetails → String → ExternalObservation
exists_as up_to_date details diff = record {
  resource_exists = true;
  resource_up_to_date = up_to_date;
  connection_details = details;
  diff = diff;
}

module _ {Svc Cre Upd S W : Type 0} (codec : JsonCodec) (api : DbaasApi Svc Cre Upd S W) where
  -- fetchSettingSchema.
  unfoldable pub fetch_setting_schema : W → Result Schemas
  fetch_setting_schema w = api.get_settings w >>= api.parse_schemas

  -- SetDefaults of the schema of that name.
  unfoldable pub settings_with_defaults : String → RawExtension → W → Result RawExtension
  unfolding fetch_setting_schema
  settings_with_defaults name settings w =
      fetch_setting_schema w >>= λ s. set_defaults codec s name settings

  -- The settings of a request, from the raw JSON of the specification.
  abbrev pub decoded_settings : (Error → Error) → String → Result S
  decoded_settings f raw =
      if raw == "" then ok api.empty_settings else map_err f (api.unmarshal_settings raw)
