-- ===== src/Kafka/Reading.antt =====
-- operator/kafkacontroller: what Observe reads (observe.go, settings.go).
-- github.com/google/go-cmp compares the parameters: `cmp_diff` is its report.
use Prim.Native.String
use provider_exoscale.Prelude.{
  String, Bool, false, ◌&&◌, List, [], ◌∷◌, ◌++◌, Option, none, some, msg, Result, ok, err, panic,
  asymmetric, ◌>>=◌, ◌==◌, if◌then◌else◌,
}
use provider_exoscale.Prelude.Text.{same_strings}
use provider_exoscale.Json.{JsonCodec, RawExtension, bool_eq}
use provider_exoscale.Api.{Notification, Condition, Crossplane, ServiceState}
use provider_exoscale.Managed.{ConnectionDetails}
use provider_exoscale.Mapper.Compare.{compare_settings}
use provider_exoscale.Mapper.Conversions.{
  ServiceMaintenance, deref_false, to_dbaas_parameters, to_node_states, to_notifications,
}
use provider_exoscale.Dbaas.{
  or_nil, state_condition, deref_maintenance, text_or_empty, fetch_setting_schema,
}
use provider_exoscale.Settings.{set_defaults}
use provider_exoscale.Kafka.{
  KafkaParameters, KafkaObservation, ConnectionInfo, ServiceKafka, KafkaApi, RestEncoding,
}

-- KafkaObservation{}.
abbrev pub empty_observation : KafkaObservation
empty_observation = record {
  version = "";
  kafka_settings = record { raw = "" };
  kafka_rest_enabled = false;
  kafka_rest_settings = record { raw = "" };
  node_states = [];
  notifications = [];
}

-- xpv1.Condition{}.
abbrev pub empty_condition : Condition
empty_condition = record { type = ""; status = ""; reason = ""; message = "" }

-- getCondition: an unknown state is an error, which Observe logs, with the empty condition.
abbrev pub get_condition : Crossplane → ServiceState → Condition
get_condition xp state = elim (state_condition xp state) [ some c ↦ c | none ↦ empty_condition ]

-- strings.Join(nodes, " ").
abbrev pub join_nodes : List String → String
join_nodes [] = ""
join_nodes (n ∷ []) = n
join_nodes (n ∷ m ∷ ns) = String.◌++◌ n (String.◌++◌ " " (join_nodes (m ∷ ns)))

-- cmp.Equal on the fields that it compares by ==. The plans and the IP filters must be the same texts,
-- in the same order, and a nil IP filter is not an empty one.
abbrev pub same_fields : KafkaParameters → KafkaParameters → Bool
same_fields expected actual =
    (expected.maintenance.day_of_week == actual.maintenance.day_of_week
      && expected.maintenance.time_of_day == actual.maintenance.time_of_day)
    && (expected.zone == actual.zone
        && (bool_eq expected.dbaas.termination_protection actual.dbaas.termination_protection
            && (expected.dbaas.size.plan == actual.dbaas.size.plan
                && (bool_eq expected.ip_filter_is_nil actual.ip_filter_is_nil
                    && same_strings expected.dbaas.ip_filter actual.dbaas.ip_filter
                    && (expected.version == actual.version
                        && bool_eq expected.kafka_rest_enabled actual.kafka_rest_enabled)))))

-- The answer of a comparer, and its answer on the swapped operands, which go-cmp asks for first and
-- whose panic it takes for no answer: two that differ make it panic.
abbrev pub symmetric : Result Bool → Result Bool → Result Bool
symmetric (ok want) (ok got) = if bool_eq want got then ok want else panic asymmetric
symmetric (ok want) (err e) = panic asymmetric
symmetric (ok want) (panic p) = panic asymmetric
symmetric (err e) swapped = err e
symmetric (panic p) swapped = panic p

-- cmp.Comparer(mapper.CompareSettings) in go-cmp, which checks the symmetry on its first two calls.
unfoldable pub compare_both : JsonCodec → RawExtension → RawExtension → Result Bool
compare_both codec a b = symmetric (compare_settings codec a b) (compare_settings codec b a)

-- cmp.Equal(expected, actual, settingComparer): it compares every field, whatever the others are.
unfoldable pub equal_parameters : JsonCodec → KafkaParameters → KafkaParameters → Result Bool
unfolding compare_both
equal_parameters codec expected actual =
    compare_both codec expected.kafka_settings actual.kafka_settings >>= λ same_settings.
    compare_both codec expected.kafka_rest_settings actual.kafka_rest_settings >>= λ same_rest.
    ok (same_fields expected actual && (same_settings && same_rest))

module _ {S R W : Type 0} (codec : JsonCodec) (api : KafkaApi S R W) (rest : RestEncoding R) where
  abbrev pub rest_observed :
      ServiceKafka S R → List Notification → String → Result String → Result KafkaObservation
  rest_observed i ns raw (err e) = ok empty_observation
  rest_observed i ns raw (panic p) = panic p
  rest_observed i ns raw (ok raw_rest) = ok (record {
    version = i.version;
    kafka_settings = record { raw = raw };
    kafka_rest_enabled = deref_false i.kafka_rest_enabled;
    kafka_rest_settings = record { raw = raw_rest };
    node_states = or_nil (to_node_states i.node_states);
    notifications = ns;
  })

  abbrev pub settings_observed :
      ServiceKafka S R → List Notification → Result String → Result KafkaObservation
  settings_observed i ns (err e) = ok empty_observation
  settings_observed i ns (panic p) = panic p
  settings_observed i ns (ok raw) = rest_observed i ns raw (rest.marshal_rest i.kafka_rest_settings)

  abbrev pub notifications_observed :
      ServiceKafka S R → Result (Option (List Notification)) → Result KafkaObservation
  notifications_observed i (err e) = ok empty_observation
  notifications_observed i (panic p) = panic p
  notifications_observed i (ok ns) =
      settings_observed i (or_nil ns) (api.marshal_settings i.kafka_settings)

  -- getObservation, with what its caller keeps of it: the returned error is logged only.
  unfoldable pub get_observation : ServiceKafka S R → Result KafkaObservation
  get_observation i = notifications_observed i (to_notifications codec (some i.notifications))

  abbrev rest_uri : ServiceKafka S R → ConnectionInfo → ConnectionDetails
  rest_uri i info =
      if deref_false i.kafka_rest_enabled
      then (if info.rest_uri == "" then [] else ("KAFKA_REST_URI", info.rest_uri) ∷ [])
      else []

  -- getConnectionDetails.
  unfoldable pub get_connection_details : ServiceKafka S R → String → Result ConnectionDetails
  get_connection_details i ca = elim i.connection_info [
    | none ↦ err (msg "no connection details" [])
    | some info ↦
        if info.access_cert == ""
        then err (msg "no certificate returned" [])
        else (if info.access_key == ""
            then err (msg "no key returned" [])
            else (if i.uri == ""
                then err (msg "no URI returned" [])
                else ok (
                    (("KAFKA_URI", i.uri)
                      ∷ ("KAFKA_HOST", text_or_empty "host" i.uri_params)
                      ∷ ("KAFKA_PORT", text_or_empty "port" i.uri_params)
                      ∷ ("KAFKA_NODES", join_nodes info.nodes)
                      ∷ ("service.cert", info.access_cert)
                      ∷ ("service.key", info.access_key)
                      ∷ ("ca.crt", ca)
                      ∷ [])
                    ++ rest_uri i info)))
  ]

  -- The parameters that diffParameters finds; the zone and the version are the expected ones.
  abbrev pub actual_parameters :
      ServiceKafka S R → KafkaParameters → String → String → ServiceMaintenance → KafkaParameters
  actual_parameters i expected raw raw_rest m = record {
    maintenance = record { day_of_week = m.dow; time_of_day = m.time };
    zone = expected.zone;
    dbaas = to_dbaas_parameters i.termination_protection i.plan (some i.ip_filter);
    ip_filter_is_nil = false;
    version = expected.version;
    kafka_settings = record { raw = raw };
    kafka_rest_enabled = deref_false i.kafka_rest_enabled;
    kafka_rest_settings = record { raw = raw_rest };
  }

  -- A returned error of the encoding is the report.
  abbrev pub reported : Result String → (String → Result (Bool × String)) → Result (Bool × String)
  reported (ok raw) next = next raw
  reported (err e) next = ok (false, api.error_text e)
  reported (panic p) next = panic p

  -- diffParameters.
  unfoldable pub diff_parameters :
      (KafkaParameters → KafkaParameters → String)
      → ServiceKafka S R
      → KafkaParameters
      → Result (Bool × String)
  diff_parameters cmp_diff i expected = reported (api.marshal_settings i.kafka_settings) (λ raw.
      reported (rest.marshal_rest i.kafka_rest_settings) (λ raw_rest.
        deref_maintenance i.maintenance >>= λ m.
        equal_parameters codec expected (actual_parameters i expected raw raw_rest m) >>= λ same.
        ok (same, cmp_diff expected (actual_parameters i expected raw raw_rest m))))

  -- setSettingsDefaults: the schemas are fetched once, for both settings.
  unfoldable pub set_settings_defaults : KafkaParameters → W → Result KafkaParameters
  set_settings_defaults params w = fetch_setting_schema codec api w >>= λ s.
      set_defaults codec s "kafka-rest" params.kafka_rest_settings >>= λ rest_settings.
      set_defaults codec s "kafka" params.kafka_settings >>= λ settings.
      ok (record params { kafka_settings = settings; kafka_rest_settings = rest_settings })
