-- ===== src/Tests/Streams.antt =====
-- Runs of the controller for Kafka.
use provider_exoscale.Prelude.{String, true, false, ◌≡◌, ◌↔◌, refl, [], ◌∷◌, Option, none, some, ok}
use provider_exoscale.Json.{str, end, field, lookup}
use provider_exoscale.Api.{running_state}
use provider_exoscale.Managed.{ConnectionDetails}
use provider_exoscale.Mapper.Compare.{compare_settings}
use provider_exoscale.Mapper.Conversions.{ServiceMaintenance, to_notifications}
use provider_exoscale.Settings.{set_defaults}
use provider_exoscale.Dbaas.{exists_as, fetch_setting_schema}
use provider_exoscale.Kafka.{
  Kafka, KafkaParameters, ServiceKafka, UpdateRequest, CreateRequest, KafkaApi, RestEncoding,
}
use provider_exoscale.Kafka.Reading.{
  empty_observation, get_connection_details, set_settings_defaults, diff_parameters,
}
use provider_exoscale.Kafka.Handlers.{update, observe}
use provider_exoscale.Kafka.Laws.{provisioned, kafka_converges}
use provider_exoscale.Kafka.Diff.{Reports, SameBothWays, diff_parameters_iff}
use provider_exoscale.Tests.Fixtures.{crossplane}
use provider_exoscale.Tests.Stores.{store, json, monday, monday_of_service, hobbyist}

abbrev kafka : Kafka
kafka = record {
  name = "stream";
  external_name = "";
  provider_config = some "config";
  for_provider = record {
    maintenance = monday;
    zone = "ch-gva-2";
    dbaas = hobbyist;
    ip_filter_is_nil = false;
    version = "3";
    kafka_settings = record { raw = "" };
    kafka_rest_enabled = true;
    kafka_rest_settings = record { raw = "" };
  };
  conditions = [];
  at_provider = empty_observation;
}

abbrev kafka_service : ServiceKafka String String
kafka_service = record {
  state = running_state;
  uri = "kafka:1";
  uri_params = field "host" (str "kafka") (field "port" (str "1") end);
  connection_info = some (record {
    nodes = "node-1" ∷ "node-2" ∷ [];
    access_cert = "cert";
    access_key = "key";
    rest_uri = "https://rest";
  });
  node_states = none;
  version = "3";
  termination_protection = none;
  plan = "";
  ip_filter = [];
  maintenance = none;
  notifications = [];
  kafka_settings = "{}";
  kafka_rest_enabled = none;
  kafka_rest_settings = "{}";
}

abbrev kafka_request : UpdateRequest String String
kafka_request = record {
  ip_filter = "0.0.0.0/0" ∷ [];
  kafka_settings = "{}";
  maintenance = monday_of_service;
  plan = "hobbyist-2";
  termination_protection = true;
  kafka_rest_enabled = true;
  kafka_rest_settings = "{}";
}

abbrev kafka_created : CreateRequest String String → ServiceKafka String String
kafka_created body = provisioned kafka_service body.rest

abbrev kafka_api : KafkaApi String String (Option (ServiceKafka String String))
kafka_api = store kafka_created (provisioned kafka_service)

abbrev rest_encoding : RestEncoding String
rest_encoding = record { empty_rest = "{}"; unmarshal_rest = λ s. ok s; marshal_rest = λ s. ok s }

abbrev running_kafka : ServiceKafka String String
running_kafka = provisioned kafka_service kafka_request

abbrev kafka_details : ConnectionDetails
kafka_details =
    ("KAFKA_URI", "kafka:1")
    ∷ ("KAFKA_HOST", "kafka")
    ∷ ("KAFKA_PORT", "1")
    ∷ ("KAFKA_NODES", "node-1 node-2")
    ∷ ("service.cert", "cert")
    ∷ ("service.key", "key")
    ∷ ("ca.crt", "ca")
    ∷ ("KAFKA_REST_URI", "https://rest")
    ∷ []

abbrev no_report : KafkaParameters → KafkaParameters → String
no_report expected actual = ""

kafka_converges_example :
    (update json kafka_api rest_encoding kafka none ≡ (some running_kafka, ok tt))
    × (diff : String) × ((observe json kafka_api rest_encoding crossplane no_report kafka
          (some running_kafka)).1
        ≡ ok (exists_as true kafka_details diff))
unfolding to_notifications get_connection_details set_settings_defaults fetch_setting_schema
    set_defaults compare_settings lookup
kafka_converges_example =
    kafka_converges json kafka_api rest_encoding crossplane no_report kafka kafka_service
      kafka_request "{}" "{}" "ca" (some []) kafka_details (record { raw = "{}" })
      (record { raw = "{}" }) none (some running_kafka) refl refl refl refl refl refl refl refl refl
      (refl, refl) (refl, refl) refl

diff_parameters_iff_example :
    ((diff : String) × (diff_parameters json kafka_api rest_encoding no_report running_kafka
          kafka.for_provider
        ≡ ok (true, diff)))
    ↔ ((raw : String) × (raw_rest : String) × (m : ServiceMaintenance) × (kafka_api.marshal_settings
            running_kafka.kafka_settings
          ≡ ok raw)
        × (rest_encoding.marshal_rest running_kafka.kafka_rest_settings ≡ ok raw_rest)
        × SameBothWays json kafka.for_provider.kafka_settings (record { raw = raw })
        × SameBothWays json kafka.for_provider.kafka_rest_settings (record { raw = raw_rest })
        × Reports kafka.for_provider running_kafka m)
diff_parameters_iff_example =
    diff_parameters_iff json kafka_api rest_encoding no_report running_kafka kafka.for_provider
