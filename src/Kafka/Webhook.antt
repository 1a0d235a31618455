-- ===== src/Kafka/Webhook.antt =====
-- operator/kafkacontroller: webhook.go and connector.go.
use provider_exoscale.Prelude.{
  String, List, [], Option, msg, wrap, Result, ok, map_err, ◌>>=◌, ◌>>◌, ◌==◌, if◌then◌else◌,
}
use provider_exoscale.Json.{JsonCodec}
use provider_exoscale.Mapper.Versions.{VersionLib}
use provider_exoscale.Webhook.{validate_raw_extension, validate_versions}
use provider_exoscale.Pipeline.{Runner}
use provider_exoscale.Connector.{
  Endpoints, zone_endpoint, Kube, ConnectContext, ExoscaleConnector, open_exoscale_client,
}
use provider_exoscale.Dbaas.Webhook.{
  check_ip_filter, check_maintenance, check_zone, check_version, found_versions,
}
use provider_exoscale.Kafka.{Kafka, KafkaParameters, get_provider_config_name}

-- Connect: the connection that the pipeline of the resource uses.
unfoldable pub connect :
    {C : Type 0}
    → Kube C
    → Endpoints
    → Runner (ConnectContext C)
    → Kafka
    → Result (ExoscaleConnector C)
connect kube endpoints r i =
    open_exoscale_client kube r (get_provider_config_name i)
      (zone_endpoint endpoints i.for_provider.zone)

-- The answer of GetDBAASServiceType: the versions that it names, or nil.
unfoldable pub get_available_versions : Result (Option (List String)) → Result (List String)
get_available_versions answer =
    map_err (wrap "get DBaaS service type failed: %w") answer
    >>= found_versions (msg "kafka available versions not found" [])

abbrev pub validate_ip_filter : KafkaParameters → Result (Unit {0})
validate_ip_filter p = check_ip_filter p.dbaas.ip_filter

abbrev pub validate_maintenance_schedule : KafkaParameters → Result (Unit {0})
validate_maintenance_schedule p = check_maintenance p.maintenance

abbrev pub compare_zone : KafkaParameters → KafkaParameters → Result (Unit {0})
compare_zone old_params new_params =
    check_zone "field is immutable: %s (old), %s (changed)" old_params.zone new_params.zone

module _ (codec : JsonCodec) where
  abbrev pub validate_kafka_settings : KafkaParameters → Result (Unit {0})
  validate_kafka_settings p = validate_raw_extension codec p.kafka_settings

  -- The settings of Kafka REST are not checked.
  unfoldable pub validate_spec : KafkaParameters → Result (Unit {0})
  validate_spec p =
      validate_ip_filter p >> validate_maintenance_schedule p >> validate_kafka_settings p

  -- validateCreateWithExoClient, over the answer of GetDBAASServiceType.
  unfoldable pub validate_create_with_client :
      Result (Option (List String)) → Kafka → Result (Unit {0})
  unfolding get_available_versions
  validate_create_with_client answer i =
      let version = i.for_provider.version in
      let checked : Result (Unit {0}) = get_available_versions answer >>= λ versions.
      map_err (wrap "invalid version, allowed versions are %v: %w")
        (validate_versions version versions) in
      (if version == "" then ok tt else checked) >> validate_spec i.for_provider

  -- ValidateCreate, over the connection.
  unfoldable pub validate_create :
      {E : Type 0}
      → Result E
      → (E → String → Result (Option (List String)))
      → Kafka
      → Result (Unit {0})
  unfolding validate_create_with_client
  validate_create connection service_type i =
      map_err (wrap "open exoscale client failed: %w") connection >>= λ exo.
      validate_create_with_client (service_type exo "kafka") i

  module _ (lib : VersionLib) where
    unfoldable pub compare_version : Kafka → Kafka → Result (Unit {0})
    compare_version old_inst new_inst =
        check_version lib old_inst.at_provider.version old_inst.for_provider.version
          new_inst.for_provider.version

    unfoldable pub validate_immutable : Kafka → Kafka → Result (Unit {0})
    validate_immutable old_inst new_inst =
        compare_zone old_inst.for_provider new_inst.for_provider
        >> compare_version old_inst new_inst

    unfoldable pub validate_update : Kafka → Kafka → Result (Unit {0})
    validate_update old_inst new_inst =
        validate_spec new_inst.for_provider >> validate_immutable old_inst new_inst

unfoldable pub validate_delete : Kafka → Result (Unit {0})
validate_delete i = ok tt
