-- ===== src/Kafka.antt =====
-- operator/kafkacontroller and apis/exoscale/v1/kafka_types.go: the data of a Kafka instance, and the
-- SDK's types for it. `S` and `R` are the SDK's types for the settings of Kafka and of Kafka REST.
pub mod Reading
pub mod Handlers
pub mod Webhook
pub mod Diff
pub mod Asymmetric
pub mod Laws
pub mod Lifecycle
use provider_exoscale.Prelude.{String, Bool, List, Option, none, some, Result, ◌==◌, if◌then◌else◌}
use provider_exoscale.Json.{Fields, RawExtension}
use provider_exoscale.Api.{
  ServiceState, Condition, DBaaSParameters, NodeState, Notification, MaintenanceSpec,
}
use provider_exoscale.Mapper.Conversions.{ServiceNotification, ServiceMaintenance}
use provider_exoscale.Dbaas.{DbaasApi}

-- Whether the IP filter is a nil slice, which go-cmp tells from an empty one, stands beside it.
pub record KafkaParameters : Type 0 where
  pub maintenance : MaintenanceSpec
  pub zone : String
  pub dbaas : DBaaSParameters
  pub ip_filter_is_nil : Bool
  pub version : String
  pub kafka_settings : RawExtension
  pub kafka_rest_enabled : Bool
  pub kafka_rest_settings : RawExtension

pub record KafkaObservation : Type 0 where
  pub version : String
  pub kafka_settings : RawExtension
  pub kafka_rest_enabled : Bool
  pub kafka_rest_settings : RawExtension
  pub node_states : List NodeState
  pub notifications : List Notification

-- The external name is the annotation of that name, "" if there is none.
pub record Kafka : Type 0 where
  pub name : String
  pub external_name : String
  pub provider_config : Option String
  pub for_provider : KafkaParameters
  pub conditions : List Condition
  pub at_provider : KafkaObservation

-- GetProviderConfigName.
unfoldable pub get_provider_config_name : Kafka → String
get_provider_config_name i = elim i.provider_config [ some ref ↦ ref | none ↦ "" ]

-- GetInstanceName.
unfoldable pub get_instance_name : Kafka → String
get_instance_name i = if i.external_name == "" then i.name else i.external_name

-- ConnectionInfo of exoscalesdk.DBAASServiceKafka.
pub record ConnectionInfo : Type 0 where
  pub nodes : List String
  pub access_cert : String
  pub access_key : String
  pub rest_uri : String

-- exoscalesdk.DBAASServiceKafka.
pub record ServiceKafka (S R : Type 0) : Type 0 where
  pub state : ServiceState
  pub uri : String
  pub uri_params : Fields
  pub connection_info : Option ConnectionInfo
  pub node_states : Option (List NodeState)
  pub version : String
  pub termination_protection : Option Bool
  pub plan : String
  pub ip_filter : List String
  pub maintenance : Option ServiceMaintenance
  pub notifications : List ServiceNotification
  pub kafka_settings : S
  pub kafka_rest_enabled : Option Bool
  pub kafka_rest_settings : R

-- UpdateDBAASServiceKafkaRequest, and CreateDBAASServiceKafkaRequest, which has a version too.
pub record UpdateRequest (S R : Type 0) : Type 0 where
  pub ip_filter : List String
  pub kafka_settings : S
  pub maintenance : ServiceMaintenance
  pub plan : String
  pub termination_protection : Bool
  pub kafka_rest_enabled : Bool
  pub kafka_rest_settings : R

pub record CreateRequest (S R : Type 0) : Type 0 where
  pub version : String
  pub rest : UpdateRequest S R

-- The client for Kafka, and encoding/json on the settings of Kafka REST.
abbrev pub KafkaApi : Type 0 → Type 0 → Type 0 → Type 0
KafkaApi S R W = DbaasApi (ServiceKafka S R) (CreateRequest S R) (UpdateRequest S R) S W

pub record RestEncoding (R : Type 0) : Type 0 where
  pub empty_rest : R
  pub unmarshal_rest : String → Result R
  pub marshal_rest : R → Result String
