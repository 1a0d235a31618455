-- ===== src/Redis.antt =====
-- operator/rediscontroller and apis/exoscale/v1/redis_types.go: the data of a Redis instance, and the
-- SDK's types for it. `S` is the SDK's type for the settings of Redis.
pub mod Handlers
pub mod Webhook
pub mod Laws
use provider_exoscale.Prelude.{String, Bool, List, Option, none, some, ◌==◌, if◌then◌else◌}
use provider_exoscale.Json.{RawExtension}
use provider_exoscale.Api.{
  ServiceState, Condition, DBaaSParameters, NodeState, Notification, MaintenanceSpec,
}
use provider_exoscale.Mapper.Conversions.{ServiceNotification, ServiceMaintenance}
use provider_exoscale.Dbaas.{DbaasApi}

pub record RedisParameters : Type 0 where
  pub maintenance : MaintenanceSpec
  pub zone : String
  pub dbaas : DBaaSParameters
  pub redis_settings : RawExtension

pub record RedisObservation : Type 0 where
  pub version : String
  pub redis_settings : RawExtension
  pub node_states : List NodeState
  pub notifications : List Notification

-- The external name is the annotation of that name, "" if there is none.
pub record Redis : Type 0 where
  pub name : String
  pub external_name : String
  pub provider_config : Option String
  pub for_provider : RedisParameters
  pub conditions : List Condition
  pub at_provider : RedisObservation

-- GetProviderConfigName.
unfoldable pub get_provider_config_name : Redis → String
get_provider_config_name i = elim i.provider_config [ some ref ↦ ref | none ↦ "" ]

-- GetInstanceName.
unfoldable pub get_instance_name : Redis → String
get_instance_name i = if i.external_name == "" then i.name else i.external_name

-- exoscalesdk.DBAASServiceRedis.
pub record ServiceRedis (S : Type 0) : Type 0 where
  pub name : String
  pub state : ServiceState
  pub uri : String
  pub connection_info : Option (List String)
  pub node_states : List NodeState
  pub version : String
  pub termination_protection : Option Bool
  pub plan : String
  pub ip_filter : List String
  pub maintenance : Option ServiceMaintenance
  pub notifications : List ServiceNotification
  pub redis_settings : S

-- CreateDBAASServiceRedisRequest and UpdateDBAASServiceRedisRequest, as far as they are set.
pub record Request (S : Type 0) : Type 0 where
  pub maintenance : ServiceMaintenance
  pub termination_protection : Bool
  pub plan : String
  pub ip_filter : List String
  pub redis_settings : S

-- The client for Redis.
abbrev pub RedisApi : Type 0 → Type 0 → Type 0
RedisApi S W = DbaasApi (ServiceRedis S) (Request S) (Request S) S W
