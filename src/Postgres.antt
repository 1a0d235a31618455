-- ===== src/Postgres.antt =====
-- operator/postgresqlcontroller and apis/exoscale/v1/postgresql_types.go: the data of a PostgreSQL
-- instance, and the SDK's types for it. `S` is the SDK's type for the settings of PostgreSQL.
pub mod Handlers
pub mod Webhook
pub mod Creation
pub mod Bodies
pub mod Laws
pub mod Lifecycle
use provider_exoscale.Prelude.{String, Bool, List, Option, none, some, ◌==◌, if◌then◌else◌}
use provider_exoscale.Json.{RawExtension}
use provider_exoscale.Api.{
  ServiceState, Condition, DBaaSParameters, NodeState, BackupSpec, MaintenanceSpec,
}
use provider_exoscale.Mapper.Conversions.{BackupSchedule, ServiceMaintenance}
use provider_exoscale.Dbaas.{DbaasApi}

pub record PostgreSqlParameters : Type 0 where
  pub maintenance : MaintenanceSpec
  pub backup : BackupSpec
  pub zone : String
  pub dbaas : DBaaSParameters
  pub version : String
  pub pg_settings : RawExtension

pub record PostgreSqlObservation : Type 0 where
  pub dbaas : DBaaSParameters
  pub version : String
  pub maintenance : MaintenanceSpec
  pub backup : BackupSpec
  pub node_states : List NodeState
  pub pg_settings : RawExtension

-- The external name is the annotation of that name, "" if there is none.
pub record PostgreSql : Type 0 where
  pub name : String
  pub external_name : String
  pub provider_config : Option String
  pub for_provider : PostgreSqlParameters
  pub conditions : List Condition
  pub at_provider : PostgreSqlObservation

-- GetProviderConfigName.
unfoldable pub get_provider_config_name : PostgreSql → String
get_provider_config_name i = elim i.provider_config [ some ref ↦ ref | none ↦ "" ]

-- GetInstanceName.
unfoldable pub get_instance_name : PostgreSql → String
get_instance_name i = if i.external_name == "" then i.name else i.external_name

-- exoscalesdk.DBAASServicePG.
pub record ServicePg (S : Type 0) : Type 0 where
  pub name : String
  pub state : ServiceState
  pub uri : String
  pub connection_info : Option (List String)
  pub node_states : List NodeState
  pub version : String
  pub termination_protection : Option Bool
  pub plan : String
  pub ip_filter : List String
  pub maintenance : Option ServiceMaintenance
  pub backup_schedule : Option BackupSchedule
  pub pg_settings : S

-- variantAiven, the only variant that is requested.
pub data Variant : Type 0 where
  variant_aiven : Variant

-- UpdateDBAASServicePGRequest, and CreateDBAASServicePGRequest, which has a version too.
pub record UpdateRequest (S : Type 0) : Type 0 where
  pub plan : String
  pub backup_schedule : BackupSchedule
  pub variant : Variant
  pub termination_protection : Bool
  pub maintenance : ServiceMaintenance
  pub ip_filter : List String
  pub pg_settings : S

pub record CreateRequest (S : Type 0) : Type 0 where
  pub version : String
  pub rest : UpdateRequest S

-- The client for PostgreSQL.
abbrev pub PgApi : Type 0 → Type 0 → Type 0
PgApi S W = DbaasApi (ServicePg S) (CreateRequest S) (UpdateRequest S) S W
