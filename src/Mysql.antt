-- ===== src/Mysql.antt =====
-- operator/mysqlcontroller and apis/exoscale/v1/mysql_types.go: the data of a MySQL instance, and the
-- Exoscale client over the state `W` of the service. `S` is the SDK's type for the settings of MySQL.
pub mod Handlers
pub mod Webhook
pub mod Creation
pub mod Laws
pub mod Lifecycle
pub mod Admission
pub mod Converges
use provider_exoscale.Prelude.{
  ℕ, String, Bool, true, false, ◌||◌, List, [], ◌∷◌, Option, none, some, Error, Result, ◌==◌,
  if◌then◌else◌,
}
use provider_exoscale.Dbaas.{DbaasApi}
use provider_exoscale.Json.{RawExtension}
use provider_exoscale.Settings.{Schemas}
use provider_exoscale.Api.{
  ServiceState, Condition, DBaaSParameters, NodeState, Notification, BackupSpec, MaintenanceSpec,
}
use provider_exoscale.Mapper.Conversions.{BackupSchedule, ServiceNotification, ServiceMaintenance}

pub record MySqlParameters : Type 0 where
  pub maintenance : MaintenanceSpec
  pub backup : BackupSpec
  pub zone : String
  pub version : String
  pub dbaas : DBaaSParameters
  pub my_sql_settings : RawExtension

pub record MySqlObservation : Type 0 where
  pub dbaas : DBaaSParameters
  pub version : String
  pub maintenance : MaintenanceSpec
  pub backup : BackupSpec
  pub node_states : List NodeState
  pub my_sql_settings : RawExtension
  pub notifications : List Notification

-- The external name is the annotation of that name, "" if there is none.
pub record MySql : Type 0 where
  pub name : String
  pub external_name : String
  pub provider_config : Option String
  pub for_provider : MySqlParameters
  pub conditions : List Condition
  pub at_provider : MySqlObservation

-- GetProviderConfigName.
unfoldable pub get_provider_config_name : MySql → String
get_provider_config_name i = elim i.provider_config [ some ref ↦ ref | none ↦ "" ]

-- GetInstanceName.
unfoldable pub get_instance_name : MySql → String
get_instance_name i = if i.external_name == "" then i.name else i.external_name

-- exoscalesdk.DBAASServiceMysql. The connection information is a pointer to a list of URIs.
pub record ServiceMysql (S : Type 0) : Type 0 where
  pub name : String
  pub state : ServiceState
  pub uri : String
  pub connection_info : Option (List String)
  pub node_states : Option (List NodeState)
  pub version : String
  pub termination_protection : Option Bool
  pub plan : String
  pub ip_filter : List String
  pub maintenance : Option ServiceMaintenance
  pub backup_schedule : Option BackupSchedule
  pub notifications : List ServiceNotification
  pub mysql_settings : S

-- CreateDBAASServiceMysqlRequest, and UpdateDBAASServiceMysqlRequest, which has no version.
pub record UpdateRequest (S : Type 0) : Type 0 where
  pub maintenance : ServiceMaintenance
  pub backup_schedule : BackupSchedule
  pub termination_protection : Bool
  pub plan : String
  pub ip_filter : List String
  pub mysql_settings : S

pub record CreateRequest (S : Type 0) : Type 0 where
  pub version : String
  pub rest : UpdateRequest S

-- The client for MySQL.
abbrev pub MysqlApi : Type 0 → Type 0 → Type 0
MysqlApi S W = DbaasApi (ServiceMysql S) (CreateRequest S) (UpdateRequest S) S W
