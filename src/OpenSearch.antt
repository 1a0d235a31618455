-- ===== src/OpenSearch.antt =====
-- operator/opensearchcontroller and apis/exoscale/v1/opensearch_types.go: the data of an OpenSearch
-- instance, and the SDK's types for it. `S` is the SDK's type for the settings of OpenSearch.
pub mod Handlers
pub mod Webhook
pub mod Creation
pub mod Protection
pub mod Laws
use provider_exoscale.Prelude.{String, Bool, List, Option, ◌==◌, if◌then◌else◌}
use provider_exoscale.Json.{Fields, RawExtension}
use provider_exoscale.Api.{
  ServiceState, Condition, DBaaSParameters, NodeState, Notification, BackupSpec, MaintenanceSpec,
}
use provider_exoscale.Mapper.Conversions.{ServiceNotification, ServiceMaintenance}
use provider_exoscale.Dbaas.{DbaasApi}

pub record OpenSearchParameters : Type 0 where
  pub maintenance : MaintenanceSpec
  pub backup : BackupSpec
  pub dbaas : DBaaSParameters
  pub zone : String
  pub major_version : String
  pub open_search_settings : RawExtension

pub record OpenSearchObservation : Type 0 where
  pub major_version : String
  pub open_search_settings : RawExtension
  pub node_states : List NodeState
  pub dbaas : DBaaSParameters
  pub notifications : List Notification
  pub maintenance : MaintenanceSpec

-- The external name is the annotation of that name, "" if there is none.
pub record OpenSearch : Type 0 where
  pub name : String
  pub external_name : String
  pub provider_config : Option String
  pub for_provider : OpenSearchParameters
  pub conditions : List Condition
  pub at_provider : OpenSearchObservation

-- GetInstanceName.
unfoldable pub get_instance_name : OpenSearch → String
get_instance_name i = if i.external_name == "" then i.name else i.external_name

-- ConnectionInfo of exoscalesdk.DBAASServiceOpensearch.
pub record ConnectionInfo : Type 0 where
  pub username : String
  pub dashboard_uri : String

-- exoscalesdk.DBAASServiceOpensearch.
pub record ServiceOpensearch (S : Type 0) : Type 0 where
  pub name : String
  pub state : ServiceState
  pub uri : String
  pub uri_params : Fields
  pub connection_info : Option ConnectionInfo
  pub node_states : List NodeState
  pub version : String
  pub termination_protection : Option Bool
  pub plan : String
  pub ip_filter : List String
  pub maintenance : Option ServiceMaintenance
  pub notifications : List ServiceNotification
  pub opensearch_settings : S

-- UpdateDBAASServiceOpensearchRequest, and CreateDBAASServiceOpensearchRequest, which has a version
-- too.
pub record UpdateRequest (S : Type 0) : Type 0 where
  pub maintenance : ServiceMaintenance
  pub opensearch_settings : S
  pub plan : String
  pub ip_filter : List String
  pub termination_protection : Bool

pub record CreateRequest (S : Type 0) : Type 0 where
  pub version : String
  pub rest : UpdateRequest S

-- The client for OpenSearch.
abbrev pub OpensearchApi : Type 0 → Type 0 → Type 0
OpensearchApi S W = DbaasApi (ServiceOpensearch S) (CreateRequest S) (UpdateRequest S) S W
