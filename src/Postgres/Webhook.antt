-- ===== src/Postgres/Webhook.antt =====
-- operator/postgresqlcontroller: webhook.go and connector.go.
use provider_exoscale.Prelude.{String, List, [], Option, msg, Result, ok, ◌>>=◌, ◌>>◌}
use provider_exoscale.Json.{JsonCodec}
use provider_exoscale.Mapper.Versions.{VersionLib}
use provider_exoscale.Webhook.{validate_raw_extension, validate_versions}
use provider_exoscale.Pipeline.{Runner}
use provider_exoscale.Connector.{
  Endpoints, zone_endpoint, Kube, ConnectContext, ExoscaleConnector, open_exoscale_client,
}
use provider_exoscale.Dbaas.Webhook.{
  check_ip_filter, check_maintenance, check_zone, check_version, available_versions,
}
use provider_exoscale.Postgres.{PostgreSql, PostgreSqlParameters, get_provider_config_name}

module _ {C : Type 0} (kube : Kube C) (endpoints : Endpoints) (r : Runner (ConnectContext C)) where
  -- Connect: the connection that the pipeline of the resource uses.
  unfoldable pub connect : PostgreSql → Result (ExoscaleConnector C)
  connect i =
      open_exoscale_client kube r (get_provider_config_name i)
        (zone_endpoint endpoints i.for_provider.zone)

  -- `service_type` is GetDBAASServiceType: the versions that it names, or nil.
  unfoldable pub get_available_versions :
      (ExoscaleConnector C → String → Result (Option (List String)))
      → PostgreSql
      → Result (List String)
  unfolding connect
  get_available_versions service_type i =
      available_versions (connect i) service_type "pg"
        (msg "postgres available versions not found" [])

abbrev pub validate_ip_filter : PostgreSqlParameters → Result (Unit {0})
validate_ip_filter p = check_ip_filter p.dbaas.ip_filter

abbrev pub validate_maintenance_schedule : PostgreSqlParameters → Result (Unit {0})
validate_maintenance_schedule p = check_maintenance p.maintenance

abbrev pub compare_zone : PostgreSqlParameters → PostgreSqlParameters → Result (Unit {0})
compare_zone old_params new_params =
    check_zone "field is immutable: %s (old), %s (changed)" old_params.zone new_params.zone

module _ (codec : JsonCodec) where
  abbrev pub validate_pg_settings : PostgreSqlParameters → Result (Unit {0})
  validate_pg_settings p = validate_raw_extension codec p.pg_settings

  unfoldable pub validate_spec : PostgreSql → Result (Unit {0})
  validate_spec i =
      let p = i.for_provider in
      validate_ip_filter p >> validate_maintenance_schedule p >> validate_pg_settings p

  -- ValidateCreate, over the answer of getAvailableVersions.
  unfoldable pub validate_create : Result (List String) → PostgreSql → Result (Unit {0})
  validate_create available i =
      available >>= λ versions. validate_versions i.for_provider.version versions >> validate_spec i

  module _ (lib : VersionLib) where
    unfoldable pub compare_version : PostgreSql → PostgreSql → Result (Unit {0})
    compare_version old_inst new_inst =
        check_version lib old_inst.at_provider.version old_inst.for_provider.version
          new_inst.for_provider.version

    unfoldable pub validate_immutable : PostgreSql → PostgreSql → Result (Unit {0})
    validate_immutable old_inst new_inst =
        compare_zone old_inst.for_provider new_inst.for_provider
        >> compare_version old_inst new_inst

    unfoldable pub validate_update : PostgreSql → PostgreSql → Result (Unit {0})
    validate_update old_inst new_inst =
        validate_spec new_inst >> validate_immutable old_inst new_inst

unfoldable pub validate_delete : PostgreSql → Result (Unit {0})
validate_delete i = ok tt
