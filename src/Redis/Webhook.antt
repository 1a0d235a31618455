-- ===== src/Redis/Webhook.antt =====
-- operator/rediscontroller: webhook.go and connector.go.
use provider_exoscale.Prelude.{Bool, true, false, none, some, Result, ok, ◌>>◌, if◌then◌else◌}
use provider_exoscale.Json.{JsonCodec}
use provider_exoscale.Api.{Crossplane, find_status_condition}
use provider_exoscale.Webhook.{validate_raw_extension}
use provider_exoscale.Pipeline.{Runner}
use provider_exoscale.Connector.{
  Endpoints, zone_endpoint, Kube, ConnectContext, ExoscaleConnector, open_exoscale_client,
}
use provider_exoscale.Dbaas.Webhook.{check_ip_filter, check_maintenance, check_zone}
use provider_exoscale.Redis.{Redis, RedisParameters, get_provider_config_name}

-- Connect: the connection that the pipeline of the resource uses.
unfoldable pub connect :
    {C : Type 0}
    → Kube C
    → Endpoints
    → Runner (ConnectContext C)
    → Redis
    → Result (ExoscaleConnector C)
connect kube endpoints r i =
    open_exoscale_client kube r (get_provider_config_name i)
      (zone_endpoint endpoints i.for_provider.zone)

abbrev pub validate_ip_filter : RedisParameters → Result (Unit {0})
validate_ip_filter p = check_ip_filter p.dbaas.ip_filter

abbrev pub validate_maintenance_schedule : RedisParameters → Result (Unit {0})
validate_maintenance_schedule p = check_maintenance p.maintenance

abbrev pub validate_redis_settings : JsonCodec → RedisParameters → Result (Unit {0})
validate_redis_settings codec p = validate_raw_extension codec p.redis_settings

unfoldable pub validate_spec : JsonCodec → Redis → Result (Unit {0})
validate_spec codec i =
    let p = i.for_provider in
    validate_ip_filter p >> validate_maintenance_schedule p >> validate_redis_settings codec p

unfoldable pub validate_create : JsonCodec → Redis → Result (Unit {0})
validate_create codec i = validate_spec codec i

abbrev pub compare_zone : Redis → Redis → Result (Unit {0})
compare_zone old_inst new_inst =
    check_zone "field is immutable after creation: %s (old), %s (changed)"
      old_inst.for_provider.zone new_inst.for_provider.zone

-- Whether the resource has a condition of the type of Available.
unfoldable pub is_created : Crossplane → Redis → Bool
unfolding find_status_condition
is_created xp i = elim (find_status_condition i.conditions xp.available.type) [
  | none ↦ false
  | some c ↦ true
]

-- compare: the zone, once the resource has been created.
unfoldable pub compare_created : Crossplane → Redis → Redis → Result (Unit {0})
compare_created xp old_inst new_inst =
    if is_created xp old_inst then compare_zone old_inst new_inst else ok tt

unfoldable pub validate_update : JsonCodec → Crossplane → Redis → Redis → Result (Unit {0})
validate_update codec xp old_inst new_inst =
    validate_spec codec new_inst >> compare_created xp old_inst new_inst

unfoldable pub validate_delete : Redis → Result (Unit {0})
validate_delete i = ok tt
