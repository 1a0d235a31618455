-- ===== src/OpenSearch/Webhook.antt =====
-- operator/opensearchcontroller: webhook.go and connector.go.
use provider_exoscale.Prelude.{
  String, Bool, true, false, List, [], Option, none, some, msg, Result, ok, panic, nil_deref, ◌>>=◌,
  ◌>>◌, if◌then◌else◌,
}
use provider_exoscale.Json.{JsonCodec}
use provider_exoscale.Api.{Crossplane, find_status_condition}
use provider_exoscale.Mapper.Versions.{VersionLib}
use provider_exoscale.Webhook.{validate_raw_extension, validate_versions}
use provider_exoscale.Pipeline.{Runner}
use provider_exoscale.Connector.{
  Endpoints, zone_endpoint, Kube, ConnectContext, ExoscaleConnector, open_exoscale_client,
}
use provider_exoscale.Dbaas.Webhook.{
  check_ip_filter, check_maintenance, check_zone, check_version, available_versions,
}
use provider_exoscale.OpenSearch.{OpenSearch, OpenSearchParameters}

module _ {C : Type 0} (kube : Kube C) (endpoints : Endpoints) (r : Runner (ConnectContext C)) where
  -- Connect: the connection that the pipeline of the resource uses. The reference to the
  -- configuration is dereferenced without a test for nil.
  unfoldable pub connect : OpenSearch → Result (ExoscaleConnector C)
  connect i = elim i.provider_config [
    | none ↦ panic nil_deref
    | some ref ↦ open_exoscale_client kube r ref (zone_endpoint endpoints i.for_provider.zone)
  ]

  -- `service_type` is GetDBAASServiceType: the versions that it names, or nil.
  unfoldable pub get_available_versions :
      (ExoscaleConnector C → String → Result (Option (List String)))
      → OpenSearch
      → Result (List String)
  unfolding connect
  get_available_versions service_type i =
      available_versions (connect i) service_type "opensearch"
        (msg "opensearch available versions not found" [])

abbrev pub validate_ip_filter : OpenSearchParameters → Result (Unit {0})
validate_ip_filter p = check_ip_filter p.dbaas.ip_filter

abbrev pub validate_maintenance_schedule : OpenSearchParameters → Result (Unit {0})
validate_maintenance_schedule p = check_maintenance p.maintenance

abbrev pub compare_zone : OpenSearch → OpenSearch → Result (Unit {0})
compare_zone old_inst new_inst =
    check_zone "field is immutable after creation: %s (old), %s (changed)"
      old_inst.for_provider.zone new_inst.for_provider.zone

-- Whether the resource has a condition of the type of Available.
unfoldable pub is_created : Crossplane → OpenSearch → Bool
unfolding find_status_condition
is_created xp i = elim (find_status_condition i.conditions xp.available.type) [
  | none ↦ false
  | some c ↦ true
]

module _ (codec : JsonCodec) where
  abbrev pub validate_settings : OpenSearchParameters → Result (Unit {0})
  validate_settings p = validate_raw_extension codec p.open_search_settings

  unfoldable pub validate_spec : OpenSearch → Result (Unit {0})
  validate_spec i =
      let p = i.for_provider in
      validate_ip_filter p >> validate_maintenance_schedule p >> validate_settings p

  -- ValidateCreate, over the answer of getAvailableVersions.
  unfoldable pub validate_create : Result (List String) → OpenSearch → Result (Unit {0})
  validate_create available i = available >>= λ versions.
      validate_versions i.for_provider.major_version versions >> validate_spec i

  module _ (lib : VersionLib) (xp : Crossplane) where
    unfoldable pub compare_version : OpenSearch → OpenSearch → Result (Unit {0})
    compare_version old_inst new_inst =
        check_version lib old_inst.at_provider.major_version old_inst.for_provider.major_version
          new_inst.for_provider.major_version

    -- compare: the zone and the version, once the resource has been created.
    unfoldable pub compare_created : OpenSearch → OpenSearch → Result (Unit {0})
    compare_created old_inst new_inst =
        let compared = compare_zone old_inst new_inst >> compare_version old_inst new_inst in
        if is_created xp old_inst then compared else ok tt

    unfoldable pub validate_update : OpenSearch → OpenSearch → Result (Unit {0})
    validate_update old_inst new_inst = validate_spec new_inst >> compare_created old_inst new_inst

unfoldable pub validate_delete : OpenSearch → Result (Unit {0})
validate_delete i = ok tt
