-- ===== src/Dbaas/Webhook.antt =====
-- The checks of the webhooks for databases: webhook.go of operator/mysqlcontroller, and of the other
-- four controllers, which repeat it.
use provider_exoscale.Prelude.{
  String, not, List, [], ◌∷◌, Option, none, some, Error, msg, wrap, Result, ok, err, map_err, ◌>>=◌,
  ◌>>◌, ◌==◌, if◌then◌else◌,
}
use provider_exoscale.Json.{JsonCodec, RawExtension}
use provider_exoscale.Time.{parse}
use provider_exoscale.Api.{MaintenanceSpec}
use provider_exoscale.Mapper.Versions.{VersionLib}
use provider_exoscale.Webhook.{validate_raw_extension, validate_update_version}

abbrev pub check_ip_filter : List String → Result (Unit {0})
check_ip_filter [] = err (msg "IP filter cannot be empty" [])
check_ip_filter (a ∷ as') = ok tt

abbrev pub error_or_ok : Option Error → Result (Unit {0})
error_or_ok none = ok tt
error_or_ok (some e) = err e

abbrev pub check_maintenance : MaintenanceSpec → Result (Unit {0})
check_maintenance m = error_or_ok (parse m.time_of_day).3

-- The three checks of validateSpec, in their order.
unfoldable pub check_spec :
    JsonCodec → List String → MaintenanceSpec → RawExtension → Result (Unit {0})
check_spec codec ip_filter maintenance settings =
    check_ip_filter ip_filter
    >> check_maintenance maintenance
    >> validate_raw_extension codec settings

abbrev pub check_zone : String → String → String → Result (Unit {0})
check_zone text old_zone new_zone =
    if not (old_zone == new_zone) then err (msg text (old_zone ∷ new_zone ∷ [])) else ok tt

-- compareVersion, on the observed, the old and the new version.
unfoldable pub check_version : VersionLib → String → String → String → Result (Unit {0})
check_version lib observed old_version new_version =
    if old_version == new_version
    then ok tt
    else validate_update_version lib observed (if old_version == "" then observed else old_version)
        new_version

abbrev pub found_versions : Error → Option (List String) → Result (List String)
found_versions missing none = err missing
found_versions missing (some vs) = ok vs

-- getAvailableVersions, over the connection; `service_type` is GetDBAASServiceType: the versions that
-- it names, or nil.
unfoldable pub available_versions :
    {E : Type 0}
    → Result E
    → (E → String → Result (Option (List String)))
    → String
    → Error
    → Result (List String)
available_versions connection service_type name missing =
    map_err (wrap "open exoscale client failed: %w") connection >>= λ exo.
    map_err (wrap "get DBaaS service type failed: %w") (service_type exo name)
    >>= found_versions missing
