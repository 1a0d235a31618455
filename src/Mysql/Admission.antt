-- ===== src/Mysql/Admission.antt =====
-- operator/mysqlcontroller/webhook.go: the updates of a MySQL instance that the webhook admits.
use provider_exoscale.Prelude.{
  String, ◌≡◌, ◌≢◌, ◌↔◌, ◌⊎◌, [], none, ok, ◌==◌, if◌then◌else◌, >>=-eq-ok,
}
use provider_exoscale.Json.{JsonCodec, Fields, to_map}
use provider_exoscale.Time.{parse}
use provider_exoscale.Mapper.Versions.{VersionLib}
use provider_exoscale.Webhook.{validate_update_version}
use provider_exoscale.Webhook.Laws.{AllSupported}
use provider_exoscale.Dbaas.Webhook.{check_spec}
use provider_exoscale.Dbaas.Laws.{check_spec_iff, check_zone_iff, check_version_iff}
use provider_exoscale.Mysql.{MySql}
use provider_exoscale.Mysql.Webhook.{
  validate_spec, validate_immutable, validate_update, compare_version,
}

module _ (codec : JsonCodec) (lib : VersionLib) (old_inst new_inst : MySql) where
  abbrev old_version : String
  old_version =
      if old_inst.for_provider.version == ""
      then old_inst.at_provider.version
      else old_inst.for_provider.version

  -- The webhook admits an update exactly if the new IP filter is not empty, the new maintenance time
  -- parses, the new settings decode to a map of strings, numbers and Booleans only, the zone stays,
  -- and the version stays or ValidateUpdateVersion accepts it, with the observed version for an old
  -- version that is empty.
  pub mysql-admits_update_iff : (validate_update codec lib old_inst new_inst ≡ ok tt) ↔ (
      (new_inst.for_provider.dbaas.ip_filter ≢ [])
      × ((parse new_inst.for_provider.maintenance.time_of_day).3 ≡ none)
      × ((fs : Fields) × (to_map codec new_inst.for_provider.my_sql_settings ≡ ok fs)
          × AllSupported fs)
      × (old_inst.for_provider.zone ≡ new_inst.for_provider.zone)
      × ((old_inst.for_provider.version ≡ new_inst.for_provider.version)
          ⊎ (validate_update_version lib old_inst.at_provider.version old_version
                new_inst.for_provider.version
              ≡ ok tt)))
  unfolding validate_update validate_immutable validate_spec compare_version check_spec
  mysql-admits_update_iff =
      let spec = new_inst.for_provider in
      let old_spec = old_inst.for_provider in
      let specified =
        check_spec_iff codec spec.dbaas.ip_filter spec.maintenance spec.my_sql_settings in
      let zoned =
        check_zone_iff "field is immutable: %s (old), %s (changed)" old_spec.zone spec.zone
          (compare_version codec lib old_inst new_inst) in
      let versioned =
        check_version_iff lib old_inst.at_provider.version old_spec.version spec.version in
      (
        (λ h.
            let (_, valid, rest) =
              >>=-eq-ok (validate_spec codec new_inst)
                (λ u. validate_immutable codec lib old_inst new_inst) h in
            let (filter, time, settings) = specified.0 valid in
            let (zone, version) = zoned.0 rest in
            (filter, time, settings, zone, versioned.0 version)),
        (λ (filter, time, settings, zone, version).
            rw (specified.1 (filter, time, settings)) (zoned.1 (zone, versioned.1 version))),
      )
