-- ===== src/Dbaas/Creation.antt =====
-- The creations of a database that the webhooks admit: ValidateCreate of webhook.go in
-- operator/mysqlcontroller, operator/postgresqlcontroller and operator/opensearchcontroller.
use provider_exoscale.Prelude.{
  String, ◌≡◌, ◌≢◌, ◌↔◌, refl, sym, List, [], none, Result, ok, err, panic, ◌>>=◌, ◌>>◌, >>=-eq-ok,
}
use mathlib.Core.List.{Memᴰ}
use mathlib.Core.Path.{subst}
use provider_exoscale.Json.{Fields, RawExtension, JsonCodec, to_map}
use provider_exoscale.Time.{parse}
use provider_exoscale.Api.{MaintenanceSpec}
use provider_exoscale.Webhook.{validate_versions}
use provider_exoscale.Webhook.Laws.{AllSupported, validate_versions_iff}
use provider_exoscale.Dbaas.Webhook.{check_spec}
use provider_exoscale.Dbaas.Laws.{check_spec_iff, ok-injective}

module _ (codec : JsonCodec) where
  -- The settings are empty, or the decoder reads them as a map of supported values.
  abbrev pub Readable : RawExtension → Type 0
  Readable s = (fs : Fields) × (to_map codec s ≡ ok fs) × AllSupported fs

  -- What a creation asks for: a version that is offered, a filter, a time of day and settings.
  abbrev pub Creatable :
      Result (List String) → String → List String → MaintenanceSpec → RawExtension → Type 0
  Creatable available wanted ip_filter m s =
      ((versions : List String) × (available ≡ ok versions) × (wanted ≢ "") × Memᴰ wanted versions)
      × (ip_filter ≢ [])
      × ((parse m.time_of_day).3 ≡ none)
      × Readable s

  pub create_checks_iff :
      (available : Result (List String)) (wanted : String) (ip_filter : List String)
      (m : MaintenanceSpec) (s : RawExtension)
      → ((available >>= λ versions.
            validate_versions wanted versions >> check_spec codec ip_filter m s)
          ≡ ok tt)
        ↔ Creatable available wanted ip_filter m s
  create_checks_iff (ok versions) wanted ip_filter m s =
      let specified = check_spec_iff codec ip_filter m s in
      let offered = validate_versions_iff wanted versions in
      (
        (λ h.
            let (u, admitted, valid) =
              >>=-eq-ok (validate_versions wanted versions) (λ u. check_spec codec ip_filter m s)
                h in
            let (named, found) = offered.0 admitted in
            let (filter, time, settings) = specified.0 valid in
            ((versions, refl, named, found), filter, time, settings)),
        (λ ((vs, same, named, found), filter, time, settings).
            let offers = subst (Memᴰ wanted) (sym (ok-injective same)) found in
            rw (offered.1 (named, offers)) (specified.1 (filter, time, settings))),
      )
  create_checks_iff (err e) wanted ip_filter m s =
      ((λ h. cc), (λ ((vs, same, named, found), filter, time, settings). cc))
  create_checks_iff (panic p) wanted ip_filter m s =
      ((λ h. cc), (λ ((vs, same, named, found), filter, time, settings). cc))
