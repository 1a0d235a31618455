-- ===== src/Mysql/Converges.antt =====
-- A MySQL instance that has been created is found up to date.
use provider_exoscale.Prelude.{
  ℕ, String, true, ◌≡◌, ◌<◌, refl, ap, ◌∙◌, List, [], Option, some, wrap, Error, ok, err, ◌++◌,
  if◌then◌else◌,
}
use provider_exoscale.Prelude.Text.{codes}
use provider_exoscale.Prelude.Int.{pos}
use provider_exoscale.Json.{JsonCodec, RawExtension}
use provider_exoscale.Time.Format.{time_text}
use provider_exoscale.Api.{Notification, Crossplane, CaseFold}
use provider_exoscale.Managed.{ConnectionDetails}
use provider_exoscale.Mapper.Compare.{compare_settings}
use provider_exoscale.Mapper.Versions.{VersionLib, compare_major_version}
use provider_exoscale.Mapper.Conversions.{to_notifications}
use provider_exoscale.Dbaas.{settings_with_defaults, submit, created, exists_as}
use provider_exoscale.Dbaas.Laws.{noted_ok, is_taken_iff}
use provider_exoscale.Mysql.{
  MySql, MySqlParameters, get_instance_name, ServiceMysql, UpdateRequest, MysqlApi,
}
use provider_exoscale.Mysql.Handlers.{
  same_fields, is_up_to_date, with_notifications, observed, map_observation, map_parameters,
  connection_details, set_settings_defaults, request, send_create, create, answer, status_set,
  service_read, observe,
}
use provider_exoscale.Mysql.Laws.{provisioned, reported, request_read}

module _ {S W : Type 0} (codec : JsonCodec) (api : MysqlApi S W) where
  abbrev with_settings : MySqlParameters → RawExtension → MySqlParameters
  with_settings spec s = record spec { my_sql_settings = s }

  defaulted :
      (spec : MySqlParameters) (w : W) (s : RawExtension)
      → settings_with_defaults codec api "mysql" spec.my_sql_settings w ≡ ok s
      → set_settings_defaults codec api spec w ≡ ok (with_settings spec s)
  unfolding set_settings_defaults
  defaulted spec w s filled = rw filled refl

  up_to_date :
      (lib : VersionLib) (u : CaseFold) (current external : MySqlParameters)
      → compare_major_version lib current.version external.version ≡ ok true
      → compare_settings codec current.my_sql_settings external.my_sql_settings ≡ ok true
      → same_fields u current external ≡ true
      → is_up_to_date codec lib u current external ≡ ok true
  unfolding is_up_to_date
  up_to_date lib u current external same_version same_settings same =
      rw (same_version, same_settings) (ap ok (rw same refl))

  answered :
      (xp : Crossplane) (lib : VersionLib) (u : CaseFold) (spec current params : MySqlParameters)
      (service : ServiceMysql S) (w : W) (ca : String) (details : ConnectionDetails)
      → api.get_ca_certificate w ≡ ok ca
      → connection_details codec api service ca w ≡ ok details
      → map_parameters codec api service spec.zone ≡ ok params
      → set_settings_defaults codec api spec w ≡ ok current
      → is_up_to_date codec lib u current params ≡ ok true
      → answer codec api xp lib u spec service w ≡ ok (exists_as true details "")
  answered xp lib u spec current params service w ca details certified detailed mapped filled same =
      rw (certified, detailed, mapped, filled, same) refl

  -- Create converges: where the body of the request can be made, the backup time is written "hh:mm:00"
  -- with an hour below 24 and a minute below 60, and Exoscale accepts the request, Create succeeds; if
  -- Exoscale then reports a service with the fields of that body and a version of the major version
  -- that is specified, its settings, notifications, certificate and connection details can be read,
  -- and the specified settings with their defaults compare equal to the reported ones, the next
  -- Observe finds the service up to date.
  pub mysql_converges :
      (xp : Crossplane) (lib : VersionLib) (u : CaseFold) (i : MySql) (base : ServiceMysql S)
      (body : UpdateRequest S) (raw ca : String) (h m : ℕ) (ns : Option (List Notification))
      (details : ConnectionDetails) (s : RawExtension) (w w' : W)
      → request codec api i.for_provider ≡ ok body
      → api.create_service
          (get_instance_name i)
          (record { version = i.for_provider.version; rest = body })
          w
        ≡ (w', ok tt)
      → api.get_service (get_instance_name i) w' ≡ ok (provisioned base body)
      → api.marshal_settings body.mysql_settings ≡ ok raw
      → to_notifications codec (some base.notifications) ≡ ok ns
      → api.get_ca_certificate w' ≡ ok ca
      → connection_details codec api (provisioned base body) ca w' ≡ ok details
      → settings_with_defaults codec api "mysql" i.for_provider.my_sql_settings w' ≡ ok s
      → compare_settings codec s (record { raw = raw }) ≡ ok true
      → compare_major_version lib i.for_provider.version base.version ≡ ok true
      → i.for_provider.backup.time_of_day ≡ time_text (pos h) (pos m)
      → h < 24
      → m < 60
      → (create codec api i w ≡ (w', ok tt))
        × ((observe codec api xp lib u i w').1 ≡ ok (exists_as true details ""))
  unfolding create observe map_observation
  mysql_converges xp lib u i base body raw ca h m ns details s w w' sent accepted found encoded
        notes certified detailed filled same major printed small_h small_m =
      let spec = i.for_provider in
      let service = provisioned base body in
      let (mapped, agreed) =
        request_read codec api u spec base body raw h m sent encoded printed small_h small_m in
      let params = reported codec api spec base raw h m in
      let (o, noted_as) =
        noted_ok (with_notifications codec api service raw body.maintenance)
          (with_notifications codec api service raw body.maintenance [])
          (to_notifications codec (some base.notifications)) notes in
      (
        ap (λ r. submit r (send_create codec api i) w) sent
            ∙ ap (created api.error_text (wrap "cannot create mySQLInstance: %w")) accepted,
        ap (λ r. (service_read codec api xp lib u i w' r).1) found
            ∙ ap (λ r. (status_set codec api xp lib u i service w' r).1)
                (ap (observed codec api service) encoded ∙ noted_as)
            ∙ answered xp lib u spec (with_settings spec s) params service w' ca details certified
                detailed mapped (defaulted spec w' s filled)
                (up_to_date lib u (with_settings spec s) params major same agreed),
      )

  -- A name that is taken does not fail Create: where the body of the request can be made and the text
  -- of Exoscale's error has the phrase "Service name is already taken" in it, whatever stands before
  -- and after it, Create answers without an error.
  pub create_taken :
      (i : MySql) (body : UpdateRequest S) (e : Error) (pre post : List ℕ) (w w' : W)
      → request codec api i.for_provider ≡ ok body
      → api.create_service
          (get_instance_name i)
          (record { version = i.for_provider.version; rest = body })
          w
        ≡ (w', err e)
      → codes (api.error_text e) ≡ pre ++ (codes "Service name is already taken" ++ post)
      → create codec api i w ≡ (w', ok tt)
  unfolding create
  create_taken i body e pre post w w' sent refused phrase =
      ap (λ r. submit r (send_create codec api i) w) sent
      ∙ ap (created api.error_text (wrap "cannot create mySQLInstance: %w")) refused
      ∙ ap (λ b. (w', if b then ok tt else err (wrap "cannot create mySQLInstance: %w" e)))
          ((is_taken_iff api.error_text e).1 (pre, post, phrase))
