-- ===== src/Postgres/Laws.antt =====
-- A PostgreSQL instance that has been created is found up to date, if its external name is its name.
use provider_exoscale.Prelude.{
  ℕ, String, true, false, ◌≡◌, ◌<◌, ap, ◌∙◌, Error, wrap, ok, err, ◌==◌, if◌then◌else◌,
}
use mathlib.Core.Path.{subst}
use provider_exoscale.Prelude.Int.{pos}
use provider_exoscale.Json.{JsonCodec, RawExtension}
use provider_exoscale.Time.Format.{time_text}
use provider_exoscale.Api.{Crossplane, CaseFold}
use provider_exoscale.Managed.{ConnectionDetails, no_observation}
use provider_exoscale.Mapper.Compare.{compare_settings}
use provider_exoscale.Mapper.Versions.{VersionLib, compare_major_version}
use provider_exoscale.Mapper.Conversions.Laws.{schedule_read}
use provider_exoscale.Dbaas.{exists_as, settings_with_defaults}
use provider_exoscale.Postgres.{PostgreSql, get_instance_name, ServicePg, CreateRequest, PgApi}
use provider_exoscale.Postgres.Bodies.{
  provisioned, request_body, reported, same_fields-reported, read_back, seen, given_settings,
  defaulted, up_to_date, answered, create_accepted,
}
use provider_exoscale.Postgres.Handlers.{
  map_parameters, connection_details, from_spec_to_create_body, create, status_set, service_read,
  observe,
}

module _ {S W : Type 0} (codec : JsonCodec) (api : PgApi S W) where
  -- Create converges for an instance whose external name is empty or its name: where the body of the
  -- request can be made, the backup time is written "hh:mm:00" with an hour below 24 and a minute below
  -- 60, and Exoscale accepts the request, Create succeeds; if Exoscale then reports a service with the
  -- fields of that body and a version of the major version that is specified, its settings, certificate
  -- and connection details can be read, and the specified settings with their defaults compare equal
  -- to the reported ones, the next Observe finds the service up to date.
  pub postgres_converges :
      (xp : Crossplane) (lib : VersionLib) (u : CaseFold) (i : PostgreSql) (base : ServicePg S)
      (body : CreateRequest S) (raw ca : String) (h m : ℕ) (details : ConnectionDetails)
      (s : RawExtension) (w w' : W)
      → get_instance_name i ≡ i.name
      → from_spec_to_create_body codec api i.for_provider ≡ ok body
      → api.create_service i.name body w ≡ (w', ok tt)
      → api.get_service i.name w' ≡ ok (provisioned base body.rest)
      → api.marshal_settings body.rest.pg_settings ≡ ok raw
      → api.get_ca_certificate w' ≡ ok ca
      → connection_details codec api (provisioned base body.rest) ca w' ≡ ok details
      → settings_with_defaults codec api "pg" i.for_provider.pg_settings w' ≡ ok s
      → compare_settings codec s (record { raw = raw }) ≡ ok true
      → compare_major_version lib i.for_provider.version base.version ≡ ok true
      → i.for_provider.backup.time_of_day ≡ time_text (pos h) (pos m)
      → h < 24
      → m < 60
      → (create codec api i w ≡ (w', ok tt))
        × ((observe codec api xp lib u i w').1 ≡ ok (exists_as true details ""))
  unfolding observe
  postgres_converges xp lib u i base body raw ca h m details s w w' named sent accepted found
        encoded certified detailed filled same major printed small_h small_m =
      let spec = i.for_provider in
      let service = provisioned base body.rest in
      let read = schedule_read spec.backup.time_of_day h m printed small_h small_m in
      let (settings, built) = request_body codec api spec body h m read sent in
      let params = reported codec api spec base raw h m in
      let mapped : map_parameters codec api service spec.zone ≡ ok params =
        subst
          (λ b.
            api.marshal_settings b.pg_settings ≡ ok raw
            → map_parameters codec api (provisioned base b) spec.zone ≡ ok params)
          built (read_back codec api spec base settings raw h m) encoded in
      let (o, observation) = seen codec api base body.rest raw encoded in
      (
        create_accepted codec api i body w w' sent accepted,
        ap (λ r. (service_read codec api xp lib u i w' r).1)
              (ap (λ n. api.get_service n w') named ∙ found)
            ∙ ap (λ r. (status_set codec api xp lib u i service w' r).1) observation
            ∙ answered codec api xp lib u spec (given_settings codec api spec s) params service w'
                ca details certified mapped detailed (defaulted codec api spec w' s filled)
                (up_to_date codec api lib u (given_settings codec api spec s) params major same
                  (same_fields-reported codec api u spec base raw h m printed)),
      )

  -- With an external name that is not empty, Create makes the service under the name of the resource
  -- and Observe asks for the external name: where Exoscale accepts the request and has no service of
  -- the external name afterwards, Create succeeds and the next Observe answers that nothing is there.
  pub postgres_not_found_again :
      (xp : Crossplane) (lib : VersionLib) (u : CaseFold) (i : PostgreSql) (body : CreateRequest S)
      (e : Error) (w w' : W)
      → (i.external_name == "") ≡ false
      → from_spec_to_create_body codec api i.for_provider ≡ ok body
      → api.create_service i.name body w ≡ (w', ok tt)
      → api.get_service i.external_name w' ≡ err e
      → api.is_not_found e ≡ true
      → (create codec api i w ≡ (w', ok tt))
        × ((observe codec api xp lib u i w').1 ≡ ok no_observation)
  unfolding observe get_instance_name
  postgres_not_found_again xp lib u i body e w w' external sent accepted lost absent = (
    create_accepted codec api i body w w' sent accepted,
    ap
          (λ b.
            (service_read codec api xp lib u i w'
              (api.get_service (if b then i.name else i.external_name) w')).1)
          external
        ∙ ap (λ r. (service_read codec api xp lib u i w' r).1) lost
        ∙ ap (λ b. if b then ok no_observation else err (wrap "cannot observe pgInstance: %w" e))
            absent,
  )
