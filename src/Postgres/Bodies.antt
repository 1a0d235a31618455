-- ===== src/Postgres/Bodies.antt =====
-- What a PostgreSQL instance sends, and what is read back of it.
use provider_exoscale.Prelude.{
  ℕ, String, true, ◌≡◌, refl, sym, ap, ◌∙◌, none, some, wrap, ok, map_err, ◌>>=◌, >>=-eq-ok, eq_iff,
  eq_refl,
}
use provider_exoscale.Prelude.Int.{pos}
use provider_exoscale.Json.{JsonCodec, RawExtension}
use provider_exoscale.Time.Format.{time_text}
use provider_exoscale.Api.{Crossplane, CaseFold, equals_maintenance, equals_backup}
use provider_exoscale.Managed.{ConnectionDetails}
use provider_exoscale.Mapper.Compare.{compare_settings}
use provider_exoscale.Mapper.Versions.{VersionLib, compare_major_version}
use provider_exoscale.Mapper.Conversions.{BackupSchedule, to_backup_schedule, to_backup_spec}
use provider_exoscale.Dbaas.{created, decoded_settings, exists_as, settings_with_defaults, submit}
use provider_exoscale.Dbaas.Laws.{
  equals_size_refl, bool_eq_refl, is_same_string_set_refl, ok-injective,
}
use provider_exoscale.Postgres.{
  PostgreSqlParameters, PostgreSqlObservation, PostgreSql, ServicePg, UpdateRequest, CreateRequest,
  PgApi,
}
use provider_exoscale.Postgres.Handlers.{
  same_fields, is_up_to_date, schedule_or_error, observed, map_observation, map_parameters,
  connection_details, set_settings_defaults, body_with, with_settings, from_spec_to_create_body,
  send_create, create, answer,
}

-- A service that has been given a request: it reports the fields of the request, and the rest of
-- what it reports is that of `base`.
abbrev pub provisioned : {S : Type 0} → ServicePg S → UpdateRequest S → ServicePg S
provisioned base body = record base {
  maintenance = some body.maintenance;
  backup_schedule = some body.backup_schedule;
  termination_protection = some body.termination_protection;
  plan = body.plan;
  ip_filter = body.ip_filter;
  pg_settings = body.pg_settings;
}

module _ {S W : Type 0} (codec : JsonCodec) (api : PgApi S W) where
  abbrev pub schedule_at : ℕ → ℕ → BackupSchedule
  schedule_at h m = record { backup_hour = pos h; backup_minute = pos m }

  pub request_body :
      (spec : PostgreSqlParameters) (body : CreateRequest S) (h m : ℕ)
      → to_backup_schedule spec.backup.time_of_day ≡ (schedule_at h m, none)
      → from_spec_to_create_body codec api spec ≡ ok body
      → (settings : S) × (body_with codec api spec (schedule_at h m) settings ≡ body.rest)
  unfolding from_spec_to_create_body
  request_body spec body h m read sent =
      let (rest, made, last) =
        >>=-eq-ok
          (schedule_or_error (to_backup_schedule spec.backup.time_of_day)
            >>= with_settings codec api spec)
          (λ r. ok (record { version = spec.version; rest = r })) sent in
      let (schedule, taken, next) =
        >>=-eq-ok (schedule_or_error (to_backup_schedule spec.backup.time_of_day))
          (with_settings codec api spec) made in
      let (settings, _, built) =
        >>=-eq-ok (decoded_settings codec api (wrap "invalid pgsettings: %w") spec.pg_settings.raw)
          (λ settings. ok (body_with codec api spec schedule settings)) next in
      (
        settings,
        ap (λ t. body_with codec api spec t settings)
              (ok-injective (sym (ap schedule_or_error read) ∙ taken))
            ∙ ok-injective built
            ∙ ap (λ c. c.rest) (ok-injective last),
      )

  -- What a service with such a body reports.
  abbrev pub reported : PostgreSqlParameters → ServicePg S → String → ℕ → ℕ → PostgreSqlParameters
  reported spec base raw h m = record spec {
    backup = record { time_of_day = time_text (pos h) (pos m) };
    version = base.version;
    pg_settings = record { raw = raw };
  }

  pub same_fields-reported :
      (u : CaseFold) (spec : PostgreSqlParameters) (base : ServicePg S) (raw : String) (h m : ℕ)
      → spec.backup.time_of_day ≡ time_text (pos h) (pos m)
      → same_fields u spec (reported spec base raw h m) ≡ true
  unfolding equals_maintenance equals_backup
  same_fields-reported u spec base raw h m printed =
      rw
        (
          is_same_string_set_refl spec.dbaas.ip_filter,
          eq_refl spec.maintenance.day_of_week,
          eq_refl spec.maintenance.time_of_day,
          (eq_iff spec.backup.time_of_day (time_text (pos h) (pos m))).1 printed,
          equals_size_refl u spec.dbaas.size,
          bool_eq_refl spec.dbaas.termination_protection,
        )
        refl

  pub read_back :
      (spec : PostgreSqlParameters) (base : ServicePg S) (settings : S) (raw : String) (h m : ℕ)
      → api.marshal_settings settings ≡ ok raw
      → map_parameters codec api
          (provisioned base (body_with codec api spec (schedule_at h m) settings))
          spec.zone
        ≡ ok (reported spec base raw h m)
  unfolding map_parameters to_backup_spec
  read_back spec base settings raw h m encoded = rw encoded refl

  pub seen :
      (service : ServicePg S) (body : UpdateRequest S) (raw : String)
      → api.marshal_settings body.pg_settings ≡ ok raw
      → (o : PostgreSqlObservation) × (map_observation codec api (provisioned service body) ≡ ok o)
  unfolding map_observation
  seen service body raw encoded = (_, ap (observed codec api (provisioned service body)) encoded)

  abbrev pub given_settings : PostgreSqlParameters → RawExtension → PostgreSqlParameters
  given_settings spec s = record spec { pg_settings = s }

  pub defaulted :
      (spec : PostgreSqlParameters) (w : W) (s : RawExtension)
      → settings_with_defaults codec api "pg" spec.pg_settings w ≡ ok s
      → set_settings_defaults codec api spec w ≡ ok (given_settings spec s)
  unfolding set_settings_defaults
  defaulted spec w s filled = rw filled refl

  pub up_to_date :
      (lib : VersionLib) (u : CaseFold) (current external : PostgreSqlParameters)
      → compare_major_version lib current.version external.version ≡ ok true
      → compare_settings codec current.pg_settings external.pg_settings ≡ ok true
      → same_fields u current external ≡ true
      → is_up_to_date codec lib u current external ≡ ok true
  unfolding is_up_to_date
  up_to_date lib u current external same_version same_settings same =
      rw (same_version, same_settings) (ap ok (rw same refl))

  pub answered :
      (xp : Crossplane) (lib : VersionLib) (u : CaseFold)
      (spec current params : PostgreSqlParameters) (service : ServicePg S) (w : W) (ca : String)
      (details : ConnectionDetails)
      → api.get_ca_certificate w ≡ ok ca
      → map_parameters codec api service spec.zone ≡ ok params
      → connection_details codec api service ca w ≡ ok details
      → set_settings_defaults codec api spec w ≡ ok current
      → is_up_to_date codec lib u current params ≡ ok true
      → answer codec api xp lib u spec service w ≡ ok (exists_as true details "")
  answered xp lib u spec current params service w ca details certified mapped detailed filled same =
      rw (certified, mapped, detailed, filled, same) refl

  pub create_accepted :
      (i : PostgreSql) (body : CreateRequest S) (w w' : W)
      → from_spec_to_create_body codec api i.for_provider ≡ ok body
      → api.create_service i.name body w ≡ (w', ok tt)
      → create codec api i w ≡ (w', ok tt)
  unfolding create
  create_accepted i body w w' sent accepted =
      ap
        (λ r.
          submit (map_err (wrap "cannot map spec to API request") r) (send_create codec api i) w)
        sent
      ∙ ap (created api.error_text (wrap "cannot create instance")) accepted
