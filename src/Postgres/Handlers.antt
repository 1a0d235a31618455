-- ===== src/Postgres/Handlers.antt =====
-- operator/postgresqlcontroller: observe.go, create.go, update.go, delete.go and settings.go.
use provider_exoscale.Prelude.{
  String, Bool, ◌&&◌, [], ◌∷◌, Option, none, some, Error, msg, wrap, Result, ok, err, panic,
  map_err, ◌>>=◌,
}
use provider_exoscale.Json.{JsonCodec, bool_eq}
use provider_exoscale.Api.{Crossplane, CaseFold, equals_maintenance, equals_backup, equals_size}
use provider_exoscale.Managed.{ConnectionDetails, ExternalObservation}
use provider_exoscale.Mapper.Sets.{is_same_string_set}
use provider_exoscale.Mapper.Compare.{compare_settings}
use provider_exoscale.Mapper.Versions.{VersionLib, compare_major_version}
use provider_exoscale.Mapper.Conversions.{
  BackupSchedule, ServiceMaintenance, deref_false, to_backup_schedule, to_backup_spec,
  to_node_states,
}
use provider_exoscale.Dbaas.{
  empty_parameters, or_nil, trim_slash, set_state, major_matches, deref_maintenance, first_uri,
  or_given, submit, map_sent, created, absent_or, exists_as, settings_with_defaults,
  decoded_settings,
}
use provider_exoscale.Postgres.{
  PostgreSqlParameters, PostgreSqlObservation, PostgreSql, get_instance_name, ServicePg,
  variant_aiven, UpdateRequest, CreateRequest, PgApi,
}

-- PostgreSQLObservation{}.
abbrev pub empty_observation : PostgreSqlObservation
empty_observation = record {
  dbaas = empty_parameters;
  version = "";
  maintenance = record { day_of_week = ""; time_of_day = "" };
  backup = record { time_of_day = "" };
  node_states = [];
  pg_settings = record { raw = "" };
}

-- The checks of isUpToDate whose comparison cannot panic. The zone is not among them.
abbrev pub same_fields : CaseFold → PostgreSqlParameters → PostgreSqlParameters → Bool
same_fields u current external =
    is_same_string_set current.dbaas.ip_filter (some external.dbaas.ip_filter)
    && (equals_maintenance current.maintenance external.maintenance
        && (equals_backup current.backup external.backup
            && (equals_size u current.dbaas.size external.dbaas.size
                && bool_eq current.dbaas.termination_protection
                    external.dbaas.termination_protection)))

-- isUpToDate, on an external state that is not nil.
unfoldable pub is_up_to_date :
    JsonCodec → VersionLib → CaseFold → PostgreSqlParameters → PostgreSqlParameters → Result Bool
is_up_to_date codec lib u current external =
    major_matches (compare_major_version lib current.version external.version) >>= λ same_version.
    compare_settings codec current.pg_settings external.pg_settings >>= λ same_settings.
    ok (same_fields u current external && (same_version && same_settings))

abbrev pub schedule_or_error : BackupSchedule × Option Error → Result BackupSchedule
schedule_or_error (schedule, none) = ok schedule
schedule_or_error (schedule, some e) = err (wrap "invalid backup schedule: %w" e)

module _ {S W : Type 0} (codec : JsonCodec) (api : PgApi S W) where
  abbrev pub observation_of :
      ServicePg S → String → Result ServiceMaintenance → Result PostgreSqlObservation
  observation_of i raw r = r >>= λ m. ok (record {
    dbaas = record {
      termination_protection = deref_false i.termination_protection;
      size = record { plan = i.plan };
      ip_filter = i.ip_filter;
    };
    version = i.version;
    maintenance = record { day_of_week = m.dow; time_of_day = m.time };
    backup = to_backup_spec i.backup_schedule;
    node_states = or_nil (to_node_states (some i.node_states));
    pg_settings = record { raw = raw };
  })

  abbrev pub observed : ServicePg S → Result String → Result PostgreSqlObservation
  observed i (err e) = err (msg "error parsing PgSettings" [])
  observed i (panic p) = panic p
  observed i (ok raw) = observation_of i raw (deref_maintenance i.maintenance)

  -- mapObservation.
  unfoldable pub map_observation : ServicePg S → Result PostgreSqlObservation
  map_observation i = observed i (api.marshal_settings i.pg_settings)

  -- mapParameters.
  unfoldable pub map_parameters : ServicePg S → String → Result PostgreSqlParameters
  map_parameters i zone =
      map_err (wrap "cannot parse pgInstance settings: %w") (api.marshal_settings i.pg_settings)
      >>= λ raw. deref_maintenance i.maintenance >>= λ m. ok (record {
        maintenance = record { day_of_week = m.dow; time_of_day = m.time };
        backup = to_backup_spec i.backup_schedule;
        zone = zone;
        dbaas = record {
          termination_protection = deref_false i.termination_protection;
          size = record { plan = i.plan };
          ip_filter = i.ip_filter;
        };
        version = i.version;
        pg_settings = record { raw = raw };
      })

  abbrev url_details : String → String → W → ServicePg S → Result ConnectionDetails
  url_details uri ca w i = do
    parsed ← map_err (wrap "cannot parse connection URL: %w") (api.parse_url uri)
    password ←
        map_err (wrap "cannot reveal password for PostgreSQL instance: %w")
          (api.reveal_user_password i.name parsed.username w)
    ok (
        ("POSTGRESQL_USER", parsed.username)
        ∷ ("POSTGRESQL_PASSWORD", password)
        ∷ ("POSTGRESQL_URL", uri)
        ∷ ("POSTGRESQL_DB", trim_slash parsed.path)
        ∷ ("POSTGRESQL_HOST", parsed.hostname)
        ∷ ("POSTGRESQL_PORT", parsed.port)
        ∷ ("ca.crt", ca)
        ∷ [])

  -- connectionDetails.
  unfoldable pub connection_details : ServicePg S → String → W → Result ConnectionDetails
  connection_details i ca w = elim (first_uri i.uri i.connection_info) [
    | none ↦ ok []
    | some uri ↦ url_details uri ca w i
  ]

  -- setSettingsDefaults, with fetchSettingSchema.
  unfoldable pub set_settings_defaults : PostgreSqlParameters → W → Result PostgreSqlParameters
  unfolding settings_with_defaults
  set_settings_defaults params w =
      settings_with_defaults codec api "pg" params.pg_settings w >>= λ settings.
      ok (record params { pg_settings = settings })

  abbrev pub body_with : PostgreSqlParameters → BackupSchedule → S → UpdateRequest S
  body_with spec schedule settings = record {
    plan = spec.dbaas.size.plan;
    backup_schedule = schedule;
    variant = variant_aiven;
    termination_protection = spec.dbaas.termination_protection;
    maintenance = record {
      dow = spec.maintenance.day_of_week;
      time = spec.maintenance.time_of_day;
    };
    ip_filter = spec.dbaas.ip_filter;
    pg_settings = settings;
  }

  abbrev pub with_settings : PostgreSqlParameters → BackupSchedule → Result (UpdateRequest S)
  with_settings spec schedule =
      decoded_settings codec api (wrap "invalid pgsettings: %w") spec.pg_settings.raw
      >>= λ settings. ok (body_with spec schedule settings)

  unfoldable pub from_spec_to_update_body : PostgreSqlParameters → Result (UpdateRequest S)
  from_spec_to_update_body spec =
      schedule_or_error (to_backup_schedule spec.backup.time_of_day) >>= with_settings spec

  unfoldable pub from_spec_to_create_body : PostgreSqlParameters → Result (CreateRequest S)
  from_spec_to_create_body spec =
      schedule_or_error (to_backup_schedule spec.backup.time_of_day)
      >>= with_settings spec
      >>= λ body. ok (record { version = spec.version; rest = body })

  -- Create and Update name the service after the resource.
  abbrev pub send_create : PostgreSql → CreateRequest S → W → W × Result (Unit {0})
  send_create i body w =
      created api.error_text (wrap "cannot create instance") (api.create_service i.name body w)

  unfoldable pub create : PostgreSql → W → W × Result (Unit {0})
  create i =
      submit
        (map_err (wrap "cannot map spec to API request") (from_spec_to_create_body i.for_provider))
        (send_create i)

  abbrev pub send_update : PostgreSql → UpdateRequest S → W → W × Result (Unit {0})
  send_update i body w = map_sent (wrap "cannot update instance") (api.update_service i.name body w)

  unfoldable pub update : PostgreSql → W → W × Result (Unit {0})
  update i =
      submit
        (map_err (wrap "cannot map spec to API request") (from_spec_to_update_body i.for_provider))
        (send_update i)

  unfoldable pub delete : PostgreSql → W → W × Result (Unit {0})
  delete i w =
      map_sent (wrap "cannot delete instance: %w") (api.delete_service (get_instance_name i) w)

  module _ (xp : Crossplane) (lib : VersionLib) (u : CaseFold) where
    -- The observation, once the status is set.
    abbrev pub answer : PostgreSqlParameters → ServicePg S → W → Result ExternalObservation
    answer given service w =
        map_err (wrap "cannot retrieve CA certificate") (api.get_ca_certificate w) >>= λ ca.
        map_parameters service given.zone >>= λ params.
        map_err (wrap "cannot read connection details") (connection_details service ca w)
        >>= λ details. or_given given (set_settings_defaults given w) >>= λ current.
            is_up_to_date codec lib u current params >>= λ same. ok (exists_as same details "")

    -- An error of mapObservation leaves the empty observation in the status.
    abbrev pub status_set :
        PostgreSql
        → ServicePg S
        → W
        → Result PostgreSqlObservation
        → PostgreSql × Result ExternalObservation
    status_set i service w (ok o) = (
      record i { at_provider = o; conditions = set_state xp service.state i.conditions },
      answer i.for_provider service w,
    )
    status_set i service w (err e) =
        (record i { at_provider = empty_observation }, err (wrap "cannot parse instance status" e))
    status_set i service w (panic p) = (i, panic p)

    -- What follows GetDBAASServicePG.
    abbrev pub service_read :
        PostgreSql → W → Result (ServicePg S) → PostgreSql × Result ExternalObservation
    service_read i w (ok service) = status_set i service w (map_observation service)
    service_read i w (err e) =
        (i, absent_or api.is_not_found (wrap "cannot observe pgInstance: %w") e)
    service_read i w (panic p) = (i, panic p)

    -- Observe; no call of it changes the service.
    unfoldable pub observe : PostgreSql → W → PostgreSql × Result ExternalObservation
    observe i w = service_read i w (api.get_service (get_instance_name i) w)
