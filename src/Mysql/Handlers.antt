-- ===== src/Mysql/Handlers.antt =====
-- operator/mysqlcontroller: observe.go, create.go, update.go, delete.go and settings.go.
use provider_exoscale.Prelude.{
  String, Bool, ◌&&◌, List, [], ◌∷◌, Option, none, some, Error, wrap, Result, ok, err, panic,
  nil_deref, map_err, ◌>>=◌, ◌==◌,
}
use provider_exoscale.Json.{JsonCodec, bool_eq}
use provider_exoscale.Api.{Notification, Crossplane, CaseFold, equals_maintenance, equals_size}
use provider_exoscale.Managed.{ConnectionDetails, ExternalObservation}
use provider_exoscale.Mapper.Sets.{is_same_string_set}
use provider_exoscale.Mapper.Compare.{compare_settings}
use provider_exoscale.Mapper.Versions.{VersionLib, compare_major_version}
use provider_exoscale.Mapper.Conversions.{
  BackupSchedule, ServiceMaintenance, to_backup_schedule, to_backup_spec, to_dbaas_parameters,
  to_maintenance, to_node_states, to_notifications,
}
use provider_exoscale.Dbaas.{
  trim_slash, empty_parameters, or_nil, set_state, major_matches, deref_maintenance, first_uri,
  or_given, noted, submit, map_sent, created, absent_or, exists_as, settings_with_defaults,
  decoded_settings,
}
use provider_exoscale.Mysql.{
  MySqlParameters, MySqlObservation, MySql, get_instance_name, ServiceMysql, UpdateRequest,
  MysqlApi,
}

-- MySqlObservation{}.
abbrev pub empty_observation : MySqlObservation
empty_observation = record {
  dbaas = empty_parameters;
  version = "";
  maintenance = record { day_of_week = ""; time_of_day = "" };
  backup = record { time_of_day = "" };
  node_states = [];
  my_sql_settings = record { raw = "" };
  notifications = [];
}

-- The checks of isUpToDate whose comparison cannot panic.
abbrev pub same_fields : CaseFold → MySqlParameters → MySqlParameters → Bool
same_fields u current external =
    equals_maintenance current.maintenance external.maintenance
    && (current.backup.time_of_day == external.backup.time_of_day
        && (current.zone == external.zone
            && (is_same_string_set current.dbaas.ip_filter (some external.dbaas.ip_filter)
                && (equals_size u current.dbaas.size external.dbaas.size
                    && bool_eq current.dbaas.termination_protection
                        external.dbaas.termination_protection))))

module _ (codec : JsonCodec) (lib : VersionLib) (u : CaseFold) where
  -- isUpToDate, on an external state that is not nil.
  unfoldable pub is_up_to_date : MySqlParameters → MySqlParameters → Result Bool
  unfolding compare_major_version
  is_up_to_date current external =
      major_matches (compare_major_version lib current.version external.version) >>= λ same_version.
      compare_settings codec current.my_sql_settings external.my_sql_settings >>= λ same_settings.
      ok (same_fields u current external && (same_version && same_settings))

-- *tp.
abbrev deref : Option Bool → Result Bool
deref none = panic nil_deref
deref (some b) = ok b

abbrev pub schedule_or_error : BackupSchedule × Option Error → Result BackupSchedule
schedule_or_error (schedule, none) = ok schedule
schedule_or_error (schedule, some e) = err (wrap "cannot parse mySQLInstance backup schedule: %w" e)

module _ {S W : Type 0} (codec : JsonCodec) (api : MysqlApi S W) where
  -- The observation with its notifications.
  abbrev pub with_notifications :
      ServiceMysql S → String → ServiceMaintenance → List Notification → MySqlObservation
  with_notifications i raw m ns = record {
    dbaas = to_dbaas_parameters i.termination_protection i.plan (some i.ip_filter);
    version = i.version;
    maintenance = to_maintenance m;
    backup = to_backup_spec i.backup_schedule;
    node_states = or_nil (to_node_states i.node_states);
    my_sql_settings = record { raw = raw };
    notifications = ns;
  }

  abbrev pub observation_of :
      ServiceMysql S → String → Result ServiceMaintenance → Result MySqlObservation
  observation_of i raw r = r >>= λ m.
      noted (with_notifications i raw m) (with_notifications i raw m [])
        (to_notifications codec (some i.notifications))

  abbrev pub observed : ServiceMysql S → Result String → Result MySqlObservation
  observed i (err e) = ok empty_observation
  observed i (panic p) = panic p
  observed i (ok raw) = observation_of i raw (deref_maintenance i.maintenance)

  -- mapObservation, with what its caller keeps of it: the returned error is logged only.
  unfoldable pub map_observation : ServiceMysql S → Result MySqlObservation
  map_observation i = observed i (api.marshal_settings i.mysql_settings)

  -- mapParameters.
  unfoldable pub map_parameters : ServiceMysql S → String → Result MySqlParameters
  map_parameters i zone =
      map_err (wrap "cannot parse mysqlInstance settings: %w")
        (api.marshal_settings i.mysql_settings)
      >>= λ raw. deref_maintenance i.maintenance >>= λ m. deref i.termination_protection >>= λ tp.
          ok (record {
            maintenance = record { day_of_week = m.dow; time_of_day = m.time };
            backup = to_backup_spec i.backup_schedule;
            zone = zone;
            version = i.version;
            dbaas = record {
              termination_protection = tp;
              size = record { plan = i.plan };
              ip_filter = i.ip_filter;
            };
            my_sql_settings = record { raw = raw };
          })

  abbrev url_details : String → String → W → ServiceMysql S → Result ConnectionDetails
  url_details uri ca w i = do
    parsed ← map_err (wrap "cannot parse connection URI: %w") (api.parse_url uri)
    password ←
        map_err (wrap "cannot reveal password for MySQL instance: %w")
          (api.reveal_user_password i.name parsed.username w)
    ok (
        ("MYSQL_USER", parsed.username)
        ∷ ("MYSQL_PASSWORD", password)
        ∷ ("MYSQL_URL", uri)
        ∷ ("MYSQL_DB", trim_slash parsed.path)
        ∷ ("MYSQL_HOST", parsed.hostname)
        ∷ ("MYSQL_PORT", parsed.port)
        ∷ ("ca.crt", ca)
        ∷ [])

  -- connectionDetails.
  unfoldable pub connection_details : ServiceMysql S → String → W → Result ConnectionDetails
  connection_details i ca w = elim (first_uri i.uri i.connection_info) [
    | none ↦ ok []
    | some uri ↦ url_details uri ca w i
  ]

  -- setSettingsDefaults, with fetchSettingSchema.
  unfoldable pub set_settings_defaults : MySqlParameters → W → Result MySqlParameters
  unfolding settings_with_defaults
  set_settings_defaults params w =
      settings_with_defaults codec api "mysql" params.my_sql_settings w >>= λ settings.
      ok (record params { my_sql_settings = settings })

  abbrev pub body_with : MySqlParameters → S → BackupSchedule → UpdateRequest S
  body_with spec settings schedule = record {
    maintenance = record {
      dow = spec.maintenance.day_of_week;
      time = spec.maintenance.time_of_day;
    };
    backup_schedule = schedule;
    termination_protection = spec.dbaas.termination_protection;
    plan = spec.dbaas.size.plan;
    ip_filter = spec.dbaas.ip_filter;
    mysql_settings = settings;
  }

  abbrev pub scheduled : MySqlParameters → S → Result (UpdateRequest S)
  scheduled spec settings =
      schedule_or_error (to_backup_schedule spec.backup.time_of_day) >>= λ schedule.
      ok (body_with spec settings schedule)

  -- The body of Create and of Update.
  abbrev pub request : MySqlParameters → Result (UpdateRequest S)
  request spec =
      decoded_settings codec api (wrap "cannot map mySQLInstance settings: %w")
        spec.my_sql_settings.raw
      >>= scheduled spec

  abbrev pub send_create : MySql → UpdateRequest S → W → W × Result (Unit {0})
  send_create i body w = created api.error_text (wrap "cannot create mySQLInstance: %w") (
      api.create_service (get_instance_name i)
        (record { version = i.for_provider.version; rest = body }) w)

  unfoldable pub create : MySql → W → W × Result (Unit {0})
  create i = submit (request i.for_provider) (send_create i)

  abbrev pub send_update : MySql → UpdateRequest S → W → W × Result (Unit {0})
  send_update i body w =
      map_sent (wrap "cannot update mySQLInstance: %w")
        (api.update_service (get_instance_name i) body w)

  unfoldable pub update : MySql → W → W × Result (Unit {0})
  update i = submit (request i.for_provider) (send_update i)

  unfoldable pub delete : MySql → W → W × Result (Unit {0})
  delete i w =
      map_sent (wrap "cannot delete mySQLInstance: %w") (api.delete_service (get_instance_name i) w)

  module _ (xp : Crossplane) (lib : VersionLib) (u : CaseFold) where
    -- The observation, once the status is set.
    abbrev pub answer : MySqlParameters → ServiceMysql S → W → Result ExternalObservation
    answer given service w = do
      ca ← map_err (wrap "cannot retrieve CA certificate: %w") (api.get_ca_certificate w)
      details ←
          map_err (wrap "cannot parse connection details: %w") (connection_details service ca w)
      params ← map_err (wrap "cannot parse parameters: %w") (map_parameters service given.zone)
      current ← or_given given (set_settings_defaults given w)
      same ← is_up_to_date codec lib u current params
      ok (exists_as same details "")

    abbrev pub status_set :
        MySql → ServiceMysql S → W → Result MySqlObservation → MySql × Result ExternalObservation
    status_set i service w (ok o) = (
      record i { at_provider = o; conditions = set_state xp service.state i.conditions },
      answer i.for_provider service w,
    )
    status_set i service w (err e) = (i, err e)
    status_set i service w (panic p) = (i, panic p)

    -- What follows GetDBAASServiceMysql.
    abbrev pub service_read :
        MySql → W → Result (ServiceMysql S) → MySql × Result ExternalObservation
    service_read i w (ok service) = status_set i service w (map_observation service)
    service_read i w (err e) =
        (i, absent_or api.is_not_found (wrap "cannot observe mySQLInstance: %w") e)
    service_read i w (panic p) = (i, panic p)

    -- Observe; no call of it changes the service.
    unfoldable pub observe : MySql → W → MySql × Result ExternalObservation
    observe i w = service_read i w (api.get_service (get_instance_name i) w)
