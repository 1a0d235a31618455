-- ===== src/Redis/Handlers.antt =====
-- operator/rediscontroller: observe.go, create.go, update.go, delete.go and settings.go.
use provider_exoscale.Prelude.{
  String, Bool, ◌&&◌, List, [], ◌∷◌, none, some, wrap, Result, ok, err, panic, map_err, ◌>>=◌,
}
use provider_exoscale.Json.{JsonCodec, bool_eq}
use provider_exoscale.Api.{Notification, Crossplane, CaseFold, equals_maintenance, equals_size}
use provider_exoscale.Managed.{ConnectionDetails, ExternalObservation}
use provider_exoscale.Mapper.Sets.{is_same_string_set}
use provider_exoscale.Mapper.Compare.{compare_settings}
use provider_exoscale.Mapper.Conversions.{deref_false, to_node_states, to_notifications}
use provider_exoscale.Dbaas.{
  or_nil, set_state, deref_maintenance, first_uri, or_given, noted, submit, map_sent, created,
  absent_or, exists_as, settings_with_defaults, decoded_settings,
}
use provider_exoscale.Redis.{
  RedisParameters, RedisObservation, Redis, get_instance_name, ServiceRedis, Request, RedisApi,
}

-- RedisObservation{}.
abbrev pub empty_observation : RedisObservation
empty_observation = record {
  version = "";
  redis_settings = record { raw = "" };
  node_states = [];
  notifications = [];
}

-- The checks of isUpToDate whose comparison cannot panic.
abbrev pub same_fields : CaseFold → RedisParameters → RedisParameters → Bool
same_fields u current external =
    is_same_string_set current.dbaas.ip_filter (some external.dbaas.ip_filter)
    && (equals_maintenance current.maintenance external.maintenance
        && (equals_size u current.dbaas.size external.dbaas.size
            && bool_eq current.dbaas.termination_protection external.dbaas.termination_protection))

-- isUpToDate, on an external state that is not nil.
unfoldable pub is_up_to_date :
    JsonCodec → CaseFold → RedisParameters → RedisParameters → Result Bool
is_up_to_date codec u current external =
    compare_settings codec current.redis_settings external.redis_settings >>= λ same_settings.
    ok (same_fields u current external && same_settings)

module _ {S W : Type 0} (codec : JsonCodec) (api : RedisApi S W) where
  -- The observation with its notifications.
  abbrev pub with_notifications : ServiceRedis S → String → List Notification → RedisObservation
  with_notifications i raw ns = record {
    version = i.version;
    redis_settings = record { raw = raw };
    node_states = or_nil (to_node_states (some i.node_states));
    notifications = ns;
  }

  abbrev pub observed : ServiceRedis S → Result String → Result RedisObservation
  observed i (err e) = ok empty_observation
  observed i (panic p) = panic p
  observed i (ok raw) =
      noted (with_notifications i raw) (with_notifications i raw [])
        (to_notifications codec (some i.notifications))

  -- mapObservation, with what its caller keeps of it: the returned error is logged only.
  unfoldable pub map_observation : ServiceRedis S → Result RedisObservation
  map_observation i = observed i (api.marshal_settings i.redis_settings)

  -- mapParameters.
  unfoldable pub map_parameters : ServiceRedis S → String → Result RedisParameters
  map_parameters i zone =
      map_err (wrap "cannot parse redisInstance settings: %w")
        (api.marshal_settings i.redis_settings)
      >>= λ raw. deref_maintenance i.maintenance >>= λ m. ok (record {
        maintenance = record { day_of_week = m.dow; time_of_day = m.time };
        zone = zone;
        dbaas = record {
          termination_protection = deref_false i.termination_protection;
          size = record { plan = i.plan };
          ip_filter = i.ip_filter;
        };
        redis_settings = record { raw = raw };
      })

  abbrev url_details : String → W → ServiceRedis S → Result ConnectionDetails
  url_details uri w i = do
    parsed ← map_err (wrap "cannot parse connection URI: %w") (api.parse_url uri)
    password ←
        map_err (wrap "cannot reveal password for Redis instance: %w")
          (api.reveal_user_password i.name parsed.username w)
    ok (
        ("REDIS_HOST", parsed.hostname)
        ∷ ("REDIS_PORT", parsed.port)
        ∷ ("REDIS_USERNAME", parsed.username)
        ∷ ("REDIS_PASSWORD", password)
        ∷ ("REDIS_URL", uri)
        ∷ [])

  -- connectionDetails.
  unfoldable pub connection_details : ServiceRedis S → W → Result ConnectionDetails
  connection_details i w = elim (first_uri i.uri i.connection_info) [
    | none ↦ ok []
    | some uri ↦ url_details uri w i
  ]

  -- setSettingsDefaults, with fetchSettingSchema.
  unfoldable pub set_settings_defaults : RedisParameters → W → Result RedisParameters
  unfolding settings_with_defaults
  set_settings_defaults params w =
      settings_with_defaults codec api "redis" params.redis_settings w >>= λ settings.
      ok (record params { redis_settings = settings })

  abbrev pub body_with : RedisParameters → S → Request S
  body_with spec settings = record {
    maintenance = record {
      dow = spec.maintenance.day_of_week;
      time = spec.maintenance.time_of_day;
    };
    termination_protection = spec.dbaas.termination_protection;
    plan = spec.dbaas.size.plan;
    ip_filter = spec.dbaas.ip_filter;
    redis_settings = settings;
  }

  -- The body of Create and of Update.
  abbrev pub request : RedisParameters → Result (Request S)
  request spec =
      decoded_settings codec api (wrap "cannot map redisInstance settings: %w")
        spec.redis_settings.raw
      >>= λ settings. ok (body_with spec settings)

  abbrev pub send_create : Redis → Request S → W → W × Result (Unit {0})
  send_create i body w =
      created api.error_text (wrap "unable to create instance: %w")
        (api.create_service (get_instance_name i) body w)

  unfoldable pub create : Redis → W → W × Result (Unit {0})
  create i = submit (request i.for_provider) (send_create i)

  abbrev pub send_update : Redis → Request S → W → W × Result (Unit {0})
  send_update i body w =
      map_sent (wrap "unable to create instance: %w")
        (api.update_service (get_instance_name i) body w)

  unfoldable pub update : Redis → W → W × Result (Unit {0})
  update i = submit (request i.for_provider) (send_update i)

  unfoldable pub delete : Redis → W → W × Result (Unit {0})
  delete i w =
      map_sent (wrap "cannot delete instance: %w") (api.delete_service (get_instance_name i) w)

  module _ (xp : Crossplane) (u : CaseFold) where
    -- The observation, once the status is set.
    abbrev pub answer : RedisParameters → ServiceRedis S → W → Result ExternalObservation
    answer given service w = map_parameters service given.zone >>= λ params.
        map_err (wrap "unable to parse connection details: %w") (connection_details service w)
        >>= λ details. or_given given (set_settings_defaults given w) >>= λ current.
            is_up_to_date codec u current params >>= λ same. ok (exists_as same details "")

    abbrev pub status_set :
        Redis → ServiceRedis S → W → Result RedisObservation → Redis × Result ExternalObservation
    status_set i service w (ok o) = (
      record i { at_provider = o; conditions = set_state xp service.state i.conditions },
      answer i.for_provider service w,
    )
    status_set i service w (err e) = (i, err e)
    status_set i service w (panic p) = (i, panic p)

    -- What follows GetDBAASServiceRedis.
    abbrev pub service_read :
        Redis → W → Result (ServiceRedis S) → Redis × Result ExternalObservation
    service_read i w (ok service) = status_set i service w (map_observation service)
    service_read i w (err e) =
        (i, absent_or api.is_not_found (wrap "unable to observe instance: %w") e)
    service_read i w (panic p) = (i, panic p)

    -- Observe; no call of it changes the service.
    unfoldable pub observe : Redis → W → Redis × Result ExternalObservation
    observe i w = service_read i w (api.get_service (get_instance_name i) w)
