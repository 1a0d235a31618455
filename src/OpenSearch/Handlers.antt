-- ===== src/OpenSearch/Handlers.antt =====
-- operator/opensearchcontroller: observe.go, create.go, update.go, delete.go and settings.go.
use provider_exoscale.Prelude.{
  String, Bool, false, ◌&&◌, List, [], ◌∷◌, Option, none, some, wrap, Result, ok, err, panic,
  nil_deref, map_err, ◌>>=◌, ◌==◌,
}
use provider_exoscale.Json.{JsonCodec}
use provider_exoscale.Api.{Notification, Crossplane, CaseFold, equals_maintenance, equals_size}
use provider_exoscale.Managed.{ConnectionDetails, ExternalObservation}
use provider_exoscale.Mapper.Sets.{is_same_string_set}
use provider_exoscale.Mapper.Compare.{compare_settings}
use provider_exoscale.Mapper.Conversions.{
  ServiceMaintenance, to_dbaas_parameters, to_maintenance, to_node_states, to_notifications,
}
use provider_exoscale.Dbaas.{
  empty_parameters, or_nil, set_state, deref_maintenance, or_given, noted, asserted_text, submit,
  map_sent, created, absent_or, exists_as, settings_with_defaults, decoded_settings,
}
use provider_exoscale.OpenSearch.{
  OpenSearchParameters, OpenSearchObservation, OpenSearch, get_instance_name, ConnectionInfo,
  ServiceOpensearch, UpdateRequest, OpensearchApi,
}

-- OpenSearchObservation{}.
abbrev pub empty_observation : OpenSearchObservation
empty_observation = record {
  major_version = "";
  open_search_settings = record { raw = "" };
  node_states = [];
  dbaas = empty_parameters;
  notifications = [];
  maintenance = record { day_of_week = ""; time_of_day = "" };
}

-- The checks of isUpToDate whose comparison cannot panic. The termination protection and the version
-- are not among them.
abbrev pub same_fields : CaseFold → OpenSearchParameters → OpenSearchParameters → Bool
same_fields u current external =
    equals_maintenance current.maintenance external.maintenance
    && (current.zone == external.zone
        && (equals_size u current.dbaas.size external.dbaas.size
            && is_same_string_set current.dbaas.ip_filter (some external.dbaas.ip_filter)))

-- isUpToDate, on an external state that is not nil.
unfoldable pub is_up_to_date :
    JsonCodec → CaseFold → OpenSearchParameters → OpenSearchParameters → Result Bool
is_up_to_date codec u current external =
    compare_settings codec current.open_search_settings external.open_search_settings
    >>= λ same_settings. ok (same_fields u current external && same_settings)

abbrev deref_info : Option ConnectionInfo → Result ConnectionInfo
deref_info none = panic nil_deref
deref_info (some info) = ok info

module _ {S W : Type 0} (codec : JsonCodec) (api : OpensearchApi S W) where
  -- The observation with its notifications.
  abbrev pub with_notifications :
      ServiceOpensearch S → String → ServiceMaintenance → List Notification → OpenSearchObservation
  with_notifications i raw m ns = record {
    major_version = i.version;
    open_search_settings = record { raw = raw };
    node_states = or_nil (to_node_states (some i.node_states));
    dbaas = to_dbaas_parameters i.termination_protection i.plan (some i.ip_filter);
    notifications = ns;
    maintenance = to_maintenance m;
  }

  abbrev pub observation_of :
      ServiceOpensearch S → String → Result ServiceMaintenance → Result OpenSearchObservation
  observation_of i raw r = r >>= λ m.
      noted (with_notifications i raw m) (with_notifications i raw m [])
        (to_notifications codec (some i.notifications))

  abbrev pub observed : ServiceOpensearch S → Result String → Result OpenSearchObservation
  observed i (err e) = ok empty_observation
  observed i (panic p) = panic p
  observed i (ok raw) = observation_of i raw (deref_maintenance i.maintenance)

  -- mapObservation, with what its caller keeps of it: the returned error is logged only.
  unfoldable pub map_observation : ServiceOpensearch S → Result OpenSearchObservation
  map_observation i = observed i (api.marshal_settings i.opensearch_settings)

  -- mapParameters: the termination protection, the version and the backup time are left out.
  unfoldable pub map_parameters : ServiceOpensearch S → String → Result OpenSearchParameters
  map_parameters i zone =
      map_err (wrap "cannot parse openSearchInstance settings: %w")
        (api.marshal_settings i.opensearch_settings)
      >>= λ raw. deref_maintenance i.maintenance >>= λ m. ok (record {
        maintenance = record { day_of_week = m.dow; time_of_day = m.time };
        backup = record { time_of_day = "" };
        dbaas = record {
          termination_protection = false;
          size = record { plan = i.plan };
          ip_filter = i.ip_filter;
        };
        zone = zone;
        major_version = "";
        open_search_settings = record { raw = raw };
      })

  -- connectionDetails.
  unfoldable pub connection_details : ServiceOpensearch S → W → Result ConnectionDetails
  connection_details i w = do
    info ← deref_info i.connection_info
    password ←
        map_err (wrap "cannot reveal password for OpenSearch instance: %w")
          (api.reveal_user_password i.name info.username w)
    host ← asserted_text "host" i.uri_params
    port ← asserted_text "port" i.uri_params
    ok (
        ("OPENSEARCH_USER", info.username)
        ∷ ("OPENSEARCH_PASSWORD", password)
        ∷ ("OPENSEARCH_HOST", host)
        ∷ ("OPENSEARCH_PORT", port)
        ∷ ("OPENSEARCH_URI", i.uri)
        ∷ ("OPENSEARCH_DASHBOARD_URI", info.dashboard_uri)
        ∷ [])

  -- setSettingsDefaults, with fetchSettingSchema.
  unfoldable pub set_settings_defaults : OpenSearchParameters → W → Result OpenSearchParameters
  unfolding settings_with_defaults
  set_settings_defaults params w =
      settings_with_defaults codec api "opensearch" params.open_search_settings w >>= λ settings.
      ok (record params { open_search_settings = settings })

  abbrev pub body_with : OpenSearchParameters → S → UpdateRequest S
  body_with spec settings = record {
    maintenance = record {
      dow = spec.maintenance.day_of_week;
      time = spec.maintenance.time_of_day;
    };
    opensearch_settings = settings;
    plan = spec.dbaas.size.plan;
    ip_filter = spec.dbaas.ip_filter;
    termination_protection = spec.dbaas.termination_protection;
  }

  -- The body of Create and of Update.
  abbrev pub request : OpenSearchParameters → Result (UpdateRequest S)
  request spec =
      decoded_settings codec api (wrap "cannot map opensearchInstance settings: %w")
        spec.open_search_settings.raw
      >>= λ settings. ok (body_with spec settings)

  abbrev pub send_create : OpenSearch → UpdateRequest S → W → W × Result (Unit {0})
  send_create i body w =
      created api.error_text (wrap "cannot create OpenSearch Instance: %v, \nerr: %w") (
        api.create_service (get_instance_name i)
          (record { version = i.for_provider.major_version; rest = body }) w)

  unfoldable pub create : OpenSearch → W → W × Result (Unit {0})
  create i = submit (request i.for_provider) (send_create i)

  abbrev pub send_update : OpenSearch → UpdateRequest S → W → W × Result (Unit {0})
  send_update i body w = map_sent (λ e. e) (api.update_service (get_instance_name i) body w)

  unfoldable pub update : OpenSearch → W → W × Result (Unit {0})
  update i = submit (request i.for_provider) (send_update i)

  unfoldable pub delete : OpenSearch → W → W × Result (Unit {0})
  delete i w =
      map_sent (wrap "cannot delete OpenSearch: %w") (api.delete_service (get_instance_name i) w)

  module _ (xp : Crossplane) (u : CaseFold) where
    -- The observation, once the status is set.
    abbrev pub answer : OpenSearchParameters → ServiceOpensearch S → W → Result ExternalObservation
    answer given service w =
        map_err (wrap "cannot parse connection details: %w") (connection_details service w)
        >>= λ details.
            map_err (wrap "cannot parse parameters: %w") (map_parameters service given.zone)
            >>= λ params. or_given given (set_settings_defaults given w) >>= λ current.
                is_up_to_date codec u current params >>= λ same. ok (exists_as same details "")

    abbrev pub status_set :
        OpenSearch
        → ServiceOpensearch S
        → W
        → Result OpenSearchObservation
        → OpenSearch × Result ExternalObservation
    status_set i service w (ok o) = (
      record i { at_provider = o; conditions = set_state xp service.state i.conditions },
      answer i.for_provider service w,
    )
    status_set i service w (err e) = (i, err e)
    status_set i service w (panic p) = (i, panic p)

    -- What follows GetDBAASServiceOpensearch.
    abbrev pub service_read :
        OpenSearch → W → Result (ServiceOpensearch S) → OpenSearch × Result ExternalObservation
    service_read i w (ok service) = status_set i service w (map_observation service)
    service_read i w (err e) =
        (i, absent_or api.is_not_found (wrap "cannot observe openSearchInstance: %w") e)
    service_read i w (panic p) = (i, panic p)

    -- Observe; no call of it changes the service.
    unfoldable pub observe : OpenSearch → W → OpenSearch × Result ExternalObservation
    observe i w = service_read i w (api.get_service (get_instance_name i) w)
