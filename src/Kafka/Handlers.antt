-- ===== src/Kafka/Handlers.antt =====
-- operator/kafkacontroller: the handlers (observe.go, create.go, update.go and delete.go).
use provider_exoscale.Prelude.{
  String, wrap, Result, ok, err, panic, map_err, ◌>>=◌, ◌==◌, if◌then◌else◌,
}
use provider_exoscale.Json.{JsonCodec}
use provider_exoscale.Api.{Crossplane}
use provider_exoscale.Managed.{ExternalObservation}
use provider_exoscale.Dbaas.{
  or_given, submit, map_sent, created, absent_or, exists_as, decoded_settings,
}
use provider_exoscale.Kafka.{
  KafkaParameters, KafkaObservation, Kafka, get_instance_name, ServiceKafka, UpdateRequest,
  KafkaApi, RestEncoding,
}
use provider_exoscale.Kafka.Reading.{
  get_condition, get_observation, get_connection_details, set_settings_defaults, diff_parameters,
}

module _ {S R W : Type 0} (codec : JsonCodec) (api : KafkaApi S R W) (rest : RestEncoding R) where
  abbrev pub decoded_rest : String → Result R
  decoded_rest raw =
      if raw == ""
      then ok rest.empty_rest
      else map_err (wrap "invalid kafka rest settings: %w") (rest.unmarshal_rest raw)

  abbrev pub body_with : KafkaParameters → S → R → UpdateRequest S R
  body_with spec settings rest_settings = record {
    ip_filter = spec.dbaas.ip_filter;
    kafka_settings = settings;
    maintenance = record {
      dow = spec.maintenance.day_of_week;
      time = spec.maintenance.time_of_day;
    };
    plan = spec.dbaas.size.plan;
    termination_protection = spec.dbaas.termination_protection;
    kafka_rest_enabled = spec.kafka_rest_enabled;
    kafka_rest_settings = rest_settings;
  }

  abbrev pub with_rest : KafkaParameters → S → Result (UpdateRequest S R)
  with_rest spec settings = decoded_rest spec.kafka_rest_settings.raw >>= λ rest_settings.
      ok (body_with spec settings rest_settings)

  -- The body of Create and of Update.
  abbrev pub request : KafkaParameters → Result (UpdateRequest S R)
  request spec =
      decoded_settings codec api (wrap "cannot map kafkaInstance settings: %w")
        spec.kafka_settings.raw
      >>= with_rest spec

  abbrev pub send_create : Kafka → UpdateRequest S R → W → W × Result (Unit {0})
  send_create i body w = created api.error_text (wrap "unable to create instance: %w") (
      api.create_service (get_instance_name i)
        (record { version = i.for_provider.version; rest = body }) w)

  unfoldable pub create : Kafka → W → W × Result (Unit {0})
  create i = submit (request i.for_provider) (send_create i)

  abbrev pub send_update : Kafka → UpdateRequest S R → W → W × Result (Unit {0})
  send_update i body w =
      map_sent (wrap "unable to update instance: %w")
        (api.update_service (get_instance_name i) body w)

  unfoldable pub update : Kafka → W → W × Result (Unit {0})
  update i = submit (request i.for_provider) (send_update i)

  -- A service that is not there counts as deleted.
  abbrev deleted : W × Result (Unit {0}) → W × Result (Unit {0})
  deleted (w, ok u) = (w, ok tt)
  deleted (w, err e) =
      (w, if api.is_not_found e then ok tt else err (wrap "cannot delete kafka instance: %w" e))
  deleted (w, panic p) = (w, panic p)

  unfoldable pub delete : Kafka → W → W × Result (Unit {0})
  delete i w = deleted (api.delete_service (get_instance_name i) w)

  module _ (xp : Crossplane) (cmp_diff : KafkaParameters → KafkaParameters → String) where
    -- The observation, once the status is set.
    abbrev pub answer : KafkaParameters → ServiceKafka S R → W → Result ExternalObservation
    answer given service w =
        map_err (wrap "cannot retrieve CA certificate: %w") (api.get_ca_certificate w) >>= λ ca.
        map_err (wrap "failed to get kafka connection details: %w")
          (get_connection_details codec api rest service ca)
        >>= λ details. or_given given (set_settings_defaults codec api rest given w) >>= λ current.
            diff_parameters codec api rest cmp_diff service current >>= λ d.
            ok (exists_as d.0 details d.1)

    abbrev pub status_set :
        Kafka → ServiceKafka S R → W → Result KafkaObservation → Kafka × Result ExternalObservation
    status_set i service w (ok o) = (
      record i {
        at_provider = o;
        conditions = xp.set_conditions i.conditions (get_condition xp service.state);
      },
      answer i.for_provider service w,
    )
    status_set i service w (err e) = (i, err e)
    status_set i service w (panic p) = (i, panic p)

    -- What follows GetDBAASServiceKafka.
    abbrev pub service_read :
        Kafka → W → Result (ServiceKafka S R) → Kafka × Result ExternalObservation
    service_read i w (ok service) = status_set i service w (get_observation codec api rest service)
    service_read i w (err e) = (i, absent_or api.is_not_found (λ x. x) e)
    service_read i w (panic p) = (i, panic p)

    -- Observe; no call of it changes the service.
    unfoldable pub observe : Kafka → W → Kafka × Result ExternalObservation
    observe i w = service_read i w (api.get_service (get_instance_name i) w)
