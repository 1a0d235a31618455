-- ===== src/Kafka/Laws.antt =====
-- A Kafka instance that has been updated is found up to date, and what that means.
use provider_exoscale.Prelude.{
  String, true, false, ◌≡◌, refl, ap, ◌∙◌, List, Option, some, wrap, ok, >>=-eq-ok, eq_refl,
}
use mathlib.Core.Path.{subst}
use provider_exoscale.Prelude.Text.{same_strings_iff}
use provider_exoscale.Json.{JsonCodec, RawExtension}
use provider_exoscale.Api.{Notification, Crossplane}
use provider_exoscale.Managed.{ConnectionDetails}
use provider_exoscale.Mapper.Conversions.{to_dbaas_parameters, to_slice, to_notifications}
use provider_exoscale.Dbaas.{decoded_settings, submit, map_sent, exists_as}
use provider_exoscale.Dbaas.Laws.{bool_eq_refl, ok-injective}
use provider_exoscale.Kafka.{
  KafkaParameters, KafkaObservation, Kafka, get_instance_name, ServiceKafka, UpdateRequest,
  KafkaApi, RestEncoding,
}
use provider_exoscale.Kafka.Diff.{SameBothWays, compare_both_iff}
use provider_exoscale.Kafka.Reading.{
  same_fields, equal_parameters, get_observation, get_connection_details, diff_parameters,
  set_settings_defaults, notifications_observed, settings_observed, rest_observed,
}
use provider_exoscale.Kafka.Handlers.{
  decoded_rest, body_with, with_rest, request, send_update, update, answer, status_set,
  service_read, observe,
}

-- A service that has been given a request: it reports the fields of the request, and the rest of
-- what it reports is that of `base`.
abbrev pub provisioned : {S R : Type 0} → ServiceKafka S R → UpdateRequest S R → ServiceKafka S R
provisioned base body = record base {
  maintenance = some body.maintenance;
  termination_protection = some body.termination_protection;
  plan = body.plan;
  ip_filter = body.ip_filter;
  kafka_settings = body.kafka_settings;
  kafka_rest_enabled = some body.kafka_rest_enabled;
  kafka_rest_settings = body.kafka_rest_settings;
}

module _ {S R W : Type 0} (codec : JsonCodec) (api : KafkaApi S R W) (rest : RestEncoding R) where
  abbrev with_both : KafkaParameters → RawExtension → RawExtension → KafkaParameters
  with_both spec s t = record spec { kafka_settings = s; kafka_rest_settings = t }

  abbrev given_both : KafkaParameters → RawExtension → RawExtension → KafkaParameters
  given_both spec s t = record spec {
    kafka_settings = s;
    kafka_rest_settings = t;
    ip_filter_is_nil = false;
  }

  request_body :
      (spec : KafkaParameters) (body : UpdateRequest S R)
      → request codec api rest spec ≡ ok body
      → (settings : S) × (rest_settings : R) × (body_with codec api rest spec settings rest_settings
          ≡ body)
  request_body spec body sent =
      let (settings, _, next) =
        >>=-eq-ok
          (decoded_settings codec api (wrap "cannot map kafkaInstance settings: %w")
            spec.kafka_settings.raw)
          (with_rest codec api rest spec) sent in
      let (rest_settings, _, last) =
        >>=-eq-ok (decoded_rest codec api rest spec.kafka_rest_settings.raw)
          (λ r. ok (body_with codec api rest spec settings r)) next in
      (settings, rest_settings, ok-injective last)

  same_fields_refl :
      (spec : KafkaParameters) (s t s' t' : RawExtension)
      → spec.ip_filter_is_nil ≡ false
      → same_fields (with_both spec s t) (given_both spec s' t') ≡ true
  same_fields_refl spec s t s' t' given =
      rw
        (
          given,
          eq_refl spec.maintenance.day_of_week,
          eq_refl spec.maintenance.time_of_day,
          eq_refl spec.zone,
          bool_eq_refl spec.dbaas.termination_protection,
          eq_refl spec.dbaas.size.plan,
          (same_strings_iff spec.dbaas.ip_filter spec.dbaas.ip_filter).1 refl,
          eq_refl spec.version,
          bool_eq_refl spec.kafka_rest_enabled,
        )
        refl

  equal_both :
      (spec : KafkaParameters) (s t s' t' : RawExtension)
      → SameBothWays codec s s'
      → SameBothWays codec t t'
      → spec.ip_filter_is_nil ≡ false
      → equal_parameters codec (with_both spec s t) (given_both spec s' t') ≡ ok true
  unfolding equal_parameters
  equal_both spec s t s' t' same same_rest given =
      rw ((compare_both_iff codec s s').1 same, (compare_both_iff codec t t').1 same_rest)
        (ap ok (rw (same_fields_refl spec s t s' t' given) refl))

  -- diffParameters on a service with a body that was made from the specification.
  diff_settles :
      (cmp_diff : KafkaParameters → KafkaParameters → String) (spec : KafkaParameters)
      (base : ServiceKafka S R) (settings : S) (rest_settings : R) (raw raw_rest : String)
      (s t : RawExtension)
      → api.marshal_settings settings ≡ ok raw
      → rest.marshal_rest rest_settings ≡ ok raw_rest
      → SameBothWays codec s (record { raw = raw })
      → SameBothWays codec t (record { raw = raw_rest })
      → spec.ip_filter_is_nil ≡ false
      → diff_parameters codec api rest cmp_diff
          (provisioned base (body_with codec api rest spec settings rest_settings))
          (with_both spec s t)
        ≡ ok (
          true,
          cmp_diff
              (with_both spec s t)
              (given_both spec (record { raw = raw }) (record { raw = raw_rest })),
        )
  unfolding diff_parameters to_dbaas_parameters to_slice
  diff_settles cmp_diff spec base settings rest_settings raw raw_rest s t encoded encoded_rest same
        same_rest given =
      rw
        (
          encoded,
          encoded_rest,
          equal_both spec s t (record { raw = raw }) (record { raw = raw_rest }) same same_rest
              given,
        )
        refl

  answered :
      (xp : Crossplane) (cmp_diff : KafkaParameters → KafkaParameters → String)
      (spec current : KafkaParameters) (service : ServiceKafka S R) (w : W) (ca diff : String)
      (details : ConnectionDetails)
      → api.get_ca_certificate w ≡ ok ca
      → get_connection_details codec api rest service ca ≡ ok details
      → set_settings_defaults codec api rest spec w ≡ ok current
      → diff_parameters codec api rest cmp_diff service current ≡ ok (true, diff)
      → answer codec api rest xp cmp_diff spec service w ≡ ok (exists_as true details diff)
  answered xp cmp_diff spec current service w ca diff details certified detailed filled same =
      rw (certified, detailed, filled, same) refl

  observation_read :
      (service : ServiceKafka S R) (raw raw_rest : String) (ns : Option (List Notification))
      → to_notifications codec (some service.notifications) ≡ ok ns
      → api.marshal_settings service.kafka_settings ≡ ok raw
      → rest.marshal_rest service.kafka_rest_settings ≡ ok raw_rest
      → (o : KafkaObservation) × (get_observation codec api rest service ≡ ok o)
  unfolding get_observation
  observation_read service raw raw_rest ns notes encoded encoded_rest = (
    _,
    ap (notifications_observed codec api rest service) notes
        ∙ ap (settings_observed codec api rest service _) encoded
        ∙ ap (rest_observed codec api rest service _ raw) encoded_rest,
  )

  -- Update converges: where the body of the request can be made and Exoscale accepts it, Update
  -- succeeds, and if Exoscale then reports a service with the fields of that body, its notifications,
  -- both settings, the CA certificate and the connection details can be read, and both specified
  -- settings with their defaults compare equal to the reported ones, whichever of the two comes first,
  -- the next Observe finds the service up to date: for a specification whose IP filter is not nil.
  pub kafka_converges :
      (xp : Crossplane) (cmp_diff : KafkaParameters → KafkaParameters → String) (i : Kafka)
      (base : ServiceKafka S R) (body : UpdateRequest S R) (raw raw_rest ca : String)
      (ns : Option (List Notification)) (details : ConnectionDetails) (s t : RawExtension)
      (w w' : W)
      → request codec api rest i.for_provider ≡ ok body
      → api.update_service (get_instance_name i) body w ≡ (w', ok tt)
      → api.get_service (get_instance_name i) w' ≡ ok (provisioned base body)
      → api.marshal_settings body.kafka_settings ≡ ok raw
      → rest.marshal_rest body.kafka_rest_settings ≡ ok raw_rest
      → to_notifications codec (some base.notifications) ≡ ok ns
      → api.get_ca_certificate w' ≡ ok ca
      → get_connection_details codec api rest (provisioned base body) ca ≡ ok details
      → set_settings_defaults codec api rest i.for_provider w' ≡ ok (with_both i.for_provider s t)
      → SameBothWays codec s (record { raw = raw })
      → SameBothWays codec t (record { raw = raw_rest })
      → i.for_provider.ip_filter_is_nil ≡ false
      → (update codec api rest i w ≡ (w', ok tt))
        × (diff : String) × ((observe codec api rest xp cmp_diff i w').1
            ≡ ok (exists_as true details diff))
  unfolding update observe
  kafka_converges xp cmp_diff i base body raw raw_rest ca ns details s t w w' sent accepted found
        encoded encoded_rest notes certified detailed filled same same_rest given =
      let spec = i.for_provider in
      let service = provisioned base body in
      let (settings, rest_settings, built) = request_body spec body sent in
      let report =
        cmp_diff (with_both spec s t)
          (given_both spec (record { raw = raw }) (record { raw = raw_rest })) in
      let equal : diff_parameters codec api rest cmp_diff service (with_both spec s t)
          ≡ ok (true, report) =
        subst
          (λ b.
            api.marshal_settings b.kafka_settings ≡ ok raw
            → rest.marshal_rest b.kafka_rest_settings ≡ ok raw_rest
            → diff_parameters codec api rest cmp_diff (provisioned base b) (with_both spec s t)
              ≡ ok (true, report))
          built
          (λ e e'.
            diff_settles cmp_diff spec base settings rest_settings raw raw_rest s t e e' same
              same_rest given)
          encoded encoded_rest in
      let (o, seen) = observation_read service raw raw_rest ns notes encoded encoded_rest in
      (
        ap (λ r. submit r (send_update codec api rest i) w) sent
            ∙ ap (map_sent (wrap "unable to update instance: %w")) accepted,
        report,
        ap (λ r. (service_read codec api rest xp cmp_diff i w' r).1) found
            ∙ ap (λ r. (status_set codec api rest xp cmp_diff i service w' r).1) seen
            ∙ answered xp cmp_diff spec (with_both spec s t) service w' ca report details certified
                detailed filled equal,
      )
