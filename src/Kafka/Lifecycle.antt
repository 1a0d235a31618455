-- ===== src/Kafka/Lifecycle.antt =====
-- The zone and the version of a Kafka instance over its life.
use provider_exoscale.Prelude.{
  String, ◌≡◌, ◌⊎◌, inl, inr, refl, sym, ap, ◌==◌, if◌then◌else◌, Option, List, some, Result, ok,
  err, panic, >>=-eq-ok,
}
use provider_exoscale.Json.{JsonCodec}
use provider_exoscale.Api.{Crossplane, Notification}
use provider_exoscale.Mapper.Versions.{VersionLib}
use provider_exoscale.Mapper.Conversions.{to_notifications}
use provider_exoscale.Webhook.{validate_update_version}
use provider_exoscale.Dbaas.{or_nil}
use provider_exoscale.Dbaas.Laws.{ok-injective, check_zone_iff, check_version_iff}
use provider_exoscale.Dbaas.Lifecycle.{IsOrdered, Database, AtMost, Reach, Reach-Bounded}
use provider_exoscale.Kafka.{
  Kafka, KafkaParameters, KafkaObservation, get_instance_name, ServiceKafka, KafkaApi, RestEncoding,
}
use provider_exoscale.Kafka.Reading.{
  get_observation, notifications_observed, settings_observed, rest_observed,
}
use provider_exoscale.Kafka.Handlers.{status_set, service_read, observe}
use provider_exoscale.Kafka.Webhook.{
  validate_spec, compare_version, validate_immutable, validate_update,
}

module _ {S R W : Type 0} (codec : JsonCodec) (api : KafkaApi S R W) (rest : RestEncoding R)
    (xp : Crossplane) (lib : VersionLib)
    (cmp_diff : KafkaParameters → KafkaParameters → String) where
  -- Exoscale reports the version for the service of the instance.
  abbrev pub Reports : Kafka → W → String → Type 0
  Reports i w v =
      (service : ServiceKafka S R) × (api.get_service (get_instance_name i) w ≡ ok service)
      × (service.version ≡ v)

  -- The version of a status: that of the old one, none, or that of the service.
  abbrev Written : Kafka → ServiceKafka S R → String → Type 0
  Written i service v = (v ≡ i.at_provider.version) ⊎ (v ≡ "") ⊎ (service.version ≡ v)

  rest_version :
      (i : Kafka) (service : ServiceKafka S R) (ns : List Notification) (raw : String)
      (r : Result String) (o : KafkaObservation)
      → rest_observed codec api rest service ns raw r ≡ ok o
      → Written i service o.version
  rest_version i service ns raw (ok raw_rest) o h = inr (inr (ap (λ x. x.version) (ok-injective h)))
  rest_version i service ns raw (err e) o h = inr (inl (sym (ap (λ x. x.version) (ok-injective h))))
  rest_version i service ns raw (panic p) o h = cc

  settings_version :
      (i : Kafka) (service : ServiceKafka S R) (ns : List Notification) (r : Result String)
      (o : KafkaObservation)
      → settings_observed codec api rest service ns r ≡ ok o
      → Written i service o.version
  settings_version i service ns (ok raw) o h =
      rest_version i service ns raw (rest.marshal_rest service.kafka_rest_settings) o h
  settings_version i service ns (err e) o h = inr (inl (sym (ap (λ x. x.version) (ok-injective h))))
  settings_version i service ns (panic p) o h = cc

  observed_version :
      (i : Kafka) (service : ServiceKafka S R) (r : Result (Option (List Notification)))
      (o : KafkaObservation)
      → notifications_observed codec api rest service r ≡ ok o
      → Written i service o.version
  observed_version i service (ok ns) o h =
      settings_version i service (or_nil ns) (api.marshal_settings service.kafka_settings) o h
  observed_version i service (err e) o h = inr (inl (sym (ap (λ x. x.version) (ok-injective h))))
  observed_version i service (panic p) o h = cc

  set_version :
      (i : Kafka) (service : ServiceKafka S R) (w : W) (r : Result KafkaObservation)
      → ((o : KafkaObservation) → r ≡ ok o → Written i service o.version)
      → Written i service
          (status_set codec api rest xp cmp_diff i service w r).0.at_provider.version
  set_version i service w (ok o) written = written o refl
  set_version i service w (err e) written = inl refl
  set_version i service w (panic p) written = inl refl

  read_version :
      (i : Kafka) (w : W) (r : Result (ServiceKafka S R))
      → api.get_service (get_instance_name i) w ≡ r
      → ((service_read codec api rest xp cmp_diff i w r).0.at_provider.version
          ≡ i.at_provider.version)
        ⊎ ((service_read codec api rest xp cmp_diff i w r).0.at_provider.version ≡ "")
        ⊎ Reports i w (service_read codec api rest xp cmp_diff i w r).0.at_provider.version
  unfolding get_observation
  read_version i w (ok service) read =
      elim (set_version i service w (get_observation codec api rest service) (λ o h.
        observed_version i service (to_notifications codec (some service.notifications)) o h)) [
          | inl same ↦ inl same
          | inr (inl empty) ↦ inr (inl empty)
          | inr (inr written) ↦ inr (inr (service, read, written))
        ]
  read_version i w (err e) read = inl refl
  read_version i w (panic p) read = inl refl

  set_kept :
      (i : Kafka) (service : ServiceKafka S R) (w : W) (r : Result KafkaObservation)
      → (status_set codec api rest xp cmp_diff i service w r).0.for_provider ≡ i.for_provider
  set_kept i service w (ok o) = refl
  set_kept i service w (err e) = refl
  set_kept i service w (panic p) = refl

  read_kept :
      (i : Kafka) (w : W) (r : Result (ServiceKafka S R))
      → (service_read codec api rest xp cmp_diff i w r).0.for_provider ≡ i.for_provider
  read_kept i w (ok service) = set_kept i service w (get_observation codec api rest service)
  read_kept i w (err e) = refl
  read_kept i w (panic p) = refl

  -- The two checks of validateImmutable, for an update that is admitted.
  pub admitted_checks :
      (i j : Kafka)
      → validate_update codec lib i j ≡ ok tt
      → (i.for_provider.zone ≡ j.for_provider.zone)
        × ((i.for_provider.version ≡ j.for_provider.version)
            ⊎ (validate_update_version lib i.at_provider.version
                  (if i.for_provider.version == ""
                    then i.at_provider.version
                    else i.for_provider.version)
                  j.for_provider.version
                ≡ ok tt))
  unfolding validate_update validate_immutable compare_version
  admitted_checks i j h =
      let (_, valid, kept) =
        >>=-eq-ok (validate_spec codec j.for_provider) (λ u. validate_immutable codec lib i j) h in
      let (zone, version) =
        (check_zone_iff "field is immutable: %s (old), %s (changed)" i.for_provider.zone
            j.for_provider.zone (compare_version codec lib i j)).0
          kept in
      (
        zone,
        (check_version_iff lib i.at_provider.version i.for_provider.version
              j.for_provider.version).0
            version,
      )

  pub observed_kept :
      (i : Kafka) (w : W) → (observe codec api rest xp cmp_diff i w).0.for_provider ≡ i.for_provider
  unfolding observe
  observed_kept i w = read_kept i w (api.get_service (get_instance_name i) w)

  pub observed_status :
      (i : Kafka) (w : W)
      → ((observe codec api rest xp cmp_diff i w).0.at_provider.version ≡ i.at_provider.version)
        ⊎ ((observe codec api rest xp cmp_diff i w).0.at_provider.version ≡ "")
        ⊎ Reports i w (observe codec api rest xp cmp_diff i w).0.at_provider.version
  unfolding observe
  observed_status i w = read_version i w (api.get_service (get_instance_name i) w) refl

  abbrev pub kafka_database : Database lib Kafka W
  kafka_database = record {
    zone = λ i. i.for_provider.zone;
    version = λ i. i.for_provider.version;
    observed_version = λ i. i.at_provider.version;
    Admits = λ i j. validate_update codec lib i j ≡ ok tt;
    observe = λ i w. (observe codec api rest xp cmp_diff i w).0;
    Reports = Reports;
    admits_zone = λ h. (admitted_checks _ _ h).0;
    admits_version = λ h. (admitted_checks _ _ h).1;
    observe_keeps =
        λ i w. (ap (λ p. p.zone) (observed_kept i w), ap (λ p. p.version) (observed_kept i w));
    observe_status = observed_status;
  }

  -- Over any sequence of Observe and of updates that the webhook admits, the zone of a Kafka instance
  -- stays, and its version never goes above `cap`: where the specified and the observed version are
  -- empty or not above it at first, and whenever Observe runs, Exoscale reports no version above it. Of
  -- the versions it is assumed that their order is transitive, that the constraint "<= v" admits no
  -- greater version, and that the empty text is none.
  pub kafka-versions_bounded :
      (laws : IsOrdered lib) (cap : lib.Version) {i j : Kafka}
      → Reach lib kafka_database cap i j
      → AtMost lib cap i.for_provider.version
      → AtMost lib cap i.at_provider.version
      → AtMost lib cap j.for_provider.version × (j.for_provider.zone ≡ i.for_provider.zone)
  kafka-versions_bounded laws cap r version status =
      let (bounded, zone) = Reach-Bounded lib kafka_database cap laws r (version, status) in
      (bounded.0, zone)
