-- ===== src/Kafka/Asymmetric.antt =====
-- operator/kafkacontroller/observe.go: go-cmp on a comparer that is not symmetric.
use provider_exoscale.Prelude.{
  String, false, ◌≡◌, ◌≢◌, refl, some, ok, panic, asymmetric, eq_iff, arith,
}
use provider_exoscale.Json.{
  Json, null, end, field, lookup, index, size, iface_eq, RawExtension, JsonCodec, to_map,
}
use provider_exoscale.Mapper.Compare.{compare_each, compare_maps, compare_settings}
use provider_exoscale.Mapper.Compare.Sound.{null_matches_missing}
use provider_exoscale.Mapper.Conversions.{ServiceMaintenance}
use provider_exoscale.Kafka.{KafkaParameters, ServiceKafka, KafkaApi, RestEncoding}
use provider_exoscale.Kafka.Diff.{SameBothWays, compare_both_iff}
use provider_exoscale.Kafka.Reading.{compare_both, equal_parameters, diff_parameters}

null-iface_eq : (w : Json) → w ≢ null → iface_eq null w ≡ ok false
unfolding iface_eq
null-iface_eq null h = absurd (h refl)
null-iface_eq _ h = refl

-- The maps of null_matches_missing, the other way round.
missing_differs :
    (k j : String) (w : Json)
    → k ≢ j
    → w ≢ null
    → compare_maps (field j w end) (field k null end) ≡ ok false
unfolding compare_maps compare_each index lookup size
missing_differs k j w h present = ground (arith, eq_iff k j, null-iface_eq w present)

compare_both_panics :
    (codec : JsonCodec) (a b : RawExtension) (k j : String) (w : Json)
    → to_map codec a ≡ ok (field k null end)
    → to_map codec b ≡ ok (field j w end)
    → k ≢ j
    → w ≢ null
    → compare_both codec a b ≡ panic asymmetric
unfolding compare_both compare_settings
compare_both_panics codec a b k j w left right other present =
    rw (left, right, (null_matches_missing k j w other).0, missing_differs k j w other present) refl

module _ {S R W : Type 0} (codec : JsonCodec) (api : KafkaApi S R W) (rest : RestEncoding R) where
  -- diffParameters panics inside go-cmp, which takes CompareSettings for not symmetric, if the
  -- expected settings of the REST interface are one key with null, the reported ones are another key
  -- with a value that is not null, both settings of the service can be encoded, those of Kafka compare
  -- equal whichever comes first, and the service has a maintenance window.
  rest_settings_panic :
      (cmp_diff : KafkaParameters → KafkaParameters → String) (service : ServiceKafka S R)
      (expected : KafkaParameters) (raw raw_rest : String) (m : ServiceMaintenance) (k j : String)
      (w : Json)
      → api.marshal_settings service.kafka_settings ≡ ok raw
      → rest.marshal_rest service.kafka_rest_settings ≡ ok raw_rest
      → service.maintenance ≡ some m
      → SameBothWays codec expected.kafka_settings (record { raw = raw })
      → to_map codec expected.kafka_rest_settings ≡ ok (field k null end)
      → to_map codec (record { raw = raw_rest }) ≡ ok (field j w end)
      → k ≢ j
      → w ≢ null
      → diff_parameters codec api rest cmp_diff service expected ≡ panic asymmetric
  unfolding diff_parameters equal_parameters
  rest_settings_panic cmp_diff service expected raw raw_rest m k j w encoded encoded_rest window
        same wanted given other present =
      rw
        (
          encoded,
          encoded_rest,
          window,
          (compare_both_iff codec expected.kafka_settings (record { raw = raw })).1 same,
          compare_both_panics codec expected.kafka_rest_settings (record { raw = raw_rest }) k j w
              wanted given other present,
        )
        refl
