-- ===== src/Kafka/Diff.antt =====
-- operator/kafkacontroller/observe.go: what diffParameters takes for equal.
use provider_exoscale.Prelude.{
  String, Bool, true, false, ◌&&◌, ◌≡◌, ◌↔◌, ap, ◌∙◌, refl, Option, none, some, Result, ok, err,
  panic, >>=-eq-ok, eq_iff, arith,
}
use mathlib.Core.Bool.{false≢true}
use provider_exoscale.Prelude.Text.{same_strings_iff}
use provider_exoscale.Json.{JsonCodec, RawExtension}
use provider_exoscale.Mapper.Compare.{compare_settings}
use provider_exoscale.Mapper.Conversions.{
  ServiceMaintenance, deref_false, to_dbaas_parameters, to_slice,
}
use provider_exoscale.Dbaas.{deref_maintenance}
use provider_exoscale.Dbaas.Laws.{bool_eq_iff, ok-injective}
use provider_exoscale.Kafka.{KafkaParameters, ServiceKafka, KafkaApi, RestEncoding}
use provider_exoscale.Kafka.Reading.{
  same_fields, symmetric, compare_both, equal_parameters, actual_parameters, diff_parameters,
  reported,
}

-- The fields that cmp.Equal compares by ==, each by each.
abbrev pub SameFields : KafkaParameters → KafkaParameters → Type 0
SameFields expected actual =
    (expected.maintenance.day_of_week ≡ actual.maintenance.day_of_week)
    × (expected.maintenance.time_of_day ≡ actual.maintenance.time_of_day)
    × (expected.zone ≡ actual.zone)
    × (expected.dbaas.termination_protection ≡ actual.dbaas.termination_protection)
    × (expected.dbaas.size.plan ≡ actual.dbaas.size.plan)
    × (expected.ip_filter_is_nil ≡ actual.ip_filter_is_nil)
    × (expected.dbaas.ip_filter ≡ actual.dbaas.ip_filter)
    × (expected.version ≡ actual.version)
    × (expected.kafka_rest_enabled ≡ actual.kafka_rest_enabled)

same_fields_iff :
    (expected actual : KafkaParameters)
    → (same_fields expected actual ≡ true) ↔ SameFields expected actual
same_fields_iff expected actual = grind (
  arith,
  eq_iff expected.maintenance.day_of_week actual.maintenance.day_of_week,
  eq_iff expected.maintenance.time_of_day actual.maintenance.time_of_day,
  eq_iff expected.zone actual.zone,
  bool_eq_iff expected.dbaas.termination_protection actual.dbaas.termination_protection,
  eq_iff expected.dbaas.size.plan actual.dbaas.size.plan,
  bool_eq_iff expected.ip_filter_is_nil actual.ip_filter_is_nil,
  same_strings_iff expected.dbaas.ip_filter actual.dbaas.ip_filter,
  eq_iff expected.version actual.version,
  bool_eq_iff expected.kafka_rest_enabled actual.kafka_rest_enabled,
)

all_three : (a b c : Bool) → (a && (b && c)) ≡ true → (a ≡ true) × (b ≡ true) × (c ≡ true)
all_three a b c h = ground arith

symmetric_iff :
    (want got : Result Bool) → (symmetric want got ≡ ok true) ↔ ((want ≡ ok true) × (got ≡ ok true))
symmetric_iff (ok true) (ok true) = ((λ h. (refl, refl)), (λ h. refl))
symmetric_iff (ok true) (ok false) = ((λ h. cc), (λ (h, h'). cc))
symmetric_iff (ok false) (ok true) = ((λ h. cc), (λ (h, h'). cc))
symmetric_iff (ok false) (ok false) = ((λ h. cc), (λ (h, h'). cc))
symmetric_iff (ok w) (err e) = ((λ h. cc), (λ (h, h'). cc))
symmetric_iff (ok w) (panic p) = ((λ h. cc), (λ (h, h'). cc))
symmetric_iff (err e) got = ((λ h. cc), (λ (h, h'). cc))
symmetric_iff (panic p) got = ((λ h. cc), (λ (h, h'). cc))

-- CompareSettings finds the two equal, whichever comes first.
abbrev pub SameBothWays : JsonCodec → RawExtension → RawExtension → Type 0
SameBothWays codec a b =
    (compare_settings codec a b ≡ ok true) × (compare_settings codec b a ≡ ok true)

pub compare_both_iff :
    (codec : JsonCodec) (a b : RawExtension)
    → (compare_both codec a b ≡ ok true) ↔ SameBothWays codec a b
unfolding compare_both
compare_both_iff codec a b = symmetric_iff (compare_settings codec a b) (compare_settings codec b a)

equal_parameters_iff :
    (codec : JsonCodec) (expected actual : KafkaParameters)
    → (equal_parameters codec expected actual ≡ ok true) ↔ (
        SameBothWays codec expected.kafka_settings actual.kafka_settings
        × SameBothWays codec expected.kafka_rest_settings actual.kafka_rest_settings
        × SameFields expected actual)
unfolding equal_parameters
equal_parameters_iff codec expected actual =
    let settings_iff = compare_both_iff codec expected.kafka_settings actual.kafka_settings in
    let rest_iff = compare_both_iff codec expected.kafka_rest_settings actual.kafka_rest_settings in
    (
      (λ h.
          let (s, first, next) =
            >>=-eq-ok (compare_both codec expected.kafka_settings actual.kafka_settings) _ h in
          let (r, second, last) =
            >>=-eq-ok (compare_both codec expected.kafka_rest_settings actual.kafka_rest_settings) _
              next in
          let (fields, settings, rest_settings) =
            all_three (same_fields expected actual) s r (ok-injective last) in
          (
            settings_iff.0 (first ∙ ap ok settings),
            rest_iff.0 (second ∙ ap ok rest_settings),
            (same_fields_iff expected actual).0 fields,
          )),
      (λ (settings, rest_settings, fields).
          rw (settings_iff.1 settings, rest_iff.1 rest_settings)
            (ap ok (rw ((same_fields_iff expected actual).1 fields) refl))),
    )

-- What the service reports of the fields that diffParameters compares by ==.
abbrev pub Reports :
    {S R : Type 0} → KafkaParameters → ServiceKafka S R → ServiceMaintenance → Type 0
Reports expected service m =
    (service.maintenance ≡ some m)
    × (expected.maintenance.day_of_week ≡ m.dow)
    × (expected.maintenance.time_of_day ≡ m.time)
    × (expected.dbaas.termination_protection ≡ deref_false service.termination_protection)
    × (expected.dbaas.size.plan ≡ service.plan)
    × (expected.ip_filter_is_nil ≡ false)
    × (expected.dbaas.ip_filter ≡ service.ip_filter)
    × (expected.kafka_rest_enabled ≡ deref_false service.kafka_rest_enabled)

deref_maintenance-eq-ok :
    (o : Option ServiceMaintenance) (m : ServiceMaintenance)
    → deref_maintenance o ≡ ok m
    → o ≡ some m
deref_maintenance-eq-ok none m h = cc
deref_maintenance-eq-ok (some n) m h = ap some (ok-injective h)

module _ {S R W : Type 0} (codec : JsonCodec) (api : KafkaApi S R W) (rest : RestEncoding R) where
  reported-true :
      (r : Result String) (next : String → Result (Bool × String)) (d : String)
      → reported codec api rest r next ≡ ok (true, d)
      → (raw : String) × (r ≡ ok raw) × (next raw ≡ ok (true, d))
  reported-true (ok raw) next d h = (raw, refl, h)
  reported-true (err e) next d h = absurd (false≢true (ap (λ p. p.0) (ok-injective h)))
  reported-true (panic p) next d h = cc

  -- diffParameters reports no difference exactly if the settings of the service and those of its REST
  -- interface can be encoded and compare equal to the expected ones, whichever of the two comes first,
  -- the service has a maintenance window, and the day, the time, the termination protection, the plan,
  -- the IP filter in its order, which must not be nil, and the switch of the REST interface are the
  -- expected ones. The zone and the version do not matter.
  pub diff_parameters_iff :
      (cmp_diff : KafkaParameters → KafkaParameters → String) (service : ServiceKafka S R)
      (expected : KafkaParameters)
      → ((diff : String) × (diff_parameters codec api rest cmp_diff service expected
            ≡ ok (true, diff)))
        ↔ ((raw : String) × (raw_rest : String) × (m : ServiceMaintenance) × (api.marshal_settings
                service.kafka_settings
              ≡ ok raw)
            × (rest.marshal_rest service.kafka_rest_settings ≡ ok raw_rest)
            × SameBothWays codec expected.kafka_settings (record { raw = raw })
            × SameBothWays codec expected.kafka_rest_settings (record { raw = raw_rest })
            × Reports expected service m)
  unfolding diff_parameters to_dbaas_parameters to_slice
  diff_parameters_iff cmp_diff service expected = (
    (λ (diff, h).
        let (raw, encoded, next) =
          reported-true (api.marshal_settings service.kafka_settings) _ diff h in
        let (raw_rest, encoded_rest, later) =
          reported-true (rest.marshal_rest service.kafka_rest_settings) _ diff next in
        let (m, window, compared) = >>=-eq-ok (deref_maintenance service.maintenance) _ later in
        let actual = actual_parameters codec api rest service expected raw raw_rest m in
        let (same, equal, last) = >>=-eq-ok (equal_parameters codec expected actual) _ compared in
        let (s, t, fields) =
          (equal_parameters_iff codec expected actual).0
            (equal ∙ ap ok (ap (λ p. p.0) (ok-injective last))) in
        let (day, time, _, protected, plan, given, filter, _, switched) = fields in
        let present = deref_maintenance-eq-ok service.maintenance m window in
        (
          raw,
          raw_rest,
          m,
          encoded,
          encoded_rest,
          s,
          t,
          (present, day, time, protected, plan, given, filter, switched),
        )),
    (λ (raw, raw_rest, m, encoded, encoded_rest, s, t, fields).
        let (window, day, time, protected, plan, given, filter, switched) = fields in
        let actual = actual_parameters codec api rest service expected raw raw_rest m in
        let equal : equal_parameters codec expected actual ≡ ok true =
          (equal_parameters_iff codec expected actual).1
            (s, t, (day, time, refl, protected, plan, given, filter, refl, switched)) in
        (cmp_diff expected actual, rw (encoded, encoded_rest, window, equal) refl)),
  )
