-- ===== src/Sample/Laws.antt =====
-- The sample resources and the webhooks: generate_sample.go, and ValidateCreate of the controllers.
use provider_exoscale.Prelude.{
  String, false, ◌≡◌, ◌↔◌, refl, sym, ◌∙◌, List, [], ◌∷◌, Option, none, Result, ok, ◌==◌, eq_iff,
}
use mathlib.Core.Bool.{false≢true}
use mathlib.Core.List.{Memᴰ}
use mathlib.Core.Path.{subst}
use provider_exoscale.Json.{end, RawExtension, JsonCodec, to_map}
use provider_exoscale.Time.{parse}
use provider_exoscale.Api.{MaintenanceSpec}
use provider_exoscale.Webhook.Laws.{validate_raw_extension_iff}
use provider_exoscale.Dbaas.Laws.{ok-injective}
use provider_exoscale.Dbaas.Creation.{Readable, Creatable}
use provider_exoscale.Mysql.Creation.{mysql-admits_create_iff}
use provider_exoscale.Postgres.Creation.{postgres-admits_create_iff}
use provider_exoscale.OpenSearch.Creation.{opensearch-admits_create_iff}
use provider_exoscale.Bucket.Webhook as BucketWebhook
use provider_exoscale.Iam.Webhook as IamWebhook
use provider_exoscale.Mysql.Webhook as MysqlWebhook
use provider_exoscale.Postgres.Webhook as PostgresWebhook
use provider_exoscale.OpenSearch.Webhook as OpenSearchWebhook
use provider_exoscale.Redis.Webhook as RedisWebhook
use provider_exoscale.Kafka.Webhook as KafkaWebhook
use provider_exoscale.Sample.{
  new_bucket_sample, new_iam_key_sample, new_mysql_sample, new_postgresql_sample, new_redis_sample,
  new_kafka_sample, new_opensearch_sample,
}

module _ (codec : JsonCodec) where
  sample_checks_iff :
      (versions : List String) (wanted : String) (a : String) (m : MaintenanceSpec)
      (s : RawExtension)
      → (wanted == "") ≡ false
      → (parse m.time_of_day).3 ≡ none
      → Creatable codec (ok versions) wanted (a ∷ []) m s
        ↔ (Memᴰ wanted versions × Readable codec s)
  sample_checks_iff versions wanted a m s named time = (
    (λ ((vs, same, n, found), filter, t, settings).
        (subst (Memᴰ wanted) (sym (ok-injective same)) found, settings)),
    (λ (found, settings). (
      (versions, refl, (λ e. false≢true (sym named ∙ (eq_iff wanted "").1 e)), found),
      (λ e. cc),
      time,
      settings,
    )),
  )

  -- Each sample is admitted by its webhook: those for MySQL, PostgreSQL and OpenSearch exactly if their
  -- version, "8", "14" or "2", is among the versions that Exoscale has and their settings decode to a
  -- map of strings, numbers and Booleans, which for OpenSearch, whose sample has no settings, is so;
  -- those for Redis and Kafka exactly if their settings do, where Kafka's names no version and the
  -- versions do not matter; those for the bucket and the IAM key always.
  pub samples_admitted_iff :
      (monday : String) (versions : List String) (answer : Result (Option (List String)))
      → ((MysqlWebhook.validate_create codec (ok versions) (new_mysql_sample monday) ≡ ok tt) ↔ (
          Memᴰ "8" versions
          × Readable codec (new_mysql_sample monday).for_provider.my_sql_settings))
        × ((PostgresWebhook.validate_create codec (ok versions) (new_postgresql_sample monday)
              ≡ ok tt)
            ↔ (Memᴰ "14" versions
                × Readable codec (new_postgresql_sample monday).for_provider.pg_settings))
        × ((OpenSearchWebhook.validate_create codec (ok versions) (new_opensearch_sample monday)
              ≡ ok tt)
            ↔ Memᴰ "2" versions)
        × ((RedisWebhook.validate_create codec (new_redis_sample monday) ≡ ok tt)
            ↔ Readable codec (new_redis_sample monday).for_provider.redis_settings)
        × ((KafkaWebhook.validate_create_with_client codec answer (new_kafka_sample monday) ≡ ok tt)
            ↔ Readable codec (new_kafka_sample monday).for_provider.kafka_settings)
        × (BucketWebhook.validate_create new_bucket_sample ≡ ok tt)
        × (IamWebhook.validate_create new_iam_key_sample ≡ ok tt)
  unfolding new_mysql_sample new_postgresql_sample new_opensearch_sample new_redis_sample
      new_kafka_sample new_bucket_sample new_iam_key_sample BucketWebhook.validate_create
      IamWebhook.validate_create RedisWebhook.validate_create RedisWebhook.validate_spec
      KafkaWebhook.validate_create_with_client KafkaWebhook.validate_spec parse to_map
  samples_admitted_iff monday versions answer =
      let mysql = mysql-admits_create_iff codec (ok versions) (new_mysql_sample monday) in
      let mysql_sample =
        sample_checks_iff versions "8" "0.0.0.0/0"
          (record { day_of_week = monday; time_of_day = "12:00:00" })
          (new_mysql_sample monday).for_provider.my_sql_settings refl refl in
      let postgres =
        postgres-admits_create_iff codec (ok versions) (new_postgresql_sample monday) in
      let postgres_sample =
        sample_checks_iff versions "14" "0.0.0.0/0"
          (record { day_of_week = monday; time_of_day = "12:00:00" })
          (new_postgresql_sample monday).for_provider.pg_settings refl refl in
      let search =
        opensearch-admits_create_iff codec (ok versions) (new_opensearch_sample monday) in
      let search_sample =
        sample_checks_iff versions "2" "0.0.0.0/0"
          (record { day_of_week = monday; time_of_day = "12:01:55" })
          (new_opensearch_sample monday).for_provider.open_search_settings refl refl in
      (
        ((λ h. mysql_sample.0 (mysql.0 h)), (λ c. mysql.1 (mysql_sample.1 c))),
        ((λ h. postgres_sample.0 (postgres.0 h)), (λ c. postgres.1 (postgres_sample.1 c))),
        (
          (λ h. (search_sample.0 (search.0 h)).0),
          (λ c. search.1 (search_sample.1 (c, (end, refl, tt)))),
        ),
        validate_raw_extension_iff codec (new_redis_sample monday).for_provider.redis_settings,
        validate_raw_extension_iff codec (new_kafka_sample monday).for_provider.kafka_settings,
        refl,
        refl,
      )
